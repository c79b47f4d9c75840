-- ===== src/Plugins/Own.antt =====
-- A plugin whose code registers handlers of its own only.
use mathlib.Core.Path.{subst}
use wp_open_aurora.Prelude.{
  String, Bool, true, false, Option, none, some, List, [], ◌∷◌, ◌==◌, ◌≡◌, ◌∙◌, all, eq_iff, refl,
  sym, arith, Map, Option-cases, inl, inr, filter,
}
use wp_open_aurora.Hooks.{HookManager, HookRegistration, registered, register, is_other}
use wp_open_aurora.Plugins.{
  HookCall, registers, unregisters, unregisters_plugin, Callback, IPlugin, run_call, run_calls,
  run_callback,
}
use wp_open_aurora.Plugins.Loading.{start_instance}
use wp_open_aurora.Hooks.Order.{IsOrdered, register-IsOrdered, register_others}

module _ {T : Type 0} where
  -- The plugin's code registers for itself, by `context.registerHook`.
  abbrev pub own_call : String → HookCall T → Bool
  own_call id (registers owner event handler priority stamp) = owner == id
  own_call id c = false

  abbrev pub others : String → String → HookManager T → List (HookRegistration T)
  others id event m = filter (is_other id) (registered event m)

  -- The handlers of the other plugins are the same, and the lists stand in order.
  abbrev pub IsLike : String → HookManager T → HookManager T → Type 0
  IsLike id m m' = IsOrdered m' × ((event : String) → others id event m' ≡ others id event m)

  run_call-IsLike :
      (id : String) (c : HookCall T) (m : HookManager T)
      → own_call id c ≡ true
      → IsOrdered m
      → IsLike id m (run_call c m)
  unfolding run_call
  run_call-IsLike id (registers owner event handler priority stamp) m h o = (
    register-IsOrdered owner event handler priority stamp m o,
    λ other.
        subst
          (λ j. others j other (register owner event handler priority stamp m).0 ≡ others j other m)
          ((eq_iff owner id).0 h) (register_others owner event handler priority stamp m other o),
  )
  run_call-IsLike id (unregisters owner) m h o = cc
  run_call-IsLike id (unregisters_plugin owner) m h o = cc

  pub rewrite_hooks : (id : String) (m a b : HookManager T) → b ≡ a → IsLike id m a → IsLike id m b
  rewrite_hooks id m a b e t = subst (λ x. IsLike id m x) (sym e) t

  pub IsLike-trans :
      (id : String) (a b c : HookManager T) → IsLike id a b → IsLike id b c → IsLike id a c
  IsLike-trans id a b c p q = (q.0, λ event. q.1 event ∙ p.1 event)

  pub run_calls-IsLike :
      (id : String) (cs : List (HookCall T)) (m : HookManager T)
      → all (own_call id) cs ≡ true
      → IsOrdered m
      → IsLike id m (run_calls cs m)
  unfolding run_calls
  run_calls-IsLike id [] m h o = (o, λ event. refl)
  run_calls-IsLike id (c ∷ cs) m h o =
      let first = run_call-IsLike id c m (ground (arith, h)) o in
      IsLike-trans id m (run_call c m) (run_calls cs (run_call c m)) first
        (run_calls-IsLike id cs (run_call c m) (ground (arith, h)) first.0)

module _ {V T : Type 0} where
  abbrev pub IsOwn : String → Option (Callback V T) → Type 0
  IsOwn id none = Unit
  IsOwn id (some f) = (config : Map V) (m : HookManager T) → all (own_call id) (f config m).0 ≡ true

  pub run_callback-IsLike :
      (id : String) (f : Option (Callback V T)) (config : Map V) (m : HookManager T)
      → IsOwn id f
      → IsOrdered m
      → IsLike id m (run_callback f config m).0
  unfolding run_callback
  run_callback-IsLike id none config m h o = (o, λ event. refl)
  run_callback-IsLike id (some f) config m h o = run_calls-IsLike id (f config m).0 m (h config m) o

  pub start_instance-IsLike :
      (id : String) (i : IPlugin V T) (config : Map V) (m : HookManager T)
      → IsOwn id i.on_load
      → IsOwn id i.on_enable
      → IsOrdered m
      → IsLike id m (start_instance i config m).0
  unfolding start_instance
  start_instance-IsLike id i config m h k o =
      let loaded = run_callback-IsLike id i.on_load config m h o in
      let m' = (run_callback i.on_load config m).0 in
      let enabled_after = run_callback-IsLike id i.on_enable config m' k loaded.0 in
      elim (Option-cases (run_callback i.on_load config m).1) [
        | inl e ↦
            rewrite_hooks id m (run_callback i.on_enable config m').0 (start_instance i config m).0
              (ground (arith, e))
              (IsLike-trans id m m' (run_callback i.on_enable config m').0 loaded enabled_after)
        | inr (x, e) ↦
            rewrite_hooks id m m' (start_instance i config m).0 (ground (arith, e)) loaded
      ]
