-- ===== src/Hooks/Plugins.antt =====
-- Every plugin with a handler is tracked, so that unregistering a plugin removes all of its handlers.
use mathlib.Core.Path.{subst}
use wp_open_aurora.Prelude.{
  ℕ, String, Bool, true, false, not, ◌||◌, Option, none, some, List, [], ◌∷◌, ◌++◌, ◌==◌, eq_iff,
  eq_refl, ◌≡◌, refl, arith, or_default, filter, any, any-append, get, get-put, get-delete, has,
  Map, inl, inr, Option-cases, Bool-cases, ◌∙◌,
}
use wp_open_aurora.Hooks.{
  HookRegistration, HookManager, Outcome, insert, sort, registered, registration, register,
  unregister, unregister_in, untrack, remove_first, unregister_plugin, drop_plugin, is_other,
  add_to_set,
}
use wp_open_aurora.Hooks.Order.{register-registered}

has-untrack :
    (id plugin_id : String) (owner : Option String) (tracked : Map (List String))
    → has plugin_id (untrack id owner tracked) ≡ has plugin_id tracked
unfolding untrack
has-untrack id plugin_id none tracked = refl
has-untrack id plugin_id (some owner) tracked = elim (Option-cases (get owner tracked)) [
  | inl e ↦ ground arith
  | inr (ids, e) ↦ ground (
    arith,
    get-put owner plugin_id (filter (λ j. not (j == id)) ids) tracked,
    eq_iff owner plugin_id,
  )
]

module _ {T : Type 0} where
  abbrev pub has_plugin : String → List (HookRegistration T) → Bool
  has_plugin plugin_id = any (λ r. r.plugin_id == plugin_id)

  -- The owner of every handler is a key of `pluginHooks`.
  abbrev pub IsTracked : HookManager T → Type 0
  IsTracked m =
      (event plugin_id : String)
      → has_plugin plugin_id (registered event m) ≡ true
      → has plugin_id m.plugin_hooks ≡ true

  any-insert :
      (p : HookRegistration T → Bool) (x : HookRegistration T) (xs : List (HookRegistration T))
      → any p (insert x xs) ≡ (p x || any p xs)
  unfolding insert
  any-insert p x [] = refl
  any-insert p x (y ∷ ys) = ground (arith, any-insert p x ys)

  any-sort :
      (p : HookRegistration T → Bool) (xs : List (HookRegistration T)) → any p (sort xs) ≡ any p xs
  unfolding sort
  any-sort p [] = refl
  any-sort p (x ∷ xs) = ground (arith, any-insert p x (sort xs), any-sort p xs)

  any-remove_first :
      (p : HookRegistration T → Bool) (id : String) (xs : List (HookRegistration T))
      → any p (remove_first id xs) ≡ true
      → any p xs ≡ true
  unfolding remove_first
  any-remove_first p id [] h = h
  any-remove_first p id (x ∷ xs) h = ground (arith, any-remove_first p id xs)

  get-unregister_in :
      (p : HookRegistration T → Bool) (id event : String) (hooks : Map (List (HookRegistration T)))
      → any p (or_default (get event (unregister_in id hooks).0) []) ≡ true
      → any p (or_default (get event hooks) []) ≡ true
  unfolding unregister_in get
  get-unregister_in p id event [] h = h
  get-unregister_in p id event ((e, rs) ∷ hooks) h =
      ground (arith, any-remove_first p id rs, get-unregister_in p id event hooks)

  pub unregister-IsTracked :
      (id : String) (m : HookManager T) → IsTracked m → IsTracked (unregister id m)
  unfolding unregister
  unregister-IsTracked id m t event plugin_id h =
      let before = t event plugin_id (get-unregister_in _ id event m.hooks h) in
      ground (arith, before, has-untrack id plugin_id (unregister_in id m.hooks).1 m.plugin_hooks)

  pub register-IsTracked :
      (plugin_id event : String) (handler : T → Outcome T) (priority : ℕ) (stamp : String)
      (m : HookManager T)
      → IsTracked m
      → IsTracked (register plugin_id event handler priority stamp m).0
  unfolding register
  register-IsTracked plugin_id event handler priority stamp m t other owner h =
      let r = registration plugin_id event handler priority stamp in
      let tracked : has owner m.plugin_hooks ≡ true
          → has owner (register plugin_id event handler priority stamp m).0.plugin_hooks ≡ true =
        λ k. ground (
          arith,
          get-put plugin_id owner (add_to_set r.id (or_default (get plugin_id m.plugin_hooks) []))
              m.plugin_hooks,
        ) in
      ground (
        arith,
        register-registered plugin_id event handler priority stamp m other,
        any-sort (λ r. r.plugin_id == owner) (registered event m ++ r ∷ []),
        any-append (λ r. r.plugin_id == owner) (registered event m) (r ∷ []),
        get-put plugin_id owner (add_to_set r.id (or_default (get plugin_id m.plugin_hooks) []))
            m.plugin_hooks,
        eq_iff event other,
        t event owner,
        t other owner,
      )

  get-drop_plugin :
      (plugin_id event : String) (hooks : Map (List (HookRegistration T)))
      → or_default (get event (drop_plugin plugin_id hooks)) []
        ≡ filter (is_other plugin_id) (or_default (get event hooks) [])
  unfolding drop_plugin get
  get-drop_plugin plugin_id event [] = refl
  get-drop_plugin plugin_id event ((e, rs) ∷ hooks) =
      ground (arith, get-drop_plugin plugin_id event hooks)

  filter-has_none :
      (plugin_id : String) (rs : List (HookRegistration T))
      → has_plugin plugin_id rs ≡ false
      → filter (is_other plugin_id) rs ≡ rs
  filter-has_none plugin_id [] h = refl
  filter-has_none plugin_id (r ∷ rs) h = ground (arith, filter-has_none plugin_id rs)

  -- Unregistering a plugin leaves, for every event, exactly the handlers of the other plugins, in
  -- their order, and no longer tracks the plugin.
  pub unregister_plugin_lem :
      (plugin_id : String) (m : HookManager T)
      → IsTracked m
      → ((event : String)
          → registered event (unregister_plugin plugin_id m)
            ≡ filter (is_other plugin_id) (registered event m))
        × (has plugin_id (unregister_plugin plugin_id m).plugin_hooks ≡ false)
  unfolding unregister_plugin
  unregister_plugin_lem plugin_id m t = elim (Option-cases (get plugin_id m.plugin_hooks)) [
    | inl e ↦ (
      λ event.
          let absent : has_plugin plugin_id (registered event m) ≡ false =
            ground (arith, t event plugin_id) in
          ground (arith, filter-has_none plugin_id (registered event m) absent),
      ground arith,
    )
    | inr (ids, e) ↦ (
      λ event. ground (arith, get-drop_plugin plugin_id event m.hooks),
      ground (arith, get-delete plugin_id plugin_id m.plugin_hooks, eq_refl plugin_id),
    )
  ]

  any-filter :
      (p q : HookRegistration T → Bool) (rs : List (HookRegistration T))
      → any p (filter q rs) ≡ true
      → any p rs ≡ true
  any-filter p q [] h = h
  any-filter p q (r ∷ rs) h = ground (arith, any-filter p q rs)

  none_of-filter :
      (plugin_id : String) (rs : List (HookRegistration T))
      → has_plugin plugin_id (filter (is_other plugin_id) rs) ≡ false
  none_of-filter plugin_id [] = refl
  none_of-filter plugin_id (r ∷ rs) = ground (arith, none_of-filter plugin_id rs)

  pub unregister_plugin_none :
      (plugin_id : String) (m : HookManager T) (event : String)
      → IsTracked m
      → has_plugin plugin_id (registered event (unregister_plugin plugin_id m)) ≡ false
  unregister_plugin_none plugin_id m event t =
      rw ((unregister_plugin_lem plugin_id m t).0 event)
        (none_of-filter plugin_id (registered event m))

  has-unregister_plugin :
      (id plugin_id : String) (m : HookManager T)
      → (id == plugin_id) ≡ false
      → has plugin_id (unregister_plugin id m).plugin_hooks ≡ has plugin_id m.plugin_hooks
  unfolding unregister_plugin
  has-unregister_plugin id plugin_id m n = elim (Option-cases (get id m.plugin_hooks)) [
    | inl e ↦ ground (arith, e)
    | inr (ids, e) ↦ ground (arith, e, n, get-delete id plugin_id m.plugin_hooks)
  ]

  pub unregister_plugin-IsTracked :
      (id : String) (m : HookManager T) → IsTracked m → IsTracked (unregister_plugin id m)
  unregister_plugin-IsTracked id m t event plugin_id h = elim (Bool-cases (id == plugin_id)) [
    | inl e ↦ ground (arith, e, eq_iff id plugin_id, unregister_plugin_none id m event t)
    | inr e ↦
        let rs = registered event m in
        let k : has_plugin plugin_id (filter (is_other id) rs) ≡ true =
          subst (λ x. has_plugin plugin_id x ≡ true) ((unregister_plugin_lem id m t).0 event) h in
        let owned = any-filter (λ r. r.plugin_id == plugin_id) (is_other id) rs k in
        has-unregister_plugin id plugin_id m e ∙ t event plugin_id owned
  ]
