-- ===== src/Plugins/Machine.antt =====
-- An abstract machine for the statuses of plugins, and what it means to follow it.
use wp_open_aurora.Prelude.{
  String, Bool, true, false, Option, none, some, List, [], ◌∷◌, ◌==◌, eq_refl, ◌≡◌, ◌∙◌, ap, arith,
  get, put, delete, get-put, get-delete, is_some, if◌then◌else◌,
}
use wp_open_aurora.Prelude.Results.{ok, err}
use wp_open_aurora.Hooks.{HookManager, unregister_plugin}
use wp_open_aurora.PluginStorage.{PluginStatus}
use wp_open_aurora.Plugins.{
  LoaderError, PluginInstance, PluginLoader, Node, is_enabled, same_status, callback_of,
  run_callback, create_plugin_context,
}
use wp_open_aurora.Plugins.Loading.{is_incomplete, try_enable}
use wp_open_aurora.Plugins.Unloading.{try_disable}
use wp_open_aurora.Plugins.Calls.{LoaderCall}

-- What is asked of a plugin, and what goes wrong outside of the loader: an incomplete manifest, or a
-- throw of the start, of the stop, or of the plugin's `onUnload`.
pub data Operation : Type 0 where
  loads : (is_incomplete : Bool) → Operation
  registers_built_in : Operation
  enables : (start_throws : Bool) → Operation
  disables : (stop_throws : Bool) → Operation
  unloads : (stop_throws unload_throws : Bool) → Operation
  configures : Operation

abbrev is_on : PluginStatus → Bool
is_on a = same_status a PluginStatus.enabled

-- The status afterwards (none for a plugin that is not loaded), and whether the call throws.
abbrev pub next : Operation → Option PluginStatus → Option PluginStatus × Bool
next registers_built_in a = (some PluginStatus.installed, false)
next (loads bad) none = if bad then (none, true) else (some PluginStatus.installed, false)
next o none = (none, true)
next (loads bad) (some a) = (some a, true)
next (enables start_throws) (some a) =
    if is_on a
    then (some PluginStatus.enabled, false)
    else if start_throws
    then (some PluginStatus.error, true)
    else (some PluginStatus.enabled, false)
next (disables stop_throws) (some a) =
    if is_on a
    then (if stop_throws
        then (some PluginStatus.error, true)
        else (some PluginStatus.disabled, false))
    else (some a, false)
next (unloads stop_throws unload_throws) (some a) =
    if is_on a
    then (if stop_throws
        then (some PluginStatus.error, true)
        else if unload_throws
        then (some PluginStatus.disabled, true)
        else (none, false))
    else (if unload_throws then (some a, true) else (none, false))
next configures (some a) = (some a, false)

abbrev pub Statuses : Type 0
Statuses = String → Option PluginStatus

-- A run of the machine over the statuses of all plugins: each operation moves its plugin only.
unfoldable pub run_machine : List (Operation × String) → Statuses → Statuses × List Bool
run_machine [] a = (a, [])
run_machine ((o, id) ∷ os) a =
    let (b, throws) = next o (a id) in
    let rest = run_machine os (λ other. if id == other then b else a other) in
    (rest.0, throws ∷ rest.1)

module _ {V T : Type 0} where
  abbrev pub status_of : PluginLoader V T → Statuses
  status_of s id = elim (get id s.plugins) [ none ↦ none | some p ↦ some p.status ]

  pub enabled_status :
      (p : PluginInstance V T) → is_enabled p ≡ true → p.status ≡ PluginStatus.enabled
  enabled_status p h = ground arith

  -- Whether the `onUnload` of a plugin throws, or the making of its context.
  abbrev pub unload_throws : Node V T → String → PluginInstance V T → HookManager T → Bool
  unload_throws node id p m = elim (callback_of (λ i. i.on_unload) p.instance_of) [
    | none ↦ false
    | some f ↦ elim (create_plugin_context node id) [
      | err e ↦ true
      | ok u ↦ is_some (run_callback (some f) p.config m).1
    ]
  ]

  abbrev pub start_throws : Node V T → PluginLoader V T → String → Bool
  start_throws node s id = elim (get id s.plugins) [
    | none ↦ false
    | some p ↦ is_some (try_enable node id p s.hook_manager).2
  ]

  abbrev pub stop_throws : Node V T → PluginLoader V T → String → Bool
  stop_throws node s id = elim (get id s.plugins) [
    | none ↦ false
    | some p ↦ is_some (try_disable node id p s.hook_manager).1
  ]

  -- An enabled plugin is stopped before its `onUnload` is called.
  abbrev pub unload_throws_at : Node V T → PluginLoader V T → String → Bool
  unload_throws_at node s id = elim (get id s.plugins) [
    | none ↦ false
    | some p ↦ unload_throws node id p (
        if is_enabled p
        then unregister_plugin id (try_disable node id p s.hook_manager).0
        else s.hook_manager)
  ]

  abbrev pub operation : Node V T → LoaderCall V T → PluginLoader V T → Operation
  operation node (LoaderCall.load m) s = loads (is_incomplete m)
  operation node (LoaderCall.built_in m i config) s = registers_built_in
  operation node (LoaderCall.enable id) s = enables (start_throws node s id)
  operation node (LoaderCall.disable id) s = disables (stop_throws node s id)
  operation node (LoaderCall.unload id) s =
      unloads (stop_throws node s id) (unload_throws_at node s id)
  operation node (LoaderCall.configure id config) s = configures

  -- A call moves its plugin as the machine does and leaves the other plugins as they are.
  abbrev pub Follows :
      Operation → String → PluginLoader V T → PluginLoader V T × Option LoaderError → Type 0
  Follows o id s r =
      (next o (status_of s id) ≡ (status_of r.0 id, is_some r.1))
      × ((other : String) → (id == other) ≡ false → get other r.0.plugins ≡ get other s.plugins)

  module _ (o : Operation) (id : String) (s : PluginLoader V T)
      (r : PluginLoader V T × Option LoaderError) where
    pub rewrite_ends :
        (a : Option PluginStatus) (t : Bool) (b : Option PluginStatus)
        → status_of s id ≡ a
        → is_some r.1 ≡ t
        → status_of r.0 id ≡ b
        → next o a ≡ (b, t)
        → next o (status_of s id) ≡ (status_of r.0 id, is_some r.1)
    rewrite_ends a t b p q f st = ap (next o) p ∙ st ∙ cc

    pub same-Follows :
        (a : Option PluginStatus) (t : Bool)
        → r.0.plugins ≡ s.plugins
        → status_of s id ≡ a
        → is_some r.1 ≡ t
        → next o a ≡ (a, t)
        → Follows o id s r
    same-Follows a t p q f st =
        (rewrite_ends a t a q f (ground (arith, p, q)) st, λ other h. ground (arith, p))

    pub put-Follows :
        (a : Option PluginStatus) (t : Bool) (x : PluginInstance V T)
        → r.0.plugins ≡ put id x s.plugins
        → status_of s id ≡ a
        → is_some r.1 ≡ t
        → next o a ≡ (some x.status, t)
        → Follows o id s r
    put-Follows a t x p q f st = (
      rewrite_ends a t (some x.status) q f
          (ground (arith, p, get-put id id x s.plugins, eq_refl id)) st,
      λ other h. ground (arith, p, get-put id other x s.plugins),
    )

    pub delete-Follows :
        (a : Option PluginStatus) (t : Bool)
        → r.0.plugins ≡ delete id s.plugins
        → status_of s id ≡ a
        → is_some r.1 ≡ t
        → next o a ≡ (none, t)
        → Follows o id s r
    delete-Follows a t p q f st = (
      rewrite_ends a t none q f (ground (arith, p, get-delete id id s.plugins, eq_refl id)) st,
      λ other h. ground (arith, p, get-delete id other s.plugins),
    )
