-- ===== src/Plugins/Cycle.antt =====
-- Enabling a plugin and disabling or unloading it again.
use mathlib.Core.Path.{subst}
use wp_open_aurora.Prelude.{
  String, true, false, none, some, ◌≡◌, ◌∙◌, eq_refl, get-put, refl, sym, arith, get, Option-cases,
  inl, inr, filter,
}
use wp_open_aurora.Prelude.Results.{ok, Result-cases}
use wp_open_aurora.Hooks.{HookManager, registered, unregister_plugin, is_other}
use wp_open_aurora.Hooks.Plugins.{
  has_plugin, IsTracked, unregister_plugin_lem, unregister_plugin_none,
}
use wp_open_aurora.PluginStorage.{PluginStatus}
use wp_open_aurora.Plugins.{
  IPlugin, PluginInstance, PluginLoader, Node, is_enabled, run_callback, callback_of,
  create_plugin_context,
}
use wp_open_aurora.Plugins.Loading.{enable_plugin, try_enable, load_instance, start_instance}
use wp_open_aurora.Plugins.Unloading.{disable_plugin, try_disable}
use wp_open_aurora.Hooks.Order.{IsOrdered}
use wp_open_aurora.Plugins.Handlers.{enable_plugin-IsTracked, try_disable-IsTracked}
use wp_open_aurora.Plugins.Own.{
  IsLike, IsOwn, rewrite_hooks, run_callback-IsLike, start_instance-IsLike,
}

module _ {V T : Type 0} where
  module _ (node : Node V T) (id : String) where
    module _ (p : PluginInstance V T) (s : PluginLoader V T) (e : get id s.plugins ≡ some p) where
      disable_plugin-hooks :
          is_enabled p ≡ true
          → (disable_plugin node id s).1 ≡ none
          → ((try_disable node id p s.hook_manager).1 ≡ none)
            × ((disable_plugin node id s).0.hook_manager
                ≡ unregister_plugin id (try_disable node id p s.hook_manager).0)
      unfolding disable_plugin
      disable_plugin-hooks k n = elim (Option-cases (try_disable node id p s.hook_manager).1) [
        | inl f ↦ (f, ground (arith, e, k, f))
        | inr (x, f) ↦ ground (arith, e, k, f, n)
      ]

      enable_plugin-started :
          is_enabled p ≡ false
          → (enable_plugin node id s).1 ≡ none
          → ((try_enable node id p s.hook_manager).2 ≡ none)
            × ((enable_plugin node id s).0.hook_manager ≡ (try_enable node id p s.hook_manager).1)
            × (get id (enable_plugin node id s).0.plugins
                ≡ some (record p {
                  instance_of = (try_enable node id p s.hook_manager).0;
                  status = PluginStatus.enabled;
                  error = none;
                  enabled_at = some node.now;
                }))
      unfolding enable_plugin
      enable_plugin-started k n = elim (Option-cases (try_enable node id p s.hook_manager).2) [
        | inl f ↦
            let q : PluginInstance V T = record p {
              instance_of = (try_enable node id p s.hook_manager).0;
              status = PluginStatus.enabled;
              error = none;
              enabled_at = some node.now;
            } in
            (
              f,
              ground (arith, e, k, f),
              ground (arith, e, k, f, get-put id id q s.plugins, eq_refl id),
            )
        | inr (x, f) ↦ ground (arith, e, k, f, n)
      ]

    try_enable-started :
        (p : PluginInstance V T) (m : HookManager T) (i : IPlugin V T)
        → load_instance node id p ≡ ok i
        → (try_enable node id p m).2 ≡ none
        → ((try_enable node id p m).0 ≡ some i)
          × ((try_enable node id p m).1 ≡ (start_instance i p.config m).0)
    unfolding try_enable
    try_enable-started p m i l n = elim (Result-cases (create_plugin_context node id)) [
      | inl (u, e) ↦ (ground (arith, e, l), ground (arith, e, l))
      | inr (x, e) ↦ ground (arith, e, n)
    ]

    try_disable-IsLike :
        (p : PluginInstance V T) (m : HookManager T)
        → IsOwn id (callback_of (λ i. i.on_disable) p.instance_of)
        → IsOrdered m
        → IsLike id m (try_disable node id p m).0
    unfolding try_disable
    try_disable-IsLike p m h o =
        let f = callback_of (λ i. i.on_disable) p.instance_of in
        elim (Result-cases (create_plugin_context node id)) [
          | inl (u, e) ↦
              rewrite_hooks id m (run_callback f p.config m).0 (try_disable node id p m).0
                (ground (arith, e)) (run_callback-IsLike id f p.config m h o)
          | inr (x, e) ↦
              rewrite_hooks id m m (try_disable node id p m).0 (ground (arith, e))
                (o, λ event. refl)
        ]

    -- Disabling an enabled plugin, when nothing throws, removes all of its handlers, those of its
    -- `onDisable` included, and keeps those of the other plugins as `onDisable` has left them. Every
    -- plugin with a handler is tracked before.
    pub disable_plugin_removes :
        (p : PluginInstance V T) (s : PluginLoader V T) (event : String)
        → get id s.plugins ≡ some p
        → is_enabled p ≡ true
        → IsTracked s.hook_manager
        → (disable_plugin node id s).1 ≡ none
        → (has_plugin id (registered event (disable_plugin node id s).0.hook_manager) ≡ false)
          × (registered event (disable_plugin node id s).0.hook_manager
              ≡ filter (is_other id) (registered event (try_disable node id p s.hook_manager).0))
    disable_plugin_removes p s event e k t n =
        let m = (try_disable node id p s.hook_manager).0 in
        let tracked = try_disable-IsTracked node id p s.hook_manager t in
        rw (disable_plugin-hooks p s e k n).1
          (unregister_plugin_none id m event tracked, (unregister_plugin_lem id m tracked).0 event)

  module _ (node node' : Node V T) (id : String) (p : PluginInstance V T)
      (s : PluginLoader V T) where
    -- Enabling a plugin and disabling it again, when nothing throws, leaves of every event the
    -- handlers of the other plugins as they were, in their order. The plugin is loaded and not
    -- enabled, its object registers handlers of its own only, the lists stand in order and every
    -- plugin with a handler is tracked.
    pub disable_plugin-enable_plugin :
        (i : IPlugin V T) (event : String)
        → get id s.plugins ≡ some p
        → is_enabled p ≡ false
        → load_instance node id p ≡ ok i
        → IsOwn id i.on_load
        → IsOwn id i.on_enable
        → IsOwn id i.on_disable
        → IsOrdered s.hook_manager
        → IsTracked s.hook_manager
        → (enable_plugin node id s).1 ≡ none
        → (disable_plugin node' id (enable_plugin node id s).0).1 ≡ none
        → registered event (disable_plugin node' id (enable_plugin node id s).0).0.hook_manager
          ≡ filter (is_other id) (registered event s.hook_manager)
    disable_plugin-enable_plugin i event e k l a b c o t n n' =
        let s' = (enable_plugin node id s).0 in
        let m = s.hook_manager in
        let started = enable_plugin-started node id p s e k n in
        let object = try_enable-started node id p m i l started.0 in
        let q : PluginInstance V T = record p {
          instance_of = (try_enable node id p m).0;
          status = PluginStatus.enabled;
          error = none;
          enabled_at = some node.now;
        } in
        let own : IsOwn id (callback_of (λ j. j.on_disable) q.instance_of) =
          subst (λ x. IsOwn id (callback_of (λ (j : IPlugin V T). j.on_disable) x)) (sym object.0)
            c in
        let on =
          rewrite_hooks id m (start_instance i p.config m).0 s'.hook_manager (started.1 ∙ object.1)
            (start_instance-IsLike id i p.config m a b o) in
        let tracked = enable_plugin-IsTracked node id s t in
        let off = try_disable-IsLike node' id q s'.hook_manager own on.0 in
        (disable_plugin_removes node' id q s' event started.2 refl tracked n').1
        ∙ off.1 event
        ∙ on.1 event
