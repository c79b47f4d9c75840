-- ===== src/Plugins/Handlers.antt =====
-- The handlers of plugins over the calls of the loader.
use mathlib.Core.Path.{subst}
use wp_open_aurora.Prelude.{
  String, Option, none, some, List, [], ◌∷◌, ◌≡◌, sym, arith, if◌then◌else◌, Map, get, Option-cases,
  Bool-cases, inl, inr,
}
use wp_open_aurora.Prelude.Results.{Result-cases, ◌>>◌}
use wp_open_aurora.Hooks.{HookManager}
use wp_open_aurora.Hooks.Plugins.{
  IsTracked, register-IsTracked, unregister-IsTracked, unregister_plugin-IsTracked,
}
use wp_open_aurora.Plugins.{
  HookCall, registers, unregisters, unregisters_plugin, Callback, IPlugin, PluginInstance,
  PluginLoader, Node, PluginManifest, merge, is_enabled, run_call, run_calls, run_callback,
  callback_of, create_plugin_context,
}
use wp_open_aurora.Plugins.Loading.{
  load_plugin, enable_plugin, register_built_in_plugin, try_enable, load_instance, start_instance,
}
use wp_open_aurora.Plugins.Unloading.{
  disable_plugin, unload_plugin, update_plugin_config, remove_plugin, try_disable,
}
use wp_open_aurora.Plugins.Calls.{LoaderCall, perform, perform_all}

module _ {T : Type 0} where
  same_hooks : {m m' : HookManager T} → m' ≡ m → IsTracked m → IsTracked m'
  same_hooks e t = subst (λ x. IsTracked x) (sym e) t

  run_call-IsTracked : (c : HookCall T) (m : HookManager T) → IsTracked m → IsTracked (run_call c m)
  unfolding run_call
  run_call-IsTracked (registers plugin_id event handler priority stamp) m t =
      register-IsTracked plugin_id event handler priority stamp m t
  run_call-IsTracked (unregisters id) m t = unregister-IsTracked id m t
  run_call-IsTracked (unregisters_plugin plugin_id) m t = unregister_plugin-IsTracked plugin_id m t

  run_calls-IsTracked :
      (cs : List (HookCall T)) (m : HookManager T) → IsTracked m → IsTracked (run_calls cs m)
  unfolding run_calls
  run_calls-IsTracked [] m t = t
  run_calls-IsTracked (c ∷ cs) m t =
      run_calls-IsTracked cs (run_call c m) (run_call-IsTracked c m t)

module _ {V T : Type 0} where
  pub run_callback-IsTracked :
      (f : Option (Callback V T)) (config : Map V) (m : HookManager T)
      → IsTracked m
      → IsTracked (run_callback f config m).0
  unfolding run_callback
  run_callback-IsTracked none config m t = t
  run_callback-IsTracked (some f) config m t = run_calls-IsTracked (f config m).0 m t

  start_instance-IsTracked :
      (i : IPlugin V T) (config : Map V) (m : HookManager T)
      → IsTracked m
      → IsTracked (start_instance i config m).0
  unfolding start_instance
  start_instance-IsTracked i config m t =
      let loaded = run_callback-IsTracked i.on_load config m t in
      let m' = (run_callback i.on_load config m).0 in
      elim (Option-cases (run_callback i.on_load config m).1) [
        | inl e ↦
            same_hooks (ground (arith, e)) (run_callback-IsTracked i.on_enable config m' loaded)
        | inr (x, e) ↦ same_hooks (ground (arith, e)) loaded
      ]

  module _ (node : Node V T) where
    pub try_enable-IsTracked :
        (id : String) (p : PluginInstance V T) (m : HookManager T)
        → IsTracked m
        → IsTracked (try_enable node id p m).1
    unfolding try_enable
    try_enable-IsTracked id p m t =
        elim (Result-cases (create_plugin_context node id >> load_instance node id p)) [
          | inl (i, e) ↦ same_hooks (ground (arith, e)) (start_instance-IsTracked i p.config m t)
          | inr (x, e) ↦ same_hooks (ground (arith, e)) t
        ]

    pub try_disable-IsTracked :
        (id : String) (p : PluginInstance V T) (m : HookManager T)
        → IsTracked m
        → IsTracked (try_disable node id p m).0
    unfolding try_disable
    try_disable-IsTracked id p m t =
        let f = callback_of (λ i. i.on_disable) p.instance_of in
        elim (Result-cases (create_plugin_context node id)) [
          | inl (u, e) ↦ same_hooks (ground (arith, e)) (run_callback-IsTracked f p.config m t)
          | inr (x, e) ↦ same_hooks (ground (arith, e)) t
        ]

    module _ (id : String) (s : PluginLoader V T) (t : IsTracked s.hook_manager) where
      pub enable_plugin-IsTracked : IsTracked (enable_plugin node id s).0.hook_manager
      unfolding enable_plugin
      enable_plugin-IsTracked = elim (Option-cases (get id s.plugins)) [
        | inl e ↦ same_hooks (ground (arith, e)) t
        | inr (p, e) ↦ elim (Bool-cases (is_enabled p)) [
          | inl k ↦ same_hooks (ground (arith, e, k)) t
          | inr k ↦ same_hooks (ground (arith, e, k)) (try_enable-IsTracked id p s.hook_manager t)
        ]
      ]

      disable_plugin-IsTracked : IsTracked (disable_plugin node id s).0.hook_manager
      unfolding disable_plugin
      disable_plugin-IsTracked = elim (Option-cases (get id s.plugins)) [
        | inl e ↦ same_hooks (ground (arith, e)) t
        | inr (p, e) ↦ elim (Bool-cases (is_enabled p)) [
          | inr k ↦ same_hooks (ground (arith, e, k)) t
          | inl k ↦
              let m = (try_disable node id p s.hook_manager).0 in
              let tracked = try_disable-IsTracked id p s.hook_manager t in
              elim (Option-cases (try_disable node id p s.hook_manager).1) [
                | inl f ↦
                    same_hooks (ground (arith, e, k, f)) (unregister_plugin-IsTracked id m tracked)
                | inr (x, f) ↦ same_hooks (ground (arith, e, k, f)) tracked
              ]
        ]
      ]

      remove_plugin-IsTracked :
          (p : PluginInstance V T) → IsTracked (remove_plugin node id p s).0.hook_manager
      unfolding remove_plugin
      remove_plugin-IsTracked p =
          let f = callback_of (λ i. i.on_unload) p.instance_of in
          let ran = run_callback-IsTracked f p.config s.hook_manager t in
          elim (Option-cases (callback_of (λ i. i.on_unload) p.instance_of)) [
            | inl e ↦ elim (Option-cases (run_callback f p.config s.hook_manager).1) [
              | inl h ↦ same_hooks (ground (arith, e, h)) ran
              | inr (x, h) ↦ same_hooks (ground (arith, e, h)) ran
            ]
            | inr (g, e) ↦ elim (Result-cases (create_plugin_context node id)) [
              | inr (x, c) ↦ same_hooks (ground (arith, e, c)) t
              | inl (u, c) ↦ elim (Option-cases (run_callback f p.config s.hook_manager).1) [
                | inl h ↦ same_hooks (ground (arith, e, c, h)) ran
                | inr (x, h) ↦ same_hooks (ground (arith, e, c, h)) ran
              ]
            ]
          ]

      configure-IsTracked :
          (config : Map V) → IsTracked (update_plugin_config node id config s).0.hook_manager
      unfolding update_plugin_config
      configure-IsTracked config = elim (Option-cases (get id s.plugins)) [
        | inl e ↦ same_hooks (ground (arith, e)) t
        | inr (p, e) ↦
            let f : Option (Callback V T) =
              if is_enabled p then callback_of (λ i. i.on_config_change) p.instance_of else none in
            same_hooks (ground (arith, e))
              (run_callback-IsTracked f (merge p.config config) s.hook_manager t)
      ]

    unload_plugin-IsTracked :
        (id : String) (s : PluginLoader V T)
        → IsTracked s.hook_manager
        → IsTracked (unload_plugin node id s).0.hook_manager
    unfolding unload_plugin
    unload_plugin-IsTracked id s t = elim (Option-cases (get id s.plugins)) [
      | inl e ↦ same_hooks (ground (arith, e)) t
      | inr (p, e) ↦ elim (Bool-cases (is_enabled p)) [
        | inr k ↦ same_hooks (ground (arith, e, k)) (remove_plugin-IsTracked id s t p)
        | inl k ↦
            let s' = (disable_plugin node id s).0 in
            let tracked = disable_plugin-IsTracked id s t in
            elim (Option-cases (disable_plugin node id s).1) [
              | inl f ↦
                  same_hooks (ground (arith, e, k, f)) (remove_plugin-IsTracked id s' tracked p)
              | inr (x, f) ↦ same_hooks (ground (arith, e, k, f)) tracked
            ]
      ]
    ]

    load-IsTracked :
        (m : PluginManifest) (s : PluginLoader V T)
        → IsTracked s.hook_manager
        → IsTracked (perform node (LoaderCall.load m) s).0.hook_manager
    unfolding load_plugin
    load-IsTracked m s t = same_hooks (ground arith) t

    perform-IsTracked :
        (c : LoaderCall V T) (s : PluginLoader V T)
        → IsTracked s.hook_manager
        → IsTracked (perform node c s).0.hook_manager
    unfolding register_built_in_plugin
    perform-IsTracked (LoaderCall.load m) s t = load-IsTracked m s t
    perform-IsTracked (LoaderCall.built_in m i config) s t = t
    perform-IsTracked (LoaderCall.enable id) s t = enable_plugin-IsTracked id s t
    perform-IsTracked (LoaderCall.disable id) s t = disable_plugin-IsTracked id s t
    perform-IsTracked (LoaderCall.unload id) s t = unload_plugin-IsTracked id s t
    perform-IsTracked (LoaderCall.configure id config) s t = configure-IsTracked id s t config

  -- Whatever calls are made of the loader, and whatever the plugins' own code registers and
  -- unregisters, every plugin with a handler is tracked, if it is so at the start.
  pub perform_all-IsTracked :
      (cs : List (Node V T × LoaderCall V T)) (s : PluginLoader V T)
      → IsTracked s.hook_manager
      → IsTracked (perform_all cs s).hook_manager
  perform_all-IsTracked [] s t = t
  perform_all-IsTracked ((node, c) ∷ cs) s t =
      perform_all-IsTracked cs (perform node c s).0 (perform-IsTracked node c s t)
