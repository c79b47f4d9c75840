-- ===== src/Plugins/Moves.antt =====
-- Loading, enabling, disabling and a change of the configuration follow the machine.
use wp_open_aurora.Prelude.{
  String, true, false, none, some, [], refl, arith, Map, get, Option-cases, Bool-cases, inl, inr,
  or_default,
}
use wp_open_aurora.PluginStorage.{PluginStatus, get_plugin_config}
use wp_open_aurora.Plugins.{PluginManifest, IPlugin, PluginLoader, Node, is_enabled, merge}
use wp_open_aurora.Plugins.Loading.{
  load_plugin, enable_plugin, register_built_in_plugin, try_enable, is_incomplete,
}
use wp_open_aurora.Plugins.Unloading.{disable_plugin, update_plugin_config, try_disable}
use wp_open_aurora.Plugins.Calls.{LoaderCall, perform}
use wp_open_aurora.Plugins.Machine.{
  loads, registers_built_in, enables, disables, configures, start_throws, stop_throws, status_of,
  enabled_status, Follows, same-Follows, put-Follows,
}

module _ {V T : Type 0} where
  module _ (node : Node V T) (s : PluginLoader V T) where
    pub load-Follows :
        (m : PluginManifest)
        → Follows (loads (is_incomplete m)) m.id s (perform node (LoaderCall.load m) s)
    unfolding load_plugin
    load-Follows m =
        let c = loads (is_incomplete m) in
        let r = perform node (LoaderCall.load m) s in
        elim (Option-cases (get m.id s.plugins)) [
          | inl f ↦ elim (Bool-cases (is_incomplete m)) [
            | inl e ↦
                same-Follows c m.id s r none true (ground (arith, e, f)) (ground (arith, f))
                  (ground (arith, e, f)) (ground (arith, e))
            | inr e ↦
                put-Follows c m.id s r none false
                  (record {
                    manifest = m;
                    status = PluginStatus.installed;
                    config = or_default (get_plugin_config m.id s.plugin_storage) [];
                    instance_of = none;
                    error = none;
                    loaded_at = some node.now;
                    enabled_at = none;
                  })
                  (ground (arith, e, f)) (ground (arith, f)) (ground (arith, e, f))
                  (ground (arith, e))
          ]
          | inr (p, f) ↦
              same-Follows c m.id s r (some p.status) true (ground (arith, f)) (ground (arith, f))
                (ground (arith, f)) refl
        ]

    pub built_in-Follows :
        (m : PluginManifest) (i : IPlugin V T) (config : Map V)
        → Follows registers_built_in m.id s (perform node (LoaderCall.built_in m i config) s)
    unfolding register_built_in_plugin
    built_in-Follows m i config =
        let c = registers_built_in in
        put-Follows c m.id s (perform node (LoaderCall.built_in m i config) s) (status_of s m.id)
          false
          (record {
            manifest = m;
            status = PluginStatus.installed;
            config = config;
            instance_of = some i;
            error = none;
            loaded_at = some node.now;
            enabled_at = none;
          })
          refl refl refl refl

    pub enable-Follows :
        (id : String) → Follows (enables (start_throws node s id)) id s (enable_plugin node id s)
    unfolding enable_plugin
    enable-Follows id =
        let c = enables (start_throws node s id) in
        let r = enable_plugin node id s in
        elim (Option-cases (get id s.plugins)) [
          | inl e ↦
              same-Follows c id s r none true (ground (arith, e)) (ground (arith, e))
                (ground (arith, e)) refl
          | inr (p, e) ↦ elim (Bool-cases (is_enabled p)) [
            | inl k ↦
                same-Follows c id s r (some p.status) false (ground (arith, e, k))
                  (ground (arith, e)) (ground (arith, e, k)) (ground (arith, k, enabled_status p k))
            | inr k ↦ elim (Option-cases (try_enable node id p s.hook_manager).2) [
              | inl f ↦
                  put-Follows c id s r (some p.status) false
                    (record p {
                      instance_of = (try_enable node id p s.hook_manager).0;
                      status = PluginStatus.enabled;
                      error = none;
                      enabled_at = some node.now;
                    })
                    (ground (arith, e, k, f)) (ground (arith, e)) (ground (arith, e, k, f))
                    (ground (arith, e, k, f))
              | inr (x, f) ↦
                  put-Follows c id s r (some p.status) true
                    (record p {
                      instance_of = (try_enable node id p s.hook_manager).0;
                      status = PluginStatus.error;
                      error = some x;
                    })
                    (ground (arith, e, k, f)) (ground (arith, e)) (ground (arith, e, k, f))
                    (ground (arith, e, k, f))
            ]
          ]
        ]

    pub disable-Follows :
        (id : String) → Follows (disables (stop_throws node s id)) id s (disable_plugin node id s)
    unfolding disable_plugin
    disable-Follows id =
        let c = disables (stop_throws node s id) in
        let r = disable_plugin node id s in
        elim (Option-cases (get id s.plugins)) [
          | inl e ↦
              same-Follows c id s r none true (ground (arith, e)) (ground (arith, e))
                (ground (arith, e)) refl
          | inr (p, e) ↦ elim (Bool-cases (is_enabled p)) [
            | inr k ↦
                same-Follows c id s r (some p.status) false (ground (arith, e, k))
                  (ground (arith, e)) (ground (arith, e, k)) (ground (arith, e, k))
            | inl k ↦ elim (Option-cases (try_disable node id p s.hook_manager).1) [
              | inl f ↦
                  put-Follows c id s r (some PluginStatus.enabled) false
                    (record p { status = PluginStatus.disabled }) (ground (arith, e, k, f))
                    (ground (arith, e, enabled_status p)) (ground (arith, e, k, f))
                    (ground (arith, e, f))
              | inr (x, f) ↦
                  put-Follows c id s r (some PluginStatus.enabled) true
                    (record p { status = PluginStatus.error; error = some x })
                    (ground (arith, e, k, f)) (ground (arith, e, enabled_status p))
                    (ground (arith, e, k, f)) (ground (arith, e, f))
            ]
          ]
        ]

    pub configure-Follows :
        (id : String) (config : Map V)
        → Follows configures id s (update_plugin_config node id config s)
    unfolding update_plugin_config
    configure-Follows id config =
        let c = configures in
        let r = update_plugin_config node id config s in
        elim (Option-cases (get id s.plugins)) [
          | inl e ↦
              same-Follows c id s r none true (ground (arith, e)) (ground (arith, e))
                (ground (arith, e)) refl
          | inr (p, e) ↦
              put-Follows c id s r (some p.status) false
                (record p { config = merge p.config config }) (ground (arith, e))
                (ground (arith, e)) (ground (arith, e)) refl
        ]
