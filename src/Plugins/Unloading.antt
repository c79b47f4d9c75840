-- ===== src/Plugins/Unloading.antt =====
-- Disabling and unloading a plugin, and a change of its configuration.
use wp_open_aurora.Prelude.{String, Option, none, some, if◌then◌else◌, Map, get, put, delete}
use wp_open_aurora.Prelude.Results.{Result, ok, err}
use wp_open_aurora.Hooks.{HookManager, unregister_plugin}
use wp_open_aurora.PluginStorage.{PluginStatus, set_plugin_config}
use wp_open_aurora.Plugins.{
  LoaderError, not_found, PluginInstance, PluginLoader, Node, is_enabled, merge, run_callback,
  callback_of, create_plugin_context, settle,
}

module _ {V T : Type 0} (node : Node V T) where
  open node use {now, writable}

  -- The `try` of `disablePlugin` up to the plugin's `onDisable`.
  unfoldable pub try_disable :
      String → PluginInstance V T → HookManager T → HookManager T × Option LoaderError
  unfolding create_plugin_context run_callback
  try_disable plugin_id p m = elim (create_plugin_context node plugin_id) [
    | err e ↦ (m, some e)
    | ok u ↦ run_callback (callback_of (λ i. i.on_disable) p.instance_of) p.config m
  ]

  unfoldable pub disable_plugin : String → PluginLoader V T → PluginLoader V T × Option LoaderError
  unfolding try_disable
  disable_plugin plugin_id s = elim (get plugin_id s.plugins) [
    | none ↦ (s, some not_found)
    | some p ↦
        if is_enabled p
        then (let (m, failure) = try_disable plugin_id p s.hook_manager in
            elim failure [
              | none ↦ (
                settle node plugin_id (record p { status = PluginStatus.disabled })
                    (unregister_plugin plugin_id m) PluginStatus.disabled s,
                none,
              )
              | some e ↦ (
                record s {
                  plugins =
                      put plugin_id (record p { status = PluginStatus.error; error = some e })
                        s.plugins;
                  hook_manager = m;
                },
                some e,
              )
            ])
        else (s, none)
  ]

  -- The rest of `unloadPlugin` after the plugin is disabled.
  unfoldable pub remove_plugin :
      String → PluginInstance V T → PluginLoader V T → PluginLoader V T × Option LoaderError
  unfolding run_callback create_plugin_context
  remove_plugin plugin_id p s =
      let ready =
        elim (callback_of (λ i. i.on_unload) p.instance_of)
          as (λ _. Result LoaderError (Unit {0})) [
            | none ↦ ok tt
            | some f ↦ create_plugin_context node plugin_id
          ] in
      elim ready [
        | err e ↦ (s, some e)
        | ok u ↦
            let (m, failure) =
              run_callback (callback_of (λ i. i.on_unload) p.instance_of) p.config s.hook_manager in
            elim failure [
              | none ↦ (record s { plugins = delete plugin_id s.plugins; hook_manager = m }, none)
              | some e ↦ (record s { hook_manager = m }, some e)
            ]
      ]

  unfoldable pub unload_plugin : String → PluginLoader V T → PluginLoader V T × Option LoaderError
  unfolding disable_plugin remove_plugin
  unload_plugin plugin_id s = elim (get plugin_id s.plugins) [
    | none ↦ (s, some not_found)
    | some p ↦
        if is_enabled p
        then (let (s', failure) = disable_plugin plugin_id s in
            elim failure [ some e ↦ (s', some e) | none ↦ remove_plugin plugin_id p s' ])
        else remove_plugin plugin_id p s
  ]

  -- The notice to the plugin is not awaited, so that what it throws is lost.
  unfoldable pub update_plugin_config :
      String → Map V → PluginLoader V T → PluginLoader V T × Option LoaderError
  unfolding merge run_callback
  update_plugin_config plugin_id config s = elim (get plugin_id s.plugins) [
    | none ↦ (s, some not_found)
    | some p ↦
        let merged = merge p.config config in
        let notified =
          if is_enabled p then callback_of (λ i. i.on_config_change) p.instance_of else none in
        (
          record {
            plugins = put plugin_id (record p { config = merged }) s.plugins;
            hook_manager = (run_callback notified merged s.hook_manager).0;
            plugin_storage = set_plugin_config now writable plugin_id merged s.plugin_storage;
          },
          none,
        )
  ]
