-- ===== src/Plugins/Loading.antt =====
-- Reading a manifest, registering a built-in plugin and enabling a plugin.
use Prim.Native.String
use wp_open_aurora.Prelude.{
  String, Bool, not, ◌&&◌, ◌||◌, Option, none, some, [], ◌==◌, if◌then◌else◌, or_default, is_some,
  is_empty, Map, get, put, has,
}
use wp_open_aurora.Prelude.Text.{starts_with}
use wp_open_aurora.Prelude.Results.{Result, ok, err, ◌>>=◌, ◌>>◌, or_throw}
use wp_open_aurora.Hooks.{HookManager}
use wp_open_aurora.PluginStorage.{PluginStatus, get_plugin_config}
use wp_open_aurora.Plugins.{
  PluginManifest, LoaderError, not_found, invalid_manifest, already_loaded, main_escapes,
  no_default_class, thrown, IPlugin, PluginInstance, PluginLoader, Node, is_enabled, run_callback,
  create_plugin_context, settle,
}

-- The absolute path of a plugin's `main`, if it lies in the plugin's directory.
unfoldable pub resolve_plugin_main_path :
    (resolve : String → String → String) (sep plugins_dir plugin_id main : String)
    → Result LoaderError String
resolve_plugin_main_path resolve sep plugins_dir plugin_id main =
    let base = resolve plugins_dir plugin_id in
    let main_path = resolve base main in
    if not (main_path == base) && not (starts_with main_path (String.◌++◌ base sep))
    then err main_escapes
    else ok main_path

abbrev pub is_incomplete : PluginManifest → Bool
is_incomplete m =
    is_empty m.id
    || is_empty m.name
    || is_empty m.version
    || not (is_some m.plugin_type)
    || is_empty m.main

module _ {V T : Type 0} where
  -- `onLoad`, then `onEnable` if that did not throw.
  unfoldable pub start_instance :
      IPlugin V T → Map V → HookManager T → HookManager T × Option LoaderError
  unfolding run_callback
  start_instance i config m =
      let (m', failure) = run_callback i.on_load config m in
      elim failure [ some e ↦ (m', some e) | none ↦ run_callback i.on_enable config m' ]

module _ {V T : Type 0} (node : Node V T) where
  open node use {plugins_dir, resolve, sep, require, now}

  -- The result, and the plugins afterwards, of reading a manifest.
  unfoldable pub load_plugin :
      PluginManifest → PluginLoader V T → Result LoaderError (PluginLoader V T)
  load_plugin m s =
      if is_incomplete m
      then err invalid_manifest
      else (if has m.id s.plugins
          then err already_loaded
          else ok (record s {
            plugins =
                put m.id
                  (record {
                    manifest = m;
                    status = PluginStatus.installed;
                    config = or_default (get_plugin_config m.id s.plugin_storage) [];
                    instance_of = none;
                    error = none;
                    loaded_at = some now;
                    enabled_at = none;
                  })
                  s.plugins;
          }))

  unfoldable pub register_built_in_plugin :
      PluginManifest → IPlugin V T → Map V → PluginLoader V T → PluginLoader V T
  register_built_in_plugin m i config s = record s {
    plugins =
        put m.id
          (record {
            manifest = m;
            status = PluginStatus.installed;
            config = config;
            instance_of = some i;
            error = none;
            loaded_at = some now;
            enabled_at = none;
          })
          s.plugins;
  }

  -- The object of a plugin: the one it has, or a new one from its `main`.
  unfoldable pub load_instance : String → PluginInstance V T → Result LoaderError (IPlugin V T)
  unfolding resolve_plugin_main_path
  load_instance plugin_id p = elim p.instance_of [
    | some i ↦ ok i
    | none ↦ resolve_plugin_main_path resolve sep plugins_dir plugin_id p.manifest.main >>= λ path.
        elim (require path) [ err e ↦ err (thrown e) | ok i ↦ or_throw i no_default_class ]
  ]

  -- The body of the `try` of `enablePlugin` up to the last call of the plugin: its object, if it has
  -- one by then, the hooks, and what was thrown.
  unfoldable pub try_enable :
      String
      → PluginInstance V T
      → HookManager T
      → Option (IPlugin V T) × HookManager T × Option LoaderError
  unfolding create_plugin_context load_instance start_instance
  try_enable plugin_id p m =
      elim (create_plugin_context node plugin_id >> load_instance plugin_id p) [
        | err e ↦ (p.instance_of, m, some e)
        | ok i ↦ let (m', failure) = start_instance i p.config m in (some i, m', failure)
      ]

  unfoldable pub enable_plugin : String → PluginLoader V T → PluginLoader V T × Option LoaderError
  unfolding try_enable
  enable_plugin plugin_id s = elim (get plugin_id s.plugins) [
    | none ↦ (s, some not_found)
    | some p ↦
        if is_enabled p
        then (s, none)
        else (let (i, m, failure) = try_enable plugin_id p s.hook_manager in
            elim failure [
              | none ↦ (
                settle node plugin_id
                    (record p {
                      instance_of = i;
                      status = PluginStatus.enabled;
                      error = none;
                      enabled_at = some now;
                    })
                    m PluginStatus.enabled s,
                none,
              )
              | some e ↦ (
                settle node plugin_id
                    (record p { instance_of = i; status = PluginStatus.error; error = some e }) m
                    PluginStatus.error s,
                some e,
              )
            ])
  ]
