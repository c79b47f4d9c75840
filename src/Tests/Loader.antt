-- ===== src/Tests/Loader.antt =====
-- A plugin that registers one handler, taken through the calls of the loader.
use wp_open_aurora.Prelude.{
  ℕ, true, false, none, some, Option, List, [], ◌∷◌, ◌≡◌, refl, arith, get, put, filter,
}
use wp_open_aurora.Prelude.Results.{ok}
use wp_open_aurora.Hooks.{Outcome, result, registered, is_other}
use wp_open_aurora.PluginStorage.{
  extension, PluginStatus, PluginRegistryEntry, date, iso, Json, load_registry,
}
use wp_open_aurora.PluginStorage.Restart.{
  StorageCall, through_json, perform_all as perform_all_stored, load_registry-perform_all,
}
use wp_open_aurora.Plugins.{registers, Callback, IPlugin, PluginInstance, PluginLoader, Node}
use wp_open_aurora.Plugins.Loading.{enable_plugin, load_instance}
use wp_open_aurora.Plugins.Unloading.{disable_plugin}
use wp_open_aurora.Plugins.Calls.{LoaderCall, perform_all}
use wp_open_aurora.Plugins.Cycle.{disable_plugin-enable_plugin}
use wp_open_aurora.Plugins.Persistence.{no_registry}

abbrev node : Node ℕ ℕ
node = record {
  plugins_dir = "plugins";
  resolve = λ base path. path;
  sep = "/";
  require = λ path. ok none;
  make_directory = λ id. none;
  now = 7;
  writable = true;
}

abbrev add_one : ℕ → Outcome ℕ
add_one n = result true (some 7) false

abbrev on_load : Callback ℕ ℕ
on_load config m = (registers "t" "e" add_one 5 "1" ∷ [], none)

abbrev failing : Callback ℕ ℕ
failing config m = (registers "t" "m" add_one 5 "2" ∷ [], some "broken")

abbrev object : Option (Callback ℕ ℕ) → IPlugin ℕ ℕ
object enable = record {
  on_load = some on_load;
  on_enable = enable;
  on_disable = none;
  on_unload = none;
  on_config_change = none;
}

abbrev plugin : Option (Callback ℕ ℕ) → PluginInstance ℕ ℕ
plugin enable = record {
  manifest = record {
    id = "t";
    name = "T";
    version = "1";
    plugin_type = some extension;
    main = "m";
    sessions = none;
  };
  status = PluginStatus.installed;
  config = [];
  instance_of = some (object enable);
  error = none;
  loaded_at = none;
  enabled_at = none;
}

abbrev loader : Option (Callback ℕ ℕ) → PluginLoader ℕ ℕ
loader enable = record {
  plugins = ("t", plugin enable) ∷ [];
  hook_manager = record { hooks = []; plugin_hooks = [] };
  plugin_storage = no_registry;
}

disable_plugin-enable_plugin_example :
    registered "e" (disable_plugin node "t" (enable_plugin node "t" (loader none)).0).0.hook_manager
    ≡ filter (is_other "t") (registered "e" (loader none).hook_manager)
unfolding get load_instance enable_plugin disable_plugin put
disable_plugin-enable_plugin_example =
    disable_plugin-enable_plugin node node "t" (plugin none) (loader none) (object none) "e" refl
      refl refl (λ config m. refl) tt tt (λ event. tt) (λ event plugin_id h. ground arith) refl refl

abbrev calls : List (Node ℕ ℕ × LoaderCall ℕ ℕ)
calls =
    (node, LoaderCall.enable "t")
    ∷ (node, LoaderCall.configure "t" (("k", 1) ∷ []))
    ∷ (node, LoaderCall.unload "t")
    ∷ []

abbrev entry : PluginRegistryEntry ℕ
entry = record {
  id = "t";
  plugin_type = extension;
  name = "T";
  version = "1";
  status = PluginStatus.installed;
  config = [];
  built_in = false;
  installed_at = date 1;
  updated_at = iso "1970-01-01T00:00:00.000Z";
}

abbrev storage_calls : List (StorageCall ℕ)
storage_calls =
    StorageCall.sets_entry 2 entry ∷ StorageCall.sets_status 3 "t" PluginStatus.enabled ∷ []

abbrev json : Json ℕ
json = record { to_iso = λ t. "1970-01-01T00:00:00.000Z"; json_config = λ c. c }

load_registry-perform_all_example :
    (load_registry json
      (perform_all_stored storage_calls (load_registry json (some (entry ∷ [])))).file).registry
    ≡ through_json json
        (perform_all_stored storage_calls (load_registry json (some (entry ∷ [])))).registry
load_registry-perform_all_example =
    load_registry-perform_all json storage_calls (some (entry ∷ [])) (λ c. refl)
