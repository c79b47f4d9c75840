-- ===== src/Plugins.antt =====
-- src/core/plugins/plugin-loader.service.ts: the plugins, their states and the hooks that they
-- register; the operations are in the children. Each operation runs to its end; what a plugin's own code does, Node's paths and `require`
-- are parameters. Types are those of
-- src/core/plugins/plugin.interfaces.ts.
pub mod Loading
pub mod Unloading
pub mod Scope
pub mod Calls
pub mod Machine
pub mod Moves
pub mod Statuses
pub mod Handlers
pub mod Own
pub mod Cycle
pub mod FailedStart
pub mod Persistence
pub mod Facade
use wp_open_aurora.Prelude.{
  ℕ, String, Bool, true, false, not, ◌&&◌, ◌||◌, Option, none, some, List, [], ◌∷◌, map, ◌==◌,
  if◌then◌else◌, or_default, is_some, is_empty, filter, includes, Map, get, put, delete, has,
}
use Prim.Native.String
use wp_open_aurora.Prelude.Text.{starts_with}
use wp_open_aurora.Prelude.Results.{Result, ok, err, ◌>>=◌, ◌>>◌, throw_if, or_throw}
use wp_open_aurora.Hooks.{HookManager, Outcome, register, unregister, unregister_plugin}
use wp_open_aurora.PluginStorage.{
  PluginType, PluginStatus, PluginStorageService, get_plugin_config, set_plugin_status,
  set_plugin_config,
}

-- A missing field of a manifest that was read from a file is an empty text.
pub record PluginManifest : Type 0 where
  pub id : String
  pub name : String
  pub version : String
  pub plugin_type : Option PluginType
  pub main : String
  pub sessions : Option (List String)

pub data LoaderError : Type 0 where
  not_found invalid_manifest already_loaded main_escapes no_default_class : LoaderError
  thrown : String → LoaderError

-- What a plugin's code asks of `context.hookManager`; `registerHook` is the first with its own id.
pub data HookCall (T : Type 0) : Type 0 where
  registers : String → String → (T → Outcome T) → ℕ → String → HookCall T
  unregisters : String → HookCall T
  unregisters_plugin : String → HookCall T

-- A lifecycle function of a plugin: from its configuration and the hooks that it finds, the calls that
-- it makes, and what it throws.
abbrev pub Callback : Type 0 → Type 0 → Type 0
Callback V T = Map V → HookManager T → List (HookCall T) × Option String

pub record IPlugin (V T : Type 0) : Type 0 where
  pub on_load : Option (Callback V T)
  pub on_enable : Option (Callback V T)
  pub on_disable : Option (Callback V T)
  pub on_unload : Option (Callback V T)
  pub on_config_change : Option (Callback V T)

pub record PluginInstance (V T : Type 0) : Type 0 where
  pub manifest : PluginManifest
  pub status : PluginStatus
  pub config : Map V
  pub instance_of : Option (IPlugin V T)
  pub error : Option LoaderError
  pub loaded_at : Option ℕ
  pub enabled_at : Option ℕ

pub record PluginLoader (V T : Type 0) : Type 0 where
  pub plugins : Map (PluginInstance V T)
  pub hook_manager : HookManager T
  pub plugin_storage : PluginStorageService V

-- What the loader reads from outside: `path.resolve`, the separator, `require` with the construction
-- of the default class (`none` where there is none), the directory that `createPluginStorage` makes,
-- the clock and whether the registry can be written.
pub record Node (V T : Type 0) : Type 0 where
  pub plugins_dir : String
  pub resolve : String → String → String
  pub sep : String
  pub require : String → Result String (Option (IPlugin V T))
  pub make_directory : String → Option String
  pub now : ℕ
  pub writable : Bool

abbrev pub same_status : PluginStatus → PluginStatus → Bool
same_status PluginStatus.installed PluginStatus.installed = true
same_status PluginStatus.enabled PluginStatus.enabled = true
same_status PluginStatus.disabled PluginStatus.disabled = true
same_status PluginStatus.error PluginStatus.error = true
same_status a b = false

abbrev pub is_enabled : {V T : Type 0} → PluginInstance V T → Bool
is_enabled p = same_status p.status PluginStatus.enabled

-- `{ ...old, ...new }`
unfoldable pub merge : {V : Type 0} → Map V → Map V → Map V
merge old [] = old
merge old ((k, v) ∷ new) = merge (put k v old) new

module _ {T : Type 0} where
  unfoldable pub run_call : HookCall T → HookManager T → HookManager T
  run_call (registers plugin_id event handler priority stamp) m =
      (register plugin_id event handler priority stamp m).0
  run_call (unregisters id) m = unregister id m
  run_call (unregisters_plugin plugin_id) m = unregister_plugin plugin_id m

  unfoldable pub run_calls : List (HookCall T) → HookManager T → HookManager T
  unfolding run_call
  run_calls [] m = m
  run_calls (c ∷ cs) m = run_calls cs (run_call c m)

module _ {V T : Type 0} where
  -- The hooks afterwards, and what the function threw. A function that is not there does nothing.
  unfoldable pub run_callback :
      Option (Callback V T) → Map V → HookManager T → HookManager T × Option LoaderError
  unfolding run_calls
  run_callback none config m = (m, none)
  run_callback (some f) config m =
      let (calls, failure) = f config m in
      (run_calls calls m, elim failure [ none ↦ none | some e ↦ some (thrown e) ])

  abbrev pub callback_of :
      (IPlugin V T → Option (Callback V T)) → Option (IPlugin V T) → Option (Callback V T)
  callback_of f none = none
  callback_of f (some i) = f i

  abbrev pub get_all_plugins : PluginLoader V T → List (PluginInstance V T)
  get_all_plugins s = map (λ e. e.1) s.plugins

  unfoldable pub get_enabled_plugins : PluginLoader V T → List (PluginInstance V T)
  get_enabled_plugins s = filter (λ p. is_enabled p) (get_all_plugins s)

  unfoldable pub is_plugin_enabled : String → PluginLoader V T → Bool
  is_plugin_enabled plugin_id s = elim (get plugin_id s.plugins) [
    | none ↦ false
    | some p ↦ is_enabled p
  ]

module _ {V T : Type 0} (node : Node V T) where
  open node use {make_directory, now, writable}

  -- The creation of a context, which makes the plugin's directory.
  unfoldable pub create_plugin_context : String → Result LoaderError (Unit {0})
  create_plugin_context plugin_id = elim (make_directory plugin_id) [
    | none ↦ ok tt
    | some e ↦ err (thrown e)
  ]

  -- A plugin's new instance in the map, the hooks and the status that the storage is to keep.
  abbrev pub settle :
      String
      → PluginInstance V T
      → HookManager T
      → PluginStatus
      → PluginLoader V T
      → PluginLoader V T
  settle plugin_id p m status s = record {
    plugins = put plugin_id p s.plugins;
    hook_manager = m;
    plugin_storage = set_plugin_status now writable plugin_id status s.plugin_storage;
  }
