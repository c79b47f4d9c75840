-- ===== src/PluginStorage.antt =====
-- src/core/plugins/plugin-storage.service.ts: the registry of plugins and the file that it is written
-- to. The file stands for the list of the entries that were written; reading it gives what JSON makes of
-- them. Whether the write of a call succeeds is an argument (`saveRegistry` logs a failure and goes on). The types are
-- those of src/core/plugins/plugin.interfaces.ts. The files of the single plugins are not modelled.
pub mod Restart
use wp_open_aurora.Prelude.{
  ℕ, String, Bool, Option, none, some, List, [], ◌∷◌, map, if◌then◌else◌, Map, get, put, delete,
}

pub data PluginType : Type 0 where
  engine storage queue auth extension : PluginType

pub data PluginStatus : Type 0 where
  installed enabled disabled error : PluginStatus

-- A `Date`, in milliseconds, or the text that JSON has made of one.
pub data Time : Type 0 where
  date : ℕ → Time
  iso : String → Time

-- `V` is the type of the values of a configuration.
pub record PluginRegistryEntry (V : Type 0) : Type 0 where
  pub id : String
  pub plugin_type : PluginType
  pub name : String
  pub version : String
  pub status : PluginStatus
  pub config : Map V
  pub built_in : Bool
  pub installed_at : Time
  pub updated_at : Time

pub record PluginStorageService (V : Type 0) : Type 0 where
  pub registry : Map (PluginRegistryEntry V)
  pub file : Option (List (PluginRegistryEntry V))

-- `JSON.parse` of `JSON.stringify`: a `Date` becomes its `toISOString`, and a configuration loses what
-- JSON cannot write.
pub record Json (V : Type 0) : Type 0 where
  pub to_iso : ℕ → String
  pub json_config : Map V → Map V

module _ {V : Type 0} (json : Json V) where
  unfoldable pub json_time : Time → Time
  json_time (date t) = iso (json.to_iso t)
  json_time (iso s) = iso s

  unfoldable pub json_entry : PluginRegistryEntry V → PluginRegistryEntry V
  unfolding json_time
  json_entry e = record e {
    config = json.json_config e.config;
    installed_at = json_time e.installed_at;
    updated_at = json_time e.updated_at;
  }

module _ {V : Type 0} where
  -- `new Map(entries.map(e => [e.id, e]))`, from the entries that the map holds already
  unfoldable pub add_entries :
      Map (PluginRegistryEntry V) → List (PluginRegistryEntry V) → Map (PluginRegistryEntry V)
  add_entries m [] = m
  add_entries m (e ∷ es) = add_entries (put e.id e m) es

  unfoldable pub load_registry :
      Json V → Option (List (PluginRegistryEntry V)) → PluginStorageService V
  unfolding add_entries json_entry
  load_registry json none = record { registry = []; file = none }
  load_registry json (some es) = record {
    registry = add_entries [] (map (json_entry json) es);
    file = some es;
  }

  abbrev pub get_all_entries : PluginStorageService V → List (PluginRegistryEntry V)
  get_all_entries s = map (λ e. e.1) s.registry

  unfoldable pub save_registry : Bool → PluginStorageService V → PluginStorageService V
  save_registry written s = if written then record s { file = some (get_all_entries s) } else s

  unfoldable pub set_plugin_entry :
      ℕ → Bool → PluginRegistryEntry V → PluginStorageService V → PluginStorageService V
  unfolding save_registry
  set_plugin_entry now written e s =
      save_registry written
        (record s { registry = put e.id (record e { updated_at = date now }) s.registry })

  unfoldable pub delete_plugin_entry :
      Bool → String → PluginStorageService V → PluginStorageService V
  unfolding save_registry
  delete_plugin_entry written id s =
      save_registry written (record s { registry = delete id s.registry })

  unfoldable pub get_plugin_status : String → PluginStorageService V → Option PluginStatus
  get_plugin_status id s = elim (get id s.registry) [ none ↦ none | some e ↦ some e.status ]

  unfoldable pub get_plugin_config : String → PluginStorageService V → Option (Map V)
  get_plugin_config id s = elim (get id s.registry) [ none ↦ none | some e ↦ some e.config ]

  -- What both setters do to an entry that is there: the entry is a shared object, so that a change of
  -- it is a change of the map.
  unfoldable pub change_entry :
      Bool
      → (PluginRegistryEntry V → PluginRegistryEntry V)
      → String
      → PluginStorageService V
      → PluginStorageService V
  unfolding save_registry
  change_entry written f id s = elim (get id s.registry) [
    | none ↦ s
    | some e ↦ save_registry written (record s { registry = put id (f e) s.registry })
  ]

  unfoldable pub set_plugin_status :
      ℕ → Bool → String → PluginStatus → PluginStorageService V → PluginStorageService V
  unfolding change_entry
  set_plugin_status now written id status =
      change_entry written (λ e. record e { status = status; updated_at = date now }) id

  unfoldable pub set_plugin_config :
      ℕ → Bool → String → Map V → PluginStorageService V → PluginStorageService V
  unfolding change_entry
  set_plugin_config now written id config =
      change_entry written (λ e. record e { config = config; updated_at = date now }) id
