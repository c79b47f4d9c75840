-- ===== src/Plugins/Calls.antt =====
-- The calls of the loader, one after the other.
use wp_open_aurora.Prelude.{String, Bool, Option, none, some, is_some, List, [], ◌∷◌, Map}
use wp_open_aurora.Prelude.Results.{Result, ok, err}
use wp_open_aurora.Plugins.{PluginManifest, LoaderError, IPlugin, PluginLoader, Node}
use wp_open_aurora.Plugins.Loading.{load_plugin, enable_plugin, register_built_in_plugin}
use wp_open_aurora.Plugins.Unloading.{disable_plugin, unload_plugin, update_plugin_config}

pub data LoaderCall (V T : Type 0) : Type 0 where
  load : PluginManifest → LoaderCall V T
  built_in : PluginManifest → IPlugin V T → Map V → LoaderCall V T
  enable : String → LoaderCall V T
  disable : String → LoaderCall V T
  unload : String → LoaderCall V T
  configure : String → Map V → LoaderCall V T

module _ {V T : Type 0} where
  abbrev pub target : LoaderCall V T → String
  target (LoaderCall.load m) = m.id
  target (LoaderCall.built_in m i config) = m.id
  target (LoaderCall.enable id) = id
  target (LoaderCall.disable id) = id
  target (LoaderCall.unload id) = id
  target (LoaderCall.configure id config) = id

  -- A refused load leaves the loader as it is.
  abbrev pub loaded_or :
      PluginLoader V T
      → Result LoaderError (PluginLoader V T)
      → PluginLoader V T × Option LoaderError
  loaded_or s (ok s') = (s', none)
  loaded_or s (err e) = (s, some e)

  -- The loader after a call, and what the call throws. Each call has its own answers from outside.
  abbrev pub perform :
      Node V T → LoaderCall V T → PluginLoader V T → PluginLoader V T × Option LoaderError
  perform node (LoaderCall.load m) s = loaded_or s (load_plugin node m s)
  perform node (LoaderCall.built_in m i config) s =
      (register_built_in_plugin node m i config s, none)
  perform node (LoaderCall.enable id) s = enable_plugin node id s
  perform node (LoaderCall.disable id) s = disable_plugin node id s
  perform node (LoaderCall.unload id) s = unload_plugin node id s
  perform node (LoaderCall.configure id config) s = update_plugin_config node id config s

  abbrev pub perform_all : List (Node V T × LoaderCall V T) → PluginLoader V T → PluginLoader V T
  perform_all [] s = s
  perform_all ((node, c) ∷ cs) s = perform_all cs (perform node c s).0

  -- What each call throws.
  abbrev pub thrown_all : List (Node V T × LoaderCall V T) → PluginLoader V T → List Bool
  thrown_all [] s = []
  thrown_all ((node, c) ∷ cs) s = let r = perform node c s in is_some r.1 ∷ thrown_all cs r.0
