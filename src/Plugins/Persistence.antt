-- ===== src/Plugins/Persistence.antt =====
-- What the loader keeps over a restart. Nothing in the program calls `setPluginEntry`.
use mathlib.Core.Path.{subst}
use wp_open_aurora.Prelude.{
  String, none, List, [], ◌∷◌, ◌≡◌, refl, ap, sym, ◌∙◌, arith, Map, get, Option-cases, inl, inr,
}
use wp_open_aurora.PluginStorage.{
  PluginStatus, PluginStorageService, Json, load_registry, change_entry, set_plugin_status,
  set_plugin_config,
}
use wp_open_aurora.Plugins.{PluginManifest, PluginInstance, PluginLoader, Node, merge}
use wp_open_aurora.Plugins.Loading.{load_plugin, enable_plugin, register_built_in_plugin}
use wp_open_aurora.Plugins.Unloading.{
  disable_plugin, unload_plugin, update_plugin_config, remove_plugin,
}
use wp_open_aurora.Plugins.Calls.{LoaderCall, perform, perform_all}

-- The storage of a loader that has found no registry file.
abbrev pub no_registry : {V : Type 0} → PluginStorageService V
no_registry = record { registry = []; file = none }

module _ {V T : Type 0} where
  module _ (node : Node V T) where
    open node use {now, writable}

    status-no_registry :
        (id : String) (status : PluginStatus) (st : PluginStorageService V)
        → st ≡ no_registry
        → set_plugin_status now writable id status st ≡ st
    unfolding set_plugin_status change_entry get
    status-no_registry id status st e =
        subst (λ x. set_plugin_status now writable id status x ≡ x) (sym e) refl

    config-no_registry :
        (id : String) (config : Map V) (st : PluginStorageService V)
        → st ≡ no_registry
        → set_plugin_config now writable id config st ≡ st
    unfolding set_plugin_config change_entry get
    config-no_registry id config st e =
        subst (λ x. set_plugin_config now writable id config x ≡ x) (sym e) refl

    module _ (id : String) (s : PluginLoader V T) where
      enable_plugin-storage :
          s.plugin_storage ≡ no_registry
          → (enable_plugin node id s).0.plugin_storage ≡ s.plugin_storage
      unfolding enable_plugin
      enable_plugin-storage h = ground (
        arith,
        h,
        status-no_registry id PluginStatus.enabled s.plugin_storage,
        status-no_registry id PluginStatus.error s.plugin_storage,
      )

      disable_plugin-storage :
          s.plugin_storage ≡ no_registry
          → (disable_plugin node id s).0.plugin_storage ≡ s.plugin_storage
      unfolding disable_plugin
      disable_plugin-storage h =
          ground (arith, h, status-no_registry id PluginStatus.disabled s.plugin_storage)

      remove_plugin-storage :
          (p : PluginInstance V T) → (remove_plugin node id p s).0.plugin_storage ≡ s.plugin_storage
      unfolding remove_plugin
      remove_plugin-storage p = ground arith

      configure-storage :
          (config : Map V)
          → s.plugin_storage ≡ no_registry
          → (update_plugin_config node id config s).0.plugin_storage ≡ s.plugin_storage
      unfolding update_plugin_config
      configure-storage config h = elim (Option-cases (get id s.plugins)) [
        | inl e ↦ ground (arith, e)
        | inr (p, e) ↦
            ground (arith, e, config-no_registry id (merge p.config config) s.plugin_storage h)
      ]

    unload_plugin-storage :
        (id : String) (s : PluginLoader V T)
        → s.plugin_storage ≡ no_registry
        → (unload_plugin node id s).0.plugin_storage ≡ s.plugin_storage
    unfolding unload_plugin
    unload_plugin-storage id s h = elim (Option-cases (get id s.plugins)) [
      | inl e ↦ ground (arith, e)
      | inr (p, e) ↦
          let s' = (disable_plugin node id s).0 in
          ground (
            arith,
            e,
            disable_plugin-storage id s h,
            remove_plugin-storage id s p,
            remove_plugin-storage id s' p,
          )
    ]

    load-storage :
        (m : PluginManifest) (s : PluginLoader V T)
        → (perform node (LoaderCall.load m) s).0.plugin_storage ≡ s.plugin_storage
    unfolding load_plugin
    load-storage m s = ground arith

    perform-storage :
        (c : LoaderCall V T) (s : PluginLoader V T)
        → s.plugin_storage ≡ no_registry
        → (perform node c s).0.plugin_storage ≡ s.plugin_storage
    unfolding register_built_in_plugin
    perform-storage (LoaderCall.load m) s h = load-storage m s
    perform-storage (LoaderCall.built_in m i config) s h = refl
    perform-storage (LoaderCall.enable id) s h = enable_plugin-storage id s h
    perform-storage (LoaderCall.disable id) s h = disable_plugin-storage id s h
    perform-storage (LoaderCall.unload id) s h = unload_plugin-storage id s h
    perform-storage (LoaderCall.configure id config) s h = configure-storage id s config h

  perform_all-storage :
      (cs : List (Node V T × LoaderCall V T)) (s : PluginLoader V T)
      → s.plugin_storage ≡ no_registry
      → (perform_all cs s).plugin_storage ≡ no_registry
  perform_all-storage [] s h = h
  perform_all-storage ((node, c) ∷ cs) s h =
      perform_all-storage cs (perform node c s).0 (perform-storage node c s h ∙ h)

  -- A loader that has found no registry file never writes one, whatever calls are made of it: neither
  -- the statuses nor the configurations of its plugins outlast a restart.
  pub perform_all-no_registry :
      (json : Json V) (cs : List (Node V T × LoaderCall V T)) (s : PluginLoader V T)
      → s.plugin_storage ≡ no_registry
      → load_registry json (perform_all cs s).plugin_storage.file ≡ no_registry
  unfolding load_registry
  perform_all-no_registry json cs s h =
      ap (λ (x : PluginStorageService V). load_registry json x.file) (perform_all-storage cs s h)
