-- ===== src/Plugins/Statuses.antt =====
-- The loader refines the machine of its plugins' statuses.
use wp_open_aurora.Prelude.{String, List, [], ◌∷◌}
use wp_open_aurora.Plugins.{PluginLoader, Node}
use wp_open_aurora.Plugins.Calls.{LoaderCall, target, perform}
use wp_open_aurora.Plugins.Machine.{Operation, unloads, stop_throws, unload_throws_at, operation}

module _ {V T : Type 0} where
  module _ (node : Node V T) (s : PluginLoader V T) where
    abbrev unloading : String → Operation
    unloading id = unloads (stop_throws node s id) (unload_throws_at node s id)

  -- What is asked of the machine: the calls, with what goes wrong outside of the loader.
  abbrev pub operations :
      List (Node V T × LoaderCall V T) → PluginLoader V T → List (Operation × String)
  operations [] s = []
  operations ((node, c) ∷ cs) s =
      (operation node c s, target c) ∷ operations cs (perform node c s).0
