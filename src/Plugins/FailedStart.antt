-- ===== src/Plugins/FailedStart.antt =====
-- Unloading a plugin whose start has failed.
use wp_open_aurora.Prelude.{ℕ, String, List}
use wp_open_aurora.Hooks.{Outcome, register, HookManager}
use wp_open_aurora.Plugins.{HookCall, run_calls, IPlugin, PluginInstance, PluginLoader, Node}

module _ {V T : Type 0} where
  module _ (node node' : Node V T) (id : String) (p : PluginInstance V T) (s : PluginLoader V T)
      (i : IPlugin V T) (event : String) (handler : T → Outcome T) (priority : ℕ) (stamp : String)
      (cs : List (HookCall T)) (x : String) where
    abbrev new_hooks : HookManager T
    new_hooks = (register id event handler priority stamp (run_calls cs s.hook_manager)).0
