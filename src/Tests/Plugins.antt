-- ===== src/Tests/Plugins.antt =====
-- Two plugins with handlers of one event.
use wp_open_aurora.Prelude.{ℕ, String, true, false, none, some, []}
use wp_open_aurora.Hooks.{Outcome, result, throws, HookRegistration, HookManager, register}

abbrev add_one : ℕ → Outcome ℕ
add_one n = result true (some 7) false

abbrev fails : ℕ → Outcome ℕ
fails n = throws

abbrev halts : ℕ → Outcome ℕ
halts n = result false none false

abbrev handler_of : String → (ℕ → Outcome ℕ) → HookRegistration ℕ
handler_of id f = record { id = id; plugin_id = id; event = "e"; handler = f; priority = 10 }

abbrev empty : HookManager ℕ
empty = record { hooks = []; plugin_hooks = [] }

abbrev loaded : HookManager ℕ
loaded = (register "p" "e" add_one 5 "1" empty).0
