-- ===== src/Hooks.antt =====
-- src/core/hooks/hook-manager.service.ts: the handlers that plugins register for events. A handler
-- is a function of the data to its result, or throws; `sort` is the stable sort of ECMAScript. The
-- events in flight, which the program keeps in the asynchronous context, are an argument.
pub mod Order
pub mod Plugins
pub mod Chain
use Prim.Native.String
use wp_open_aurora.Prelude.{
  ℕ, String, Bool, true, false, not, ◌&&◌, Option, none, some, List, [], ◌∷◌, ◌++◌, map, ◌==◌, leb,
  if◌then◌else◌, or_default, length, any, filter, includes, Map, get, put, delete, is_some,
}

-- A `HookResult`, or an exception. `data` is the replacement, if the handler gives one.
pub data Outcome (T : Type 0) : Type 0 where
  result : (continues : Bool) (replacement : Option T) (has_error : Bool) → Outcome T
  throws : Outcome T

pub record HookRegistration (T : Type 0) : Type 0 where
  pub id : String
  pub plugin_id : String
  pub event : String
  pub handler : T → Outcome T
  pub priority : ℕ

pub record HookManager (T : Type 0) : Type 0 where
  pub hooks : Map (List (HookRegistration T))
  pub plugin_hooks : Map (List String)

abbrev add_to_set : String → List String → List String
add_to_set id ids = if includes id ids then ids else ids ++ id ∷ []

untrack : String → Option String → Map (List String) → Map (List String)
untrack id none tracked = tracked
untrack id (some plugin) tracked = elim (get plugin tracked) [
  | none ↦ tracked
  | some ids ↦ put plugin (filter (λ j. not (j == id)) ids) tracked
]

module _ {T : Type 0} where
  unfoldable pub insert : HookRegistration T → List (HookRegistration T) → List (HookRegistration T)
  insert r [] = r ∷ []
  insert r (x ∷ xs) = if leb r.priority x.priority then r ∷ x ∷ xs else x ∷ insert r xs

  -- `sort((a, b) => a.priority - b.priority)`
  unfoldable pub sort : List (HookRegistration T) → List (HookRegistration T)
  unfolding insert
  sort [] = []
  sort (x ∷ xs) = insert x (sort xs)

  abbrev pub registered : String → HookManager T → List (HookRegistration T)
  registered event m = or_default (get event m.hooks) []

  -- `stamp` is the text of `Date.now()`.
  abbrev pub registration : String → String → (T → Outcome T) → ℕ → String → HookRegistration T
  registration plugin_id event handler priority stamp = record {
    id = String.◌++◌ plugin_id (String.◌++◌ ":" (String.◌++◌ event (String.◌++◌ ":" stamp)));
    plugin_id = plugin_id;
    event = event;
    handler = handler;
    priority = priority;
  }

  unfoldable pub register :
      String → String → (T → Outcome T) → ℕ → String → HookManager T → HookManager T × String
  register plugin_id event handler priority stamp m =
      let r = registration plugin_id event handler priority stamp in
      (
        record {
          hooks = put event (sort (registered event m ++ r ∷ [])) m.hooks;
          plugin_hooks =
              put plugin_id (add_to_set r.id (or_default (get plugin_id m.plugin_hooks) []))
                m.plugin_hooks;
        },
        r.id,
      )

  abbrev has_id : String → HookRegistration T → Bool
  has_id id r = r.id == id

  -- `splice(index, 1)` at the first index with the id
  unfoldable pub remove_first : String → List (HookRegistration T) → List (HookRegistration T)
  remove_first id [] = []
  remove_first id (r ∷ rs) = if has_id id r then rs else r ∷ remove_first id rs

  abbrev owner_of : String → List (HookRegistration T) → String
  owner_of id [] = ""
  owner_of id (r ∷ rs) = if has_id id r then r.plugin_id else owner_of id rs

  -- The loop of `unregister`: the lists after the call, and the owner of what was removed.
  unregister_in :
      String → Map (List (HookRegistration T)) → Map (List (HookRegistration T)) × Option String
  unregister_in id [] = ([], none)
  unregister_in id ((event, rs) ∷ hooks) =
      let (rest, owner) = unregister_in id hooks in
      if any (has_id id) rs
      then ((event, remove_first id rs) ∷ hooks, some (owner_of id rs))
      else ((event, rs) ∷ rest, owner)

  unfoldable pub unregister : String → HookManager T → HookManager T
  unfolding unregister_in untrack
  unregister id m =
      let (hooks, owner) = unregister_in id m.hooks in
      record { hooks = hooks; plugin_hooks = untrack id owner m.plugin_hooks }

  abbrev pub is_other : String → HookRegistration T → Bool
  is_other plugin_id r = not (r.plugin_id == plugin_id)

  unfoldable pub drop_plugin :
      String → Map (List (HookRegistration T)) → Map (List (HookRegistration T))
  drop_plugin plugin_id [] = []
  drop_plugin plugin_id ((event, rs) ∷ hooks) =
      (event, filter (is_other plugin_id) rs) ∷ drop_plugin plugin_id hooks

  unfoldable pub unregister_plugin : String → HookManager T → HookManager T
  unregister_plugin plugin_id m = elim (get plugin_id m.plugin_hooks) [
    | none ↦ m
    | some ids ↦ record {
      hooks = drop_plugin plugin_id m.hooks;
      plugin_hooks = delete plugin_id m.plugin_hooks;
    }
  ]

  -- The loop of `runHandlers`; the answer is `{ continue, data }`.
  unfoldable pub run_handlers : List (HookRegistration T) → T → Bool × T
  run_handlers [] d = (true, d)
  run_handlers (r ∷ rs) d = elim (r.handler d) [
    | throws ↦ run_handlers rs d
    | result continues replacement has_error ↦
        let d' = or_default replacement d in
        let rest = run_handlers rs d' in if continues then rest else (false, d')
  ]

  unfoldable pub execute : List String → String → T → HookManager T → Bool × T
  execute in_flight event d m =
      if includes event in_flight then (true, d) else run_handlers (registered event m) d

  unfoldable pub has_hooks : String → HookManager T → Bool
  has_hooks event m = is_some (get event m.hooks) && leb 1 (length (registered event m))

  unfoldable pub get_hook_count : String → HookManager T → ℕ
  get_hook_count event m = length (registered event m)

  unfoldable pub get_plugin_events : String → HookManager T → List String
  get_plugin_events plugin_id m =
      map (λ e. e.0) (filter (λ e. any (λ r. r.plugin_id == plugin_id) e.1) m.hooks)
