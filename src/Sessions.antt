-- ===== src/Sessions.antt =====
-- src/modules/session/session.service.ts: the life of one session. A call, a timer, an engine's
-- callback and the end of an `await` are one step each; an await in flight is a task. Engines are
-- numbered as they are created. The hooks, whether an awaited engine call succeeds, the settings read
-- from the environment and the jitter are parameters of the steps; times are milliseconds.
pub mod Steps
pub mod Tasks
pub mod Reconnect
pub mod Attempts
pub mod Down
pub mod Stop
use wp_open_aurora.Prelude.{
  ℕ, zero, suc, ◌+◌, ◌*◌, ◌^◌, min, max, String, Bool, true, false, not, ◌&&◌, ◌||◌, Option, none,
  some, List, [], ◌∷◌, ◌++◌, leb, eqb, if◌then◌else◌, is_some,
}

pub data SessionStatus : Type 0 where
  created initializing qr_ready authenticating ready disconnected failed : SessionStatus

pub data EngineStatus : Type 0 where
  disconnected initializing qr_ready authenticating ready failed : EngineStatus

-- `max_attempts` is `none` for no limit; `timer` holds the delay that a pending timer was set with.
pub record ReconnectState : Type 0 where
  pub attempts : ℕ
  pub timer : Option ℕ
  pub max_attempts : Option ℕ
  pub base_delay : ℕ
  pub auto_reconnect : Bool

-- What a call waits for: the hook or the engine of `start`, the disconnection of `stop`, the
-- destruction of `delete`, and the four awaits of `executeReconnect`.
pub data Task : Type 0 where
  starting : ReconnectState → Task
  started : Task
  stopping deleting : Task
  destroying reinitializing removing recovering : Task

-- The reason of a failure: an engine's own, or the text that names the number of attempts.
pub data LastError : Type 0 where
  engine_reason : String → LastError
  attempts_exhausted : ℕ → LastError

-- `status` is `none` when the row is gone. A timer whose state `start` has replaced is an orphan.
pub record Session : Type 0 where
  pub status : Option SessionStatus
  pub engine : Option ℕ
  pub next_engine : ℕ
  pub reconnect : Option ReconnectState
  pub orphan_timers : ℕ
  pub is_stopping : Bool
  pub error : Option LastError
  pub tasks : List Task

abbrev pub update_status : SessionStatus → Session → Session
update_status st s = record s { status = elim s.status [ none ↦ none | some _ ↦ some st ] }

abbrev await : Task → Session → Session
await t s = record s { tasks = s.tasks ++ t ∷ [] }

-- The reset on startup, on the row's status.
unfoldable pub on_module_init : SessionStatus → SessionStatus
on_module_init SessionStatus.ready = SessionStatus.disconnected
on_module_init SessionStatus.initializing = SessionStatus.disconnected
on_module_init SessionStatus.qr_ready = SessionStatus.disconnected
on_module_init SessionStatus.authenticating = SessionStatus.disconnected
on_module_init st = st

-- The settings of `start`, each already a finite integer or missing.
unfoldable pub new_reconnect_state : Option ℕ → Option ℕ → Option Bool → ReconnectState
new_reconnect_state max_attempts base_delay auto_reconnect = record {
  attempts = 0;
  timer = none;
  max_attempts = elim max_attempts [ none ↦ none | some n ↦ if leb n 0 then none else some n ];
  base_delay = elim base_delay [ none ↦ 5000 | some n ↦ if leb n 0 then 5000 else max n 1000 ];
  auto_reconnect = elim auto_reconnect [ none ↦ true | some b ↦ b ];
}

unfoldable pub reconnect_delay : ReconnectState → ℕ → ℕ
reconnect_delay r jitter = min (r.base_delay * 2 ^ min r.attempts 16) (5 * 60_000) + jitter

unfoldable pub is_exhausted : ReconnectState → Bool
is_exhausted r = elim r.max_attempts [ none ↦ false | some n ↦ leb n r.attempts ]

unfoldable pub schedule_reconnect : ℕ → Session → Session
unfolding reconnect_delay is_exhausted
schedule_reconnect jitter s = elim s.reconnect [
  | none ↦ s
  | some r ↦
      if not r.auto_reconnect || is_some r.timer || s.is_stopping
      then s
      else (if is_exhausted r
          then update_status SessionStatus.failed
              (record s { error = some (attempts_exhausted r.attempts) })
          else record s {
            reconnect =
                some
                  (record r { timer = some (reconnect_delay r jitter); attempts = r.attempts + 1 });
          })
]

-- `initializeEngine` up to its await, which is `task`.
unfoldable pub initialize_engine : Task → Session → Session
initialize_engine task s = await task (
    update_status SessionStatus.initializing
      (record s { engine = some s.next_engine; next_engine = suc s.next_engine; error = none }))

unfoldable pub execute_reconnect : Session → Session
unfolding initialize_engine
execute_reconnect s =
    if s.is_stopping
    then s
    else elim s.engine [ none ↦ initialize_engine reinitializing s | some _ ↦ await destroying s ]

-- The timer of the current state, or an orphan, fires.
unfoldable pub fire_timer : Session → Session
unfolding execute_reconnect
fire_timer s = elim s.reconnect [
  | none ↦ s
  | some r ↦
      if is_some r.timer
      then execute_reconnect (record s { reconnect = some (record r { timer = none }) })
      else s
]

unfoldable pub fire_orphan : Session → Session
unfolding execute_reconnect
fire_orphan s = elim s.orphan_timers [
  | zero ↦ s
  | suc n ↦ execute_reconnect (record s { orphan_timers = n })
]

-- `start`, `stop` and `delete` up to their first await. A call that throws changes nothing.
unfoldable pub start : ReconnectState → Session → Session
start r s =
    if is_some s.status && not (is_some s.engine)
    then await (starting r) (record s { is_stopping = false })
    else s

abbrev tear_down : Session → Session
tear_down s = record s { is_stopping = true; reconnect = none }

unfoldable pub stop : Session → Session
stop s =
    if is_some s.status
    then elim s.engine [
      | none ↦ update_status SessionStatus.disconnected (tear_down s)
      | some _ ↦ await stopping (tear_down s)
    ]
    else s

unfoldable pub delete : Session → Session
delete s =
    if is_some s.status
    then elim s.engine [
      | none ↦ record (tear_down s) { status = none }
      | some _ ↦ await deleting (tear_down s)
    ]
    else s

abbrev pub pending_timers : Option ReconnectState → ℕ
pending_timers none = 0
pending_timers (some r) = if is_some r.timer then 1 else 0

-- What follows an await, by its success.
unfoldable pub resume : Bool → ℕ → Task → Session → Session
unfolding initialize_engine schedule_reconnect
resume _ _ (starting r) s =
    initialize_engine started (record s {
      reconnect = some r;
      orphan_timers = s.orphan_timers + pending_timers s.reconnect;
    })
resume true _ started s = s
resume false _ started s = record s { engine = none }
resume true _ stopping s = update_status SessionStatus.disconnected (record s { engine = none })
resume false _ stopping s = s
resume true _ deleting s = record s { engine = none; status = none }
resume false _ deleting s = s
resume true _ destroying s = initialize_engine reinitializing (record s { engine = none })
resume false _ destroying s = await recovering (record s { engine = none })
resume true _ reinitializing s =
    if s.is_stopping then (if is_some s.engine then await removing s else s) else s
resume false _ reinitializing s = await recovering (record s { engine = none })
resume true _ removing s = record s { engine = none }
resume false _ removing s = await recovering (record s { engine = none })
resume _ jitter recovering s = schedule_reconnect jitter s
