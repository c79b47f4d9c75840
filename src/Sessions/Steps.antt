-- ===== src/Sessions/Steps.antt =====
-- The callbacks of an engine, in the order of `initializeEngine`, and one step of a session.
use wp_open_aurora.Prelude.{
  ℕ, zero, suc, String, Bool, false, not, ◌&&◌, Option, none, some, List, [], ◌∷◌, eqb,
  if◌then◌else◌,
}
use wp_open_aurora.Sessions.{
  engine_reason, SessionStatus, EngineStatus, ReconnectState, Task, Session, update_status,
  schedule_reconnect, start, stop, delete, fire_timer, fire_orphan, resume,
}

unfoldable pub is_current_engine : ℕ → Session → Bool
is_current_engine e s = not s.is_stopping && elim s.engine [ none ↦ false | some c ↦ eqb c e ]

-- An error carries its reason and whether `isTerminalAuthenticationError` matches it.
pub data Callback : Type 0 where
  on_qr_code on_ready on_disconnected : Callback
  on_state_changed : EngineStatus → Callback
  on_error : String → Bool → Callback

unfoldable pub session_status : EngineStatus → SessionStatus
session_status EngineStatus.disconnected = SessionStatus.disconnected
session_status EngineStatus.initializing = SessionStatus.initializing
session_status EngineStatus.qr_ready = SessionStatus.qr_ready
session_status EngineStatus.authenticating = SessionStatus.authenticating
session_status EngineStatus.ready = SessionStatus.ready
session_status EngineStatus.failed = SessionStatus.failed

abbrev pub reset_attempts : Option ReconnectState → Option ReconnectState
reset_attempts none = none
reset_attempts (some r) = some (record r { timer = none; attempts = 0 })

unfoldable pub handle : ℕ → Callback → Session → Session
unfolding schedule_reconnect session_status
handle _ on_qr_code s = update_status SessionStatus.qr_ready s
handle _ on_ready s =
    update_status SessionStatus.ready
      (record s { reconnect = reset_attempts s.reconnect; error = none })
handle jitter on_disconnected s =
    schedule_reconnect jitter (update_status SessionStatus.disconnected s)
handle _ (on_state_changed EngineStatus.failed) s = s
handle _ (on_state_changed st) s = update_status (session_status st) s
handle jitter (on_error reason is_terminal) s =
    if is_terminal
    then update_status SessionStatus.failed (record s { error = some (engine_reason reason) })
    else schedule_reconnect jitter
        (update_status SessionStatus.disconnected (record s { error = none }))

-- A callback of engine `e`, behind its guard.
unfoldable pub callback : ℕ → ℕ → Callback → Session → Session
unfolding is_current_engine handle
callback jitter e c s = if is_current_engine e s then handle jitter c s else s

-- The task of a number, and the tasks without it.
unfoldable pub pull : ℕ → List Task → Option (Task × List Task)
pull n [] = none
pull zero (t ∷ ts) = some (t, ts)
pull (suc n) (t ∷ ts) = elim (pull n ts) [ none ↦ none | some (u, us) ↦ some (u, t ∷ us) ]

pub data Event : Type 0 where
  call_start : ReconnectState → Event
  call_stop call_delete timer orphan_timer : Event
  engine_event : ℕ → ℕ → Callback → Event
  resumed : Bool → ℕ → ℕ → Event

unfoldable pub step : Event → Session → Session
unfolding start stop delete fire_timer fire_orphan callback resume pull
step (call_start r) s = start r s
step call_stop s = stop s
step call_delete s = delete s
step timer s = fire_timer s
step orphan_timer s = fire_orphan s
step (engine_event jitter e c) s = callback jitter e c s
step (resumed succeeded jitter n) s = elim (pull n s.tasks) [
  | none ↦ s
  | some (t, ts) ↦ resume succeeded jitter t (record s { tasks = ts })
]

unfoldable pub run : List Event → Session → Session
unfolding step
run [] s = s
run (e ∷ es) s = run es (step e s)
