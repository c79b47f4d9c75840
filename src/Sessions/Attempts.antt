-- ===== src/Sessions/Attempts.antt =====
-- Every step keeps the reconnect attempts and the delays within their bounds.
use mathlib.Core.Path.{subst}
use wp_open_aurora.Prelude.{
  ℕ, ◌<◌, ◌≡◌, ◌⊎◌, refl, arith, Bool, true, false, not, ◌&&◌, Option, none, some, List, [], ◌∷◌,
  ◌++◌, is_some, inl, inr, Bool-cases, Option-cases, All, All-append,
}
use wp_open_aurora.Sessions.{
  SessionStatus, EngineStatus, ReconnectState, Task, Session, update_status, start, stop, delete,
  resume,
}
use wp_open_aurora.Sessions.Steps.{
  reset_attempts, Callback, Event, step, run, callback, handle, pull, is_current_engine,
}
use wp_open_aurora.Sessions.Reconnect.{
  IsBounded, TaskBounded, StateBounded, SessionBounded, EventBounded,
  schedule_reconnect-SessionBounded, fire_timer-SessionBounded, fire_orphan-SessionBounded,
  resume-SessionBounded,
}
use wp_open_aurora.Sessions.Tasks.{Pulled, pull-Pulled}

start-SessionBounded :
    (r : ReconnectState) (s : Session) → IsBounded r → SessionBounded s → SessionBounded (start r s)
unfolding SessionBounded start TaskBounded
start-SessionBounded r s p (h, ts) =
    elim (Bool-cases (is_some s.status && not (is_some s.engine))) [
      | inl e ↦ rw e (h, All-append TaskBounded s.tasks (Task.starting r ∷ []) ts (p, tt))
      | inr e ↦ rw e (h, ts)
    ]

-- `stop` and `delete` drop the reconnect state.
torn_down :
    (s s' : Session) (t : Task)
    → TaskBounded t
    → SessionBounded s
    → s'.reconnect ≡ none
    → (s'.tasks ≡ s.tasks) ⊎ (s'.tasks ≡ s.tasks ++ t ∷ [])
    → SessionBounded s'
unfolding SessionBounded StateBounded
torn_down s s' t p (h, ts) e (inl q) = (rw e tt, rw q ts)
torn_down s s' t p (h, ts) e (inr q) =
    (rw e tt, rw q (All-append TaskBounded s.tasks (t ∷ []) ts (p, tt)))

stop-SessionBounded : (s : Session) → SessionBounded s → SessionBounded (stop s)
unfolding stop TaskBounded
stop-SessionBounded s h = elim (Bool-cases (is_some s.status)) [
  | inl e ↦ elim (Option-cases s.engine) [
    | inl n ↦ rw (stop, e, n) (torn_down s _ Task.stopping tt h refl (inl refl))
    | inr (c, n) ↦ rw (stop, e, n) (torn_down s _ Task.stopping tt h refl (inr refl))
  ]
  | inr e ↦ rw (stop, e) h
]

delete-SessionBounded : (s : Session) → SessionBounded s → SessionBounded (delete s)
unfolding delete TaskBounded
delete-SessionBounded s h = elim (Bool-cases (is_some s.status)) [
  | inl e ↦ elim (Option-cases s.engine) [
    | inl n ↦ rw (delete, e, n) (torn_down s _ Task.deleting tt h refl (inl refl))
    | inr (c, n) ↦ rw (delete, e, n) (torn_down s _ Task.deleting tt h refl (inr refl))
  ]
  | inr e ↦ rw (delete, e) h
]

reset-StateBounded : (o : Option ReconnectState) → StateBounded o → StateBounded (reset_attempts o)
unfolding StateBounded
reset-StateBounded none h = tt
reset-StateBounded (some r) h = record {
  base = h.base;
  within = λ n e. omega arith;
  delay = λ d e. ground arith;
}

handle-SessionBounded :
    (jitter : ℕ) (c : Callback) (s : Session)
    → jitter < 1000
    → SessionBounded s
    → SessionBounded (handle jitter c s)
unfolding SessionBounded handle
handle-SessionBounded jitter Callback.on_qr_code s j h = h
handle-SessionBounded jitter Callback.on_ready s j (h, ts) = (reset-StateBounded s.reconnect h, ts)
handle-SessionBounded jitter Callback.on_disconnected s j h =
    schedule_reconnect-SessionBounded jitter (update_status SessionStatus.disconnected s) j h
handle-SessionBounded jitter (Callback.on_state_changed EngineStatus.disconnected) s j h = h
handle-SessionBounded jitter (Callback.on_state_changed EngineStatus.initializing) s j h = h
handle-SessionBounded jitter (Callback.on_state_changed EngineStatus.qr_ready) s j h = h
handle-SessionBounded jitter (Callback.on_state_changed EngineStatus.authenticating) s j h = h
handle-SessionBounded jitter (Callback.on_state_changed EngineStatus.ready) s j h = h
handle-SessionBounded jitter (Callback.on_state_changed EngineStatus.failed) s j h = h
handle-SessionBounded jitter (Callback.on_error reason true) s j h = h
handle-SessionBounded jitter (Callback.on_error reason false) s j h =
    schedule_reconnect-SessionBounded jitter
      (update_status SessionStatus.disconnected (record s { error = none })) j h

resumed-SessionBounded :
    (ok : Bool) (jitter n : ℕ) (s : Session) (t : Task) (ts : List Task)
    → jitter < 1000
    → pull n s.tasks ≡ some (t, ts)
    → SessionBounded s
    → SessionBounded (resume ok jitter t (record s { tasks = ts }))
unfolding SessionBounded Pulled
resumed-SessionBounded ok jitter n s t ts j q (b, all) =
    let (p, ps) = subst (Pulled TaskBounded) q (pull-Pulled TaskBounded n s.tasks all) in
    resume-SessionBounded ok jitter t (record s { tasks = ts }) j p (b, ps)

step-SessionBounded :
    (e : Event) (s : Session) → EventBounded e → SessionBounded s → SessionBounded (step e s)
unfolding step EventBounded
step-SessionBounded (Event.call_start r) s p h = start-SessionBounded r s p h
step-SessionBounded Event.call_stop s p h = stop-SessionBounded s h
step-SessionBounded Event.call_delete s p h = delete-SessionBounded s h
step-SessionBounded Event.timer s p h = fire_timer-SessionBounded s h
step-SessionBounded Event.orphan_timer s p h = fire_orphan-SessionBounded s h
step-SessionBounded (Event.engine_event jitter e c) s p h =
    elim (Bool-cases (is_current_engine e s)) [
      | inl q ↦ rw (step, callback, q) (handle-SessionBounded jitter c s p h)
      | inr q ↦ rw (step, callback, q) h
    ]
step-SessionBounded (Event.resumed ok jitter n) s p h = elim (Option-cases (pull n s.tasks)) [
  | inl q ↦ rw (step, q) h
  | inr ((t, ts), q) ↦ rw (step, q) (resumed-SessionBounded ok jitter n s t ts p q h)
]

-- Whatever happens to a session, its reconnect attempts stay within the limit that it was started
-- with, and a pending timer was set for between one second and five minutes and a second: calls,
-- timers, callbacks of engines, old ones too, and awaits that end in any order and with any success.
pub run-SessionBounded :
    (es : List Event) (s : Session)
    → All EventBounded es
    → SessionBounded s
    → SessionBounded (run es s)
unfolding run
run-SessionBounded [] s p h = h
run-SessionBounded (e ∷ es) s (p, ps) h =
    run-SessionBounded es (step e s) ps (step-SessionBounded e s p h)
