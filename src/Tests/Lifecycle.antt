-- ===== src/Tests/Lifecycle.antt =====
-- A session that is stopped while a reconnect is under way.
use wp_open_aurora.Prelude.{true, false, none, some, List, [], ◌∷◌, ◌≡◌, refl, arith}
use wp_open_aurora.Sessions.{
  SessionStatus, ReconnectState, Task, Session, new_reconnect_state, stop, delete,
}
use wp_open_aurora.Sessions.Steps.{Callback, Event, run}
use wp_open_aurora.Sessions.Reconnect.{SessionBounded, EventBounded, new_reconnect_state-IsBounded}
use wp_open_aurora.Sessions.Attempts.{run-SessionBounded}
use wp_open_aurora.Sessions.Stop.{stop_lasts, delete_lasts, Undisturbed}

abbrev state : ReconnectState
state = new_reconnect_state (some 3) none none

-- The old engine is being destroyed for a reconnect.
abbrev reconnecting : Session
reconnecting = record {
  status = some SessionStatus.disconnected;
  engine = some 4;
  next_engine = 5;
  reconnect = some (new_reconnect_state (some 3) none none);
  orphan_timers = 0;
  is_stopping = false;
  error = none;
  tasks = Task.destroying ∷ [];
}

-- The reconnect goes on, then the tear-down ends, then the new engine is up and taken away.
abbrev events : List Event
events =
    Event.resumed true 0 0
    ∷ Event.engine_event 0 5 Callback.on_disconnected
    ∷ Event.resumed true 0 0
    ∷ Event.resumed true 0 0
    ∷ Event.resumed true 0 0
    ∷ []

stop_lasts_example : (run events (stop reconnecting)).engine ≡ none
unfolding Undisturbed run stop wp_open_aurora.Sessions.Stop.disturbs
stop_lasts_example =
    stop_lasts events reconnecting refl refl (refl, (refl, (refl, (refl, (refl, tt))))) refl

run-SessionBounded_example : SessionBounded (run events reconnecting)
unfolding SessionBounded EventBounded wp_open_aurora.Sessions.Reconnect.TaskBounded
run-SessionBounded_example =
    run-SessionBounded events reconnecting
      (omega arith, (omega arith, (omega arith, (omega arith, (omega arith, tt)))))
      (new_reconnect_state-IsBounded (some 3) none none, (tt, tt))
