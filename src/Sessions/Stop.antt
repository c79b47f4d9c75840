-- ===== src/Sessions/Stop.antt =====
-- No engine outlives a `stop` or a `delete`.
use mathlib.Core.Path.{subst}
use wp_open_aurora.Prelude.{
  ℕ, zero, suc, ◌≡◌, refl, sym, ◌∙◌, arith, Bool, true, false, not, ◌&&◌, none, some, List, [], ◌∷◌,
  is_some, inl, inr, Bool-cases, Option-cases, any,
}
use wp_open_aurora.Sessions.{
  Task, Session, stop, delete, fire_timer, fire_orphan, resume, execute_reconnect,
}
use wp_open_aurora.Sessions.Steps.{Callback, Event, step, run, callback, pull, is_current_engine}
use wp_open_aurora.Sessions.Tasks.{Counted, pull-Counted}
use wp_open_aurora.Sessions.Down.{
  is_cleaning, is_starting, is_tear_down, IsDown, gone, cleaned_by, resume-IsDown,
}

-- A new start, and a `stop` or `delete` whose call of the engine throws.
unfoldable pub disturbs : Event → Session → Bool
disturbs (Event.call_start r) s = true
disturbs (Event.resumed false jitter n) s = elim (pull n s.tasks) [
  | none ↦ false
  | some (t, ts) ↦ is_tear_down t
]
disturbs _ s = false

unfoldable pub Undisturbed : List Event → Session → Type 0
Undisturbed [] s = Unit
Undisturbed (e ∷ es) s = (disturbs e s ≡ false) × Undisturbed es (step e s)

execute_reconnect_stopping : (s : Session) → s.is_stopping ≡ true → execute_reconnect s ≡ s
unfolding execute_reconnect
execute_reconnect_stopping s k = ground arith

stopped-IsDown :
    (s : Session) → is_some s.status ≡ true → any is_starting s.tasks ≡ false → IsDown (stop s)
unfolding stop
stopped-IsDown s e h = elim (Option-cases s.engine) [
  | inl n ↦ rw (stop, e, n) (gone s _ Task.stopping refl refl h n (inl refl))
  | inr (c, n) ↦ rw (stop, e, n) (cleaned_by s _ Task.stopping refl refl refl h refl)
]

stop-IsDown : (s : Session) → IsDown s → IsDown (stop s)
unfolding stop
stop-IsDown s h = elim (Bool-cases (is_some s.status)) [
  | inl e ↦ stopped-IsDown s e h.no_start
  | inr e ↦ rw (stop, e) h
]

deleted-IsDown :
    (s : Session) → is_some s.status ≡ true → any is_starting s.tasks ≡ false → IsDown (delete s)
unfolding delete
deleted-IsDown s e h = elim (Option-cases s.engine) [
  | inl n ↦ rw (delete, e, n) (gone s _ Task.deleting refl refl h n (inl refl))
  | inr (c, n) ↦ rw (delete, e, n) (cleaned_by s _ Task.deleting refl refl refl h refl)
]

delete-IsDown : (s : Session) → IsDown s → IsDown (delete s)
unfolding delete
delete-IsDown s h = elim (Bool-cases (is_some s.status)) [
  | inl e ↦ deleted-IsDown s e h.no_start
  | inr e ↦ rw (delete, e) h
]

fire_timer-IsDown : (s : Session) → IsDown s → IsDown (fire_timer s)
unfolding fire_timer
fire_timer-IsDown s h = elim (Option-cases s.reconnect) [
  | inl e ↦ rw (fire_timer, e) h
  | inr (r, e) ↦ elim (Bool-cases (is_some r.timer)) [
    | inl t ↦
        rw (fire_timer, e, t)
          (rw
            (execute_reconnect_stopping (record s { reconnect = some (record r { timer = none }) })
              h.stopping)
            (record { stopping = h.stopping; no_start = h.no_start; cleaned = h.cleaned }))
    | inr t ↦ rw (fire_timer, e, t) h
  ]
]

fire_orphan-IsDown : (s : Session) → IsDown s → IsDown (fire_orphan s)
unfolding fire_orphan
fire_orphan-IsDown s h = go s.orphan_timers refl
  where
    go : (n : ℕ) → s.orphan_timers ≡ n → IsDown (fire_orphan s)
    go zero e = rw (fire_orphan, e) h
    go (suc n) e =
        rw (fire_orphan, e)
          (rw (execute_reconnect_stopping (record s { orphan_timers = n }) h.stopping)
            (record { stopping = h.stopping; no_start = h.no_start; cleaned = h.cleaned }))

-- No callback of an engine is heard.
callback_stopping :
    (jitter e : ℕ) (c : Callback) (s : Session) → s.is_stopping ≡ true → callback jitter e c s ≡ s
unfolding callback is_current_engine
callback_stopping jitter e c s k = ground arith

resumed-IsDown :
    (ok : Bool) (jitter n : ℕ) (s : Session) (t : Task) (ts : List Task)
    → pull n s.tasks ≡ some (t, ts)
    → (not ok && is_tear_down t) ≡ false
    → IsDown s
    → IsDown (resume ok jitter t (record s { tasks = ts }))
unfolding Counted
resumed-IsDown ok jitter n s t ts q d h =
    let a = subst (Counted is_starting s.tasks) q (pull-Counted is_starting n s.tasks) in
    let b = subst (Counted is_cleaning s.tasks) q (pull-Counted is_cleaning n s.tasks) in
    resume-IsDown ok jitter t (record s { tasks = ts }) h.stopping (sym a ∙ h.no_start)
      (λ e. sym b ∙ h.cleaned e) d

step-IsDown : (e : Event) (s : Session) → disturbs e s ≡ false → IsDown s → IsDown (step e s)
unfolding step disturbs
step-IsDown (Event.call_start r) s d h = ground arith
step-IsDown Event.call_stop s d h = stop-IsDown s h
step-IsDown Event.call_delete s d h = delete-IsDown s h
step-IsDown Event.timer s d h = fire_timer-IsDown s h
step-IsDown Event.orphan_timer s d h = fire_orphan-IsDown s h
step-IsDown (Event.engine_event jitter e c) s d h = rw (callback_stopping jitter e c s h.stopping) h
step-IsDown (Event.resumed true jitter n) s d h = elim (Option-cases (pull n s.tasks)) [
  | inl q ↦ rw (step, q) h
  | inr ((t, ts), q) ↦ rw (step, q) (resumed-IsDown true jitter n s t ts q refl h)
]
step-IsDown (Event.resumed false jitter n) s d h = elim (Option-cases (pull n s.tasks)) [
  | inl q ↦ rw (step, q) h
  | inr ((t, ts), q) ↦
      rw (step, q) (resumed-IsDown false jitter n s t ts q (rw (q, disturbs) at d) h)
]

run-IsDown : (es : List Event) (s : Session) → Undisturbed es s → IsDown s → IsDown (run es s)
unfolding run Undisturbed
run-IsDown [] s d h = h
run-IsDown (e ∷ es) s (d, ds) h = run-IsDown es (step e s) ds (step-IsDown e s d h)

-- Nothing in flight, nothing registered.
quiet : (s : Session) → IsDown s → s.tasks ≡ [] → s.engine ≡ none
quiet s h q = elim (Option-cases s.engine) [
  | inl n ↦ n
  | inr (c, n) ↦ let x = h.cleaned (rw n refl) in ground arith
]

-- A call of `stop` on a session that has a row, and no start of which waits for its hook, leaves no
-- engine registered once every await has ended, whatever reconnects were in flight and whatever
-- calls, timers and callbacks follow: unless `start` is called again, or an engine throws while a
-- `stop` or a `delete` tears it down.
pub stop_lasts :
    (es : List Event) (s : Session)
    → is_some s.status ≡ true
    → any is_starting s.tasks ≡ false
    → Undisturbed es (stop s)
    → (run es (stop s)).tasks ≡ []
    → (run es (stop s)).engine ≡ none
stop_lasts es s r h d q =
    quiet (run es (stop s)) (run-IsDown es (stop s) d (stopped-IsDown s r h)) q

-- The same of a call of `delete`.
pub delete_lasts :
    (es : List Event) (s : Session)
    → is_some s.status ≡ true
    → any is_starting s.tasks ≡ false
    → Undisturbed es (delete s)
    → (run es (delete s)).tasks ≡ []
    → (run es (delete s)).engine ≡ none
delete_lasts es s r h d q =
    quiet (run es (delete s)) (run-IsDown es (delete s) d (deleted-IsDown s r h)) q
