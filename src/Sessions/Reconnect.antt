-- ===== src/Sessions/Reconnect.antt =====
-- The reconnect attempts: their bound and the delays.
use native.Mathlib.Nat.{one-le-pow}
use wp_open_aurora.Prelude.{
  ℕ, zero, suc, ◌+◌, min, ◌≤◌, ◌<◌, ◌≡◌, refl, arith, Bool, true, false, not, ◌||◌, Option, none,
  some, [], ◌∷◌, is_some, inl, inr, Bool-cases, Option-cases, All, All-append,
}
use wp_open_aurora.Sessions.{
  ReconnectState, Task, Session, schedule_reconnect, fire_timer, fire_orphan, resume,
  pending_timers, new_reconnect_state, reconnect_delay, is_exhausted, initialize_engine,
  execute_reconnect,
}
use wp_open_aurora.Sessions.Steps.{Event}

-- A reconnect state as the program keeps it: a base delay of a second at least, no attempt beyond the
-- limit, and a pending timer of at least a second and at most the cap of five minutes and the jitter.
pub record IsBounded (r : ReconnectState) : Type 0 where
  pub base : 1000 ≤ r.base_delay
  pub within : (n : ℕ) → r.max_attempts ≡ some n → r.attempts ≤ n
  pub delay : (d : ℕ) → r.timer ≡ some d → (1000 ≤ d) × (d < 301_000)

unfoldable pub TaskBounded : Task → Type 0
TaskBounded (Task.starting r) = IsBounded r
TaskBounded _ = Unit

unfoldable pub StateBounded : Option ReconnectState → Type 0
StateBounded none = Unit
StateBounded (some r) = IsBounded r

-- All reconnect states of a session, those of starts under way included.
unfoldable pub SessionBounded : Session → Type 0
unfolding StateBounded
SessionBounded s = StateBounded s.reconnect × All TaskBounded s.tasks

-- A start with a bounded state and a jitter below a second.
unfoldable pub EventBounded : Event → Type 0
EventBounded (Event.call_start r) = IsBounded r
EventBounded (Event.engine_event jitter e c) = jitter < 1000
EventBounded (Event.resumed b jitter n) = jitter < 1000
EventBounded _ = Unit

pub new_reconnect_state-IsBounded :
    (m b : Option ℕ) (a : Option Bool) → IsBounded (new_reconnect_state m b a)
unfolding new_reconnect_state
new_reconnect_state-IsBounded m b a = record {
  base = ground arith;
  within = λ n e. ground arith;
  delay = λ d e. ground arith;
}

reconnect_delay_bounds :
    (r : ReconnectState) (jitter : ℕ)
    → 1000 ≤ r.base_delay
    → jitter < 1000
    → (1000 ≤ reconnect_delay r jitter) × (reconnect_delay r jitter < 301_000)
unfolding reconnect_delay
reconnect_delay_bounds r jitter b j =
    let p = one-le-pow (min r.attempts 16) 2 (omega arith) in grind arith

scheduled-IsBounded :
    (r : ReconnectState) (jitter : ℕ)
    → jitter < 1000
    → IsBounded r
    → is_exhausted r ≡ false
    → IsBounded (record r { timer = some (reconnect_delay r jitter); attempts = r.attempts + 1 })
unfolding is_exhausted
scheduled-IsBounded r jitter j h x =
    let bounds = reconnect_delay_bounds r jitter h.base j in
    record { base = h.base; within = λ n e. ground arith; delay = λ d e. ground arith }

pub schedule_reconnect-SessionBounded :
    (jitter : ℕ) (s : Session)
    → jitter < 1000
    → SessionBounded s
    → SessionBounded (schedule_reconnect jitter s)
unfolding SessionBounded StateBounded schedule_reconnect
schedule_reconnect-SessionBounded jitter s j (h, t) = elim (Option-cases s.reconnect) [
  | inl e ↦ rw (schedule_reconnect, e) (h, t)
  | inr (r, e) ↦
      let b : IsBounded r = rw e at h in
      elim (Bool-cases (not r.auto_reconnect || is_some r.timer || s.is_stopping)) [
        | inl g ↦ rw (schedule_reconnect, e, g) (h, t)
        | inr g ↦ elim (Bool-cases (is_exhausted r)) [
          | inl x ↦ rw (schedule_reconnect, e, g, x) (h, t)
          | inr x ↦ rw (schedule_reconnect, e, g, x) (scheduled-IsBounded r jitter j b x, t)
        ]
      ]
]

-- A pending timer taken away.
untimed-IsBounded : (r : ReconnectState) → IsBounded r → IsBounded (record r { timer = none })
untimed-IsBounded r h = record { base = h.base; within = h.within; delay = λ d e. ground arith }

initialize_engine-SessionBounded :
    (t : Task) (s : Session)
    → TaskBounded t
    → SessionBounded s
    → SessionBounded (initialize_engine t s)
unfolding SessionBounded initialize_engine
initialize_engine-SessionBounded t s p (h, ts) =
    (h, All-append TaskBounded s.tasks (t ∷ []) ts (p, tt))

pub execute_reconnect-SessionBounded :
    (s : Session) → SessionBounded s → SessionBounded (execute_reconnect s)
unfolding SessionBounded execute_reconnect TaskBounded initialize_engine
execute_reconnect-SessionBounded s (h, ts) = elim (Bool-cases s.is_stopping) [
  | inl e ↦ rw (execute_reconnect, e) (h, ts)
  | inr e ↦ elim (Option-cases s.engine) [
    | inl n ↦
        rw (execute_reconnect, e, n)
          (h, All-append TaskBounded s.tasks (Task.reinitializing ∷ []) ts (tt, tt))
    | inr (c, n) ↦
        rw (execute_reconnect, e, n)
          (h, All-append TaskBounded s.tasks (Task.destroying ∷ []) ts (tt, tt))
  ]
]

pub fire_timer-SessionBounded : (s : Session) → SessionBounded s → SessionBounded (fire_timer s)
unfolding SessionBounded fire_timer StateBounded
fire_timer-SessionBounded s (h, ts) = elim (Option-cases s.reconnect) [
  | inl e ↦ rw (fire_timer, e) (h, ts)
  | inr (r, e) ↦ elim (Bool-cases (is_some r.timer)) [
    | inl t ↦
        rw (fire_timer, e, t)
          (execute_reconnect-SessionBounded _ (untimed-IsBounded r (rw e at h), ts))
    | inr t ↦ rw (fire_timer, e, t) (h, ts)
  ]
]

pub fire_orphan-SessionBounded : (s : Session) → SessionBounded s → SessionBounded (fire_orphan s)
unfolding SessionBounded fire_orphan
fire_orphan-SessionBounded s h = go s.orphan_timers refl
  where
    go : (n : ℕ) → s.orphan_timers ≡ n → SessionBounded (fire_orphan s)
    go zero e = rw (fire_orphan, e) h
    go (suc n) e = rw (fire_orphan, e) (execute_reconnect-SessionBounded _ h)

pub resume-SessionBounded :
    (ok : Bool) (jitter : ℕ) (t : Task) (s : Session)
    → jitter < 1000
    → TaskBounded t
    → SessionBounded s
    → SessionBounded (resume ok jitter t s)
unfolding SessionBounded resume TaskBounded StateBounded
resume-SessionBounded ok jitter (Task.starting r) s j p (h, ts) =
    initialize_engine-SessionBounded Task.started
      (record s {
        reconnect = some r;
        orphan_timers = s.orphan_timers + pending_timers s.reconnect;
      })
      tt (p, ts)
resume-SessionBounded true jitter Task.started s j p h = h
resume-SessionBounded false jitter Task.started s j p h = h
resume-SessionBounded true jitter Task.stopping s j p h = h
resume-SessionBounded false jitter Task.stopping s j p h = h
resume-SessionBounded true jitter Task.deleting s j p h = h
resume-SessionBounded false jitter Task.deleting s j p h = h
resume-SessionBounded true jitter Task.destroying s j p h =
    initialize_engine-SessionBounded Task.reinitializing (record s { engine = none }) tt h
resume-SessionBounded false jitter Task.destroying s j p (h, ts) =
    (h, All-append TaskBounded s.tasks (Task.recovering ∷ []) ts (tt, tt))
resume-SessionBounded true jitter Task.reinitializing s j p (h, ts) =
    elim (Bool-cases s.is_stopping) [
      | inl e ↦ elim (Bool-cases (is_some s.engine)) [
        | inl n ↦ rw (e, n) (h, All-append TaskBounded s.tasks (Task.removing ∷ []) ts (tt, tt))
        | inr n ↦ rw (e, n) (h, ts)
      ]
      | inr e ↦ rw e (h, ts)
    ]
resume-SessionBounded false jitter Task.reinitializing s j p (h, ts) =
    (h, All-append TaskBounded s.tasks (Task.recovering ∷ []) ts (tt, tt))
resume-SessionBounded true jitter Task.removing s j p h = h
resume-SessionBounded false jitter Task.removing s j p (h, ts) =
    (h, All-append TaskBounded s.tasks (Task.recovering ∷ []) ts (tt, tt))
resume-SessionBounded ok jitter Task.recovering s j p h =
    schedule_reconnect-SessionBounded jitter s j h
