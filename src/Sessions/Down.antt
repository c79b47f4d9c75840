-- ===== src/Sessions/Down.antt =====
-- A session that is being stopped, and the awaits that end in it.
use wp_open_aurora.Prelude.{
  ℕ, ◌≡◌, ◌⊎◌, refl, arith, Bool, true, false, not, ◌&&◌, ◌||◌, none, some, [], ◌∷◌, ◌++◌, is_some,
  inl, inr, Option-cases, any, any-append,
}
use wp_open_aurora.Sessions.{Task, Session, schedule_reconnect, resume, initialize_engine}

-- The tasks that end by taking the registered engine away, a failed `stop` or `delete` apart.
abbrev pub is_cleaning : Task → Bool
is_cleaning Task.stopping = true
is_cleaning Task.deleting = true
is_cleaning Task.destroying = true
is_cleaning Task.reinitializing = true
is_cleaning Task.removing = true
is_cleaning _ = false

abbrev pub is_starting : Task → Bool
is_starting (Task.starting _) = true
is_starting _ = false

abbrev pub is_tear_down : Task → Bool
is_tear_down Task.stopping = true
is_tear_down Task.deleting = true
is_tear_down _ = false

-- A session that is being stopped, or is stopped: if an engine is registered, a task in flight will
-- take it away.
pub record IsDown (s : Session) : Type 0 where
  pub stopping : s.is_stopping ≡ true
  pub no_start : any is_starting s.tasks ≡ false
  pub cleaned : is_some s.engine ≡ true → any is_cleaning s.tasks ≡ true

-- No engine is registered.
pub gone :
    (s s' : Session) (t : Task)
    → s'.is_stopping ≡ true
    → is_starting t ≡ false
    → any is_starting s.tasks ≡ false
    → s'.engine ≡ none
    → (s'.tasks ≡ s.tasks) ⊎ (s'.tasks ≡ s.tasks ++ t ∷ [])
    → IsDown s'
gone s s' t k i h n (inl q) = record {
  stopping = k;
  no_start = rw q h;
  cleaned = λ e. ground arith;
}
gone s s' t k i h n (inr q) =
    let a = any-append is_starting s.tasks (t ∷ []) in
    record { stopping = k; no_start = rw q (ground arith); cleaned = λ e. ground arith }

-- A task that takes the engine away has begun.
pub cleaned_by :
    (s s' : Session) (t : Task)
    → s'.is_stopping ≡ true
    → is_starting t ≡ false
    → is_cleaning t ≡ true
    → any is_starting s.tasks ≡ false
    → s'.tasks ≡ s.tasks ++ t ∷ []
    → IsDown s'
cleaned_by s s' t k i c h q =
    let a = any-append is_starting s.tasks (t ∷ []) in
    let b = any-append is_cleaning s.tasks (t ∷ []) in
    record { stopping = k; no_start = rw q (ground arith); cleaned = λ e. rw q (ground arith) }

schedule_reconnect_stopping :
    (jitter : ℕ) (s : Session) → s.is_stopping ≡ true → schedule_reconnect jitter s ≡ s
unfolding schedule_reconnect
schedule_reconnect_stopping jitter s k = ground arith

-- The engine of a reconnect that ends after a `stop` is taken away, if it is still registered.
reinitialized_gone :
    (jitter : ℕ) (s : Session)
    → s.is_stopping ≡ true
    → s.engine ≡ none
    → resume true jitter Task.reinitializing s ≡ s
unfolding resume
reinitialized_gone jitter s k n = ground arith

reinitialized_late :
    (jitter : ℕ) (s : Session) (c : ℕ)
    → s.is_stopping ≡ true
    → s.engine ≡ some c
    → resume true jitter Task.reinitializing s ≡ record s { tasks = s.tasks ++ Task.removing ∷ [] }
unfolding resume
reinitialized_late jitter s c k n = ground arith

pub resume-IsDown :
    (ok : Bool) (jitter : ℕ) (t : Task) (s : Session)
    → s.is_stopping ≡ true
    → (is_starting t || any is_starting s.tasks) ≡ false
    → (is_some s.engine ≡ true → (is_cleaning t || any is_cleaning s.tasks) ≡ true)
    → (not ok && is_tear_down t) ≡ false
    → IsDown (resume ok jitter t s)
unfolding resume initialize_engine
resume-IsDown ok jitter (Task.starting r) s k n c d = ground arith
resume-IsDown true jitter Task.started s k n c d = record {
  stopping = k;
  no_start = n;
  cleaned = c;
}
resume-IsDown false jitter Task.started s k n c d = gone s _ Task.started k refl n refl (inl refl)
resume-IsDown true jitter Task.stopping s k n c d = gone s _ Task.stopping k refl n refl (inl refl)
resume-IsDown false jitter Task.stopping s k n c d = ground arith
resume-IsDown true jitter Task.deleting s k n c d = gone s _ Task.deleting k refl n refl (inl refl)
resume-IsDown false jitter Task.deleting s k n c d = ground arith
resume-IsDown true jitter Task.destroying s k n c d =
    cleaned_by s _ Task.reinitializing k refl refl n refl
resume-IsDown false jitter Task.destroying s k n c d =
    gone s _ Task.recovering k refl n refl (inr refl)
resume-IsDown true jitter Task.reinitializing s k n c d = elim (Option-cases s.engine) [
  | inl e ↦ rw (reinitialized_gone jitter s k e) (gone s s Task.removing k refl n e (inl refl))
  | inr (x, e) ↦ rw (reinitialized_late jitter s x k e) (
      cleaned_by s (record s { tasks = s.tasks ++ Task.removing ∷ [] }) Task.removing k refl refl n
        refl)
]
resume-IsDown false jitter Task.reinitializing s k n c d =
    gone s _ Task.recovering k refl n refl (inr refl)
resume-IsDown true jitter Task.removing s k n c d = gone s _ Task.removing k refl n refl (inl refl)
resume-IsDown false jitter Task.removing s k n c d =
    gone s _ Task.recovering k refl n refl (inr refl)
resume-IsDown ok jitter Task.recovering s k n c d =
    rw (schedule_reconnect_stopping jitter s k) (record { stopping = k; no_start = n; cleaned = c })
