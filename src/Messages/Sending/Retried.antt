-- ===== src/Messages/Sending/Retried.antt =====
-- Which rows of a send the retries of src/modules/message/message-retry.service.ts take up.
use mathlib.Core.Path.{subst}
use wp_open_aurora.Prelude.{
  ℕ, ◌+◌, ◌≤◌, String, Bool, true, false, some, [], ◌∷◌, ◌≡◌, ◌≢◌, ◌↔◌, refl, arith, inl, inr,
  is_some,
}
use wp_open_aurora.Prelude.Results.{ok, err, Result-cases}
use wp_open_aurora.Messages.Status.{MessageStatus}
use wp_open_aurora.Messages.Retry.{is_candidate, base_delay}
use wp_open_aurora.Messages.Sending.{SendError, StoredMessage, Call, Outside, Outcome, refused}
use wp_open_aurora.Messages.Sending.Steps.{
  is_retryable_send_error, mark_sent, mark_failed, give_up, transmit,
}
use wp_open_aurora.Messages.Sending.Every.{Operation, perform, is_repeatable, perform_all}

-- The engine has refused the one call with an error that may pass, the operation can be repeated, and
-- the base delay is over.
abbrev pub IsDue : Outside → Bool → Outcome → ℕ → Type 0
IsDue out repeatable o now =
    (call : Call) × (e : SendError) × (o.calls ≡ call ∷ [])
    × (out.send call ≡ err e)
    × (repeatable ≡ true)
    × (is_retryable_send_error out e ≡ true)
    × (out.clock + base_delay out.settings ≤ now)

module _ (out : Outside) (now stale : ℕ) where
  abbrev Retried : Bool → Outcome → Type 0
  Retried repeatable o =
      (m : StoredMessage)
      → o.stored ≡ some m
      → m.row.status ≢ MessageStatus.pending
      → (is_candidate now stale m.row ≡ true) ↔ IsDue out repeatable o now

  refused-Retried : (repeatable : Bool) (e : SendError) → Retried repeatable (refused e)
  unfolding refused
  refused-Retried repeatable e m h n = cc

  mark_failed_candidate :
      (m : StoredMessage) (e : SendError)
      → (is_candidate now stale (mark_failed out m e).row ≡ true) ↔ (
          (is_some m.row.retry ≡ true)
          × (is_retryable_send_error out e ≡ true)
          × (out.clock + base_delay out.settings ≤ now))
  unfolding mark_failed is_candidate
  mark_failed_candidate m e = (λ h. (ground arith, ground arith, ground arith), λ k. ground arith)

  -- No row is due after a call that the engine accepted.
  accepted-IsDue :
      (repeatable : Bool) (o : Outcome) (call : Call) (r : String × ℕ)
      → o.calls ≡ call ∷ []
      → out.send call ≡ ok r
      → ¬ (IsDue out repeatable o now)
  accepted-IsDue repeatable o call r c q (call', e, c', q', b, k, t) = cc

  of_stored :
      (repeatable : Bool) (o : Outcome) (m : StoredMessage)
      → o.stored ≡ some m
      → (is_candidate now stale m.row ≡ true) ↔ IsDue out repeatable o now
      → Retried repeatable o
  of_stored repeatable o m e h m' stored n =
      let same : m ≡ m' = cc in
      subst (λ x. (is_candidate now stale x.row ≡ true) ↔ IsDue out repeatable o now) same h

  of_pending :
      (repeatable : Bool) (o : Outcome) (m : StoredMessage)
      → o.stored ≡ some m
      → m.row.status ≡ MessageStatus.pending
      → Retried repeatable o
  of_pending repeatable o m e h m' stored n =
      let same : m ≡ m' = cc in
      absurd (n (subst (λ x. x.row.status ≡ MessageStatus.pending) same h))

  of_accepted :
      (repeatable : Bool) (o : Outcome) (m : StoredMessage) (call : Call) (r : String × ℕ)
      → o.stored ≡ some m
      → o.calls ≡ call ∷ []
      → out.send call ≡ ok r
      → is_candidate now stale m.row ≡ false
      → Retried repeatable o
  of_accepted repeatable o m call r e c q never =
      of_stored repeatable o m e (λ h. cc, λ d. absurd (accepted-IsDue repeatable o call r c q d))

  unsent_again :
      (m : StoredMessage) (sent : String × ℕ) (e : SendError)
      → is_candidate now stale (mark_failed out (mark_sent out m sent) e).row ≡ false
  unfolding mark_failed mark_sent is_candidate
  unsent_again m sent e = refl

  give_up_refused :
      (repeatable : Bool) (m : StoredMessage) (call : Call) (e : SendError)
      → m.row.status ≡ MessageStatus.pending
      → is_some m.row.retry ≡ repeatable
      → out.send call ≡ err e
      → Retried repeatable (give_up out m m (call ∷ []) e)
  unfolding give_up
  give_up_refused repeatable m call e h r q =
      elim (Result-cases (out.write (mark_failed out m e))) [
        | inr (x, w) ↦
            of_pending repeatable (give_up out m m (call ∷ []) e) m (rw (give_up, w) refl) h
        | inl (u, w) ↦
            let iff = mark_failed_candidate m e in
            let asked : (give_up out m m (call ∷ []) e).calls ≡ call ∷ [] = rw (give_up, w) refl in
            of_stored repeatable (give_up out m m (call ∷ []) e) (mark_failed out m e)
              (rw (give_up, w) refl)
              (
                (λ c. let (k, p, t) = iff.0 c in (call, e, asked, q, cc, p, t)),
                (λ d. let (call', e', c, q', b, p, t) = d in iff.1 (cc, cc, t)),
              )
      ]

  give_up_accepted :
      (repeatable : Bool) (m : StoredMessage) (call : Call) (sent : String × ℕ) (e : SendError)
      → m.row.status ≡ MessageStatus.pending
      → out.send call ≡ ok sent
      → Retried repeatable (give_up out m (mark_sent out m sent) (call ∷ []) e)
  unfolding give_up mark_sent
  give_up_accepted repeatable m call sent e h q =
      elim (Result-cases (out.write (mark_failed out (mark_sent out m sent) e))) [
        | inr (x, w) ↦
            of_pending repeatable (give_up out m (mark_sent out m sent) (call ∷ []) e) m
              (rw (give_up, w) refl) h
        | inl (u, w) ↦
            of_accepted repeatable (give_up out m (mark_sent out m sent) (call ∷ []) e)
              (mark_failed out (mark_sent out m sent) e) call sent (rw (give_up, w) refl)
              (rw (give_up, w) refl) q (unsent_again m sent e)
      ]

  transmit-Retried :
      (repeatable : Bool) (m : StoredMessage) (call : Call)
      → m.row.status ≡ MessageStatus.pending
      → is_some m.row.retry ≡ repeatable
      → Retried repeatable (transmit out m call)
  unfolding transmit mark_sent is_candidate
  transmit-Retried repeatable m call h r = elim (Result-cases (out.send call)) [
    | inr (e, q) ↦ rw (transmit, q) (give_up_refused repeatable m call e h r q)
    | inl (sent, q) ↦ elim (Result-cases (out.write (mark_sent out m sent))) [
      | inr (e, w) ↦ rw (transmit, q, w) (give_up_accepted repeatable m call sent e h q)
      | inl (u, w) ↦
          of_accepted repeatable (transmit out m call) (mark_sent out m sent) call sent
            (rw (transmit, q, w) refl) (rw (transmit, q, w) refl) q refl
    ]
  ]

-- Once the table has recorded how a send has ended, the scan for retries takes the row up exactly when
-- the engine refused it with an error that may pass, the operation is no forward, and the base delay
-- is over.
pub perform_retried_iff :
    (out : Outside) (s : String) (op : Operation) (m : StoredMessage) (now stale : ℕ)
    → (perform out s op).stored ≡ some m
    → m.row.status ≢ MessageStatus.pending
    → (is_candidate now stale m.row ≡ true) ↔ IsDue out (is_repeatable op) (perform out s op) now
perform_retried_iff out s op m now stale =
    perform_all out (is_repeatable op) (Retried out now stale (is_repeatable op))
      (refused-Retried out now stale (is_repeatable op))
      (transmit-Retried out now stale (is_repeatable op)) s op refl m
