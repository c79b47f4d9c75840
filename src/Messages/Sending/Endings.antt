-- ===== src/Messages/Sending/Endings.antt =====
-- How a send of the API ends, for each operation.
use wp_open_aurora.Prelude.{ℕ, String, none, some, [], ◌∷◌, ◌≡◌, refl, inl, inr}
use wp_open_aurora.Prelude.Results.{ok, err, Result-cases}
use wp_open_aurora.Messages.Status.{MessageStatus}
use wp_open_aurora.Messages.Sending.{SendError, StoredMessage, Call, Outside, Outcome, refused}
use wp_open_aurora.Messages.Sending.Steps.{mark_sent, mark_failed, give_up, transmit}
use wp_open_aurora.Messages.Sending.Every.{Operation, perform, is_repeatable, perform_all}

-- A row of the table after a send that the engine accepted.
pub record IsSent (m : StoredMessage) (r : String × ℕ) : Type 0 where
  pub status : m.row.status ≡ MessageStatus.sent
  pub wa_message_id : m.row.wa_message_id ≡ some r.0
  pub timestamp : m.row.timestamp ≡ r.1
  pub unscheduled : m.row.next_retry_at ≡ none

-- The four ends: refused before anything is done, sent, failed, or not recorded.
pub data Ending (out : Outside) (o : Outcome) : Type 0 where
  refused_before :
      (e : SendError) → o.stored ≡ none → o.calls ≡ [] → o.answer ≡ err e → Ending out o
  sent :
      (m : StoredMessage) (call : Call) (r : String × ℕ)
      → o.stored ≡ some m
      → o.calls ≡ call ∷ []
      → out.send call ≡ ok r
      → IsSent m r
      → o.answer ≡ ok r
      → Ending out o
  failed :
      (m : StoredMessage) (call : Call) (e : SendError)
      → o.stored ≡ some m
      → o.calls ≡ call ∷ []
      → m.row.status ≡ MessageStatus.failed
      → o.answer ≡ err e
      → Ending out o
  unrecorded :
      (m m' : StoredMessage) (call : Call) (e : SendError)
      → o.stored ≡ some m
      → o.calls ≡ call ∷ []
      → m.row.status ≡ MessageStatus.pending
      → out.write m' ≡ err e
      → o.answer ≡ err e
      → Ending out o

module _ (out : Outside) where
  give_up-Ending :
      (m m' : StoredMessage) (call : Call) (e : SendError)
      → m.row.status ≡ MessageStatus.pending
      → Ending out (give_up out m m' (call ∷ []) e)
  unfolding give_up mark_failed
  give_up-Ending m m' call e h = elim (Result-cases (out.write (mark_failed out m' e))) [
    | inl (u, w) ↦ rw (give_up, w) (Ending.failed (mark_failed out m' e) call _ refl refl refl refl)
    | inr (x, w) ↦
        rw (give_up, w) (Ending.unrecorded m (mark_failed out m' e) call x refl refl h w refl)
  ]

  transmit-Ending :
      (m : StoredMessage) (call : Call)
      → m.row.status ≡ MessageStatus.pending
      → Ending out (transmit out m call)
  unfolding transmit mark_sent
  transmit-Ending m call h = elim (Result-cases (out.send call)) [
    | inr (e, q) ↦ rw (transmit, q) (give_up-Ending m m call e h)
    | inl (r, q) ↦ elim (Result-cases (out.write (mark_sent out m r))) [
      | inr (e, w) ↦ rw (transmit, q, w) (give_up-Ending m (mark_sent out m r) call e h)
      | inl (u, w) ↦
          rw (transmit, q, w)
            (Ending.sent (mark_sent out m r) call r refl refl q
              (record { status = refl; wa_message_id = refl; timestamp = refl; unscheduled = refl })
              refl)
    ]
  ]

  refused-Ending : (e : SendError) → Ending out (refused e)
  unfolding refused
  refused-Ending e = Ending.refused_before e refl refl refl

  -- Whatever a send of the API meets, it ends in one of four ways: refused with no row and nothing
  -- asked of the engine; sent, with the row and the answer as the engine told; failed, with the row
  -- stored as failed; or, if the last write throws, with the row left pending and that error. The
  -- engine is asked at most once.
  pub perform-Ending : (s : String) (op : Operation) → Ending out (perform out s op)
  perform-Ending s op =
      perform_all out (is_repeatable op) (Ending out) refused-Ending
        (λ m call h r. transmit-Ending m call h) s op refl
