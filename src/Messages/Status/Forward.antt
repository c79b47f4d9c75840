-- ===== src/Messages/Status/Forward.antt =====
-- Receipts in any order only move a message forward.
use mathlib.Core.List.{map-id, map-map}
use wp_open_aurora.Prelude.{
  ℕ, max, eqb, String, Bool, none, some, List, [], ◌∷◌, map, ◌==◌, ◌&&◌, ◌≡◌, ◌≢◌, ◌⊎◌, inl, inr,
  refl, sym, ap, fun_ext, ◌∙◌, Bool-cases, Option-cases, arith, if◌then◌else◌,
}
use wp_open_aurora.Messages.Status.{
  MessageStatus, DeliveryStatus, StoredMessage, delivery_status_to_message_status,
  ack_status_transition_from, advance, update_row, on_message_ack,
}

-- The history of one row: the receipts for it, in the order of their arrival.
abbrev receive : DeliveryStatus → MessageStatus → MessageStatus
receive d s = elim (delivery_status_to_message_status d) [
  | none ↦ s
  | some target ↦ advance target s
]

pub receive_all : List DeliveryStatus → MessageStatus → MessageStatus
receive_all [] s = s
receive_all (d ∷ ds) s = receive_all ds (receive d s)

-- How far a message has come; a failed one is told apart by `IsFailed`.
abbrev pub progress : MessageStatus → ℕ
progress MessageStatus.pending = 0
progress MessageStatus.sent = 1
progress MessageStatus.delivered = 2
progress MessageStatus.read = 3
progress MessageStatus.failed = 0

abbrev confirmed : DeliveryStatus → ℕ
confirmed DeliveryStatus.delivered = 2
confirmed DeliveryStatus.read = 3
confirmed _ = 0

abbrev pub best : List DeliveryStatus → ℕ
best [] = 0
best (d ∷ ds) = max (confirmed d) (best ds)

abbrev NoFailure : List DeliveryStatus → Type 0
NoFailure [] = Unit
NoFailure (d ∷ ds) = (d ≢ DeliveryStatus.failed) × NoFailure ds

receive_progress :
    (d : DeliveryStatus) (s : MessageStatus)
    → d ≢ DeliveryStatus.failed
    → s ≢ MessageStatus.failed
    → (progress (receive d s) ≡ max (progress s) (confirmed d))
      × (receive d s ≢ MessageStatus.failed)
unfolding delivery_status_to_message_status ack_status_transition_from advance
receive_progress DeliveryStatus.pending s n m = (omega arith, m)
receive_progress d MessageStatus.pending n m = ground arith
receive_progress d MessageStatus.sent n m = ground arith
receive_progress d MessageStatus.delivered n m = ground arith
receive_progress d MessageStatus.read n m = ground arith
receive_progress d MessageStatus.failed n m = absurd (m refl)

receive_all_progress :
    (ds : List DeliveryStatus) (s : MessageStatus)
    → NoFailure ds
    → s ≢ MessageStatus.failed
    → progress (receive_all ds s) ≡ max (progress s) (best ds)
unfolding receive_all
receive_all_progress [] s n m = omega arith
receive_all_progress (d ∷ ds) s (n, ns) m =
    let (here, still) = receive_progress d s n m in
    omega (arith, here, receive_all_progress ds (receive d s) ns still)

abbrev pub is_for : String → String → StoredMessage → Bool
is_for session_id message_id m = m.session_id == session_id && m.wa_message_id == message_id

-- A history of receipts for one message of one session.
pub receive_acks : String → String → List DeliveryStatus → List StoredMessage → List StoredMessage
receive_acks session_id message_id [] rows = rows
receive_acks session_id message_id (d ∷ ds) rows =
    receive_acks session_id message_id ds (on_message_ack session_id message_id d rows)

abbrev received : String → String → List DeliveryStatus → StoredMessage → StoredMessage
received session_id message_id ds m =
    if is_for session_id message_id m then record m { status = receive_all ds m.status } else m

map-congr : {A B : Type 0} (f g : A → B) (xs : List A) → ((x : A) → f x ≡ g x) → map f xs ≡ map g xs
map-congr f g xs h = ap (λ (k : _ → _). map k xs) (fun_ext h)

on_message_ack-received :
    (session_id message_id : String) (d : DeliveryStatus) (rows : List StoredMessage)
    → on_message_ack session_id message_id d rows
      ≡ map (received session_id message_id (d ∷ [])) rows
unfolding on_message_ack receive_all
on_message_ack-received session_id message_id d rows =
    elim (Option-cases (delivery_status_to_message_status d)) [
      | inl e ↦
          rw (e, on_message_ack) (sym (map-id rows) ∙ map-congr (λ m. m) _ rows (λ m. ground arith))
      | inr (target, e) ↦
          rw (e, on_message_ack)
            (map-congr (update_row session_id message_id target) _ rows (λ m. ground arith))
    ]

received-cons :
    (session_id message_id : String) (d : DeliveryStatus) (ds : List DeliveryStatus)
    (m : StoredMessage)
    → received session_id message_id ds (received session_id message_id (d ∷ []) m)
      ≡ received session_id message_id (d ∷ ds) m
unfolding receive_all
received-cons session_id message_id d ds m = elim (Bool-cases (is_for session_id message_id m)) [
  | inl e ↦ rw (e, e)
  | inr e ↦ rw (e, e)
]

receive_acks-received :
    (session_id message_id : String) (ds : List DeliveryStatus) (rows : List StoredMessage)
    → receive_acks session_id message_id ds rows ≡ map (received session_id message_id ds) rows
unfolding receive_acks receive_all
receive_acks-received session_id message_id [] rows =
    sym (map-id rows) ∙ map-congr (λ m. m) _ rows (λ m. ground arith)
receive_acks-received session_id message_id (d ∷ ds) rows =
    rw
      (
        receive_acks-received session_id message_id ds
            (on_message_ack session_id message_id d rows),
        on_message_ack-received session_id message_id d rows,
      )
      (map-map _ _ rows ∙ map-congr _ _ rows (received-cons session_id message_id d ds))

receive_failed :
    (ds : List DeliveryStatus) → receive_all ds MessageStatus.failed ≡ MessageStatus.failed
unfolding receive_all delivery_status_to_message_status ack_status_transition_from advance
receive_failed [] = refl
receive_failed (d ∷ ds) = ground (arith, receive_failed ds)

-- The state that is so far.
abbrev pub state_at : ℕ → MessageStatus
state_at n =
    if eqb n 0
    then MessageStatus.pending
    else if eqb n 1
    then MessageStatus.sent
    else if eqb n 2
    then MessageStatus.delivered
    else MessageStatus.read

-- The state that receipts without a failure should lead to: a failed message stays failed, and any other
-- is as far as it was or as one of them confirms.
abbrev pub farthest : List DeliveryStatus → MessageStatus → MessageStatus
farthest ds MessageStatus.failed = MessageStatus.failed
farthest ds s = state_at (max (progress s) (best ds))

state_at-progress : (s : MessageStatus) → s ≢ MessageStatus.failed → state_at (progress s) ≡ s
state_at-progress MessageStatus.failed n = absurd (n refl)
state_at-progress s n = refl

receive_all-not_failed :
    (ds : List DeliveryStatus) (s : MessageStatus)
    → NoFailure ds
    → s ≢ MessageStatus.failed
    → receive_all ds s ≢ MessageStatus.failed
unfolding receive_all
receive_all-not_failed [] s n m = m
receive_all-not_failed (d ∷ ds) s (n, ns) m =
    receive_all-not_failed ds (receive d s) ns (receive_progress d s n m).1

receive_all-state_at :
    (ds : List DeliveryStatus) (s : MessageStatus)
    → NoFailure ds
    → s ≢ MessageStatus.failed
    → receive_all ds s ≡ state_at (max (progress s) (best ds))
receive_all-state_at ds s n m =
    sym (state_at-progress (receive_all ds s) (receive_all-not_failed ds s n m))
    ∙ ap state_at (receive_all_progress ds s n m)

receive_all-farthest :
    (ds : List DeliveryStatus) (s : MessageStatus) → NoFailure ds → receive_all ds s ≡ farthest ds s
receive_all-farthest ds MessageStatus.failed n = receive_failed ds
receive_all-farthest ds s n = receive_all-state_at ds s n (λ e. ground arith)

-- Receipts without a failure, in whatever order and however often they arrive, bring a message that
-- has not failed to the farthest state that one of them confirms or that it had, and leave it if it
-- has failed; the messages of other sessions and the other messages of the session stay as they are.
pub receive_acks_progress :
    (session_id message_id : String) (ds : List DeliveryStatus) (rows : List StoredMessage)
    → NoFailure ds
    → receive_acks session_id message_id ds rows
      ≡ map
          (λ m.
            if is_for session_id message_id m
            then record m { status = farthest ds m.status }
            else m)
          rows
receive_acks_progress session_id message_id ds rows n =
    receive_acks-received session_id message_id ds rows
    ∙ map-congr _ _ rows (λ m. rw (receive_all-farthest ds m.status n) refl)

receive_settled :
    (d : DeliveryStatus) (s : MessageStatus)
    → (s ≡ MessageStatus.failed → receive d s ≡ MessageStatus.failed)
      × (s ≡ MessageStatus.read → receive d s ≡ MessageStatus.read)
      × (s ≡ MessageStatus.delivered
          → (receive d s ≡ MessageStatus.delivered) ⊎ (receive d s ≡ MessageStatus.read))
unfolding delivery_status_to_message_status ack_status_transition_from advance
receive_settled d s = (λ e. ground arith, λ e. ground arith, λ e. ground arith)

-- No receipt undoes a settled state: a failed message stays failed, a read one stays read, and a
-- delivered one can only become read, so it never fails.
pub receive_all_settled :
    (ds : List DeliveryStatus)
    → (receive_all ds MessageStatus.failed ≡ MessageStatus.failed)
      × (receive_all ds MessageStatus.read ≡ MessageStatus.read)
      × ((receive_all ds MessageStatus.delivered ≡ MessageStatus.delivered)
          ⊎ (receive_all ds MessageStatus.delivered ≡ MessageStatus.read))
unfolding receive_all
receive_all_settled [] = (refl, refl, inl refl)
receive_all_settled (d ∷ ds) =
    let later = receive_all_settled ds in
    ground (
      arith,
      later,
      (receive_settled d MessageStatus.failed).0 refl,
      (receive_settled d MessageStatus.read).1 refl,
      (receive_settled d MessageStatus.delivered).2 refl,
    )
