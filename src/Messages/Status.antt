-- ===== src/Messages/Status.antt =====
-- src/modules/message/message-status.util.ts, and the `onMessageAck` handler of
-- src/modules/session/session.service.ts: how receipts advance the stored status of a message.
pub mod Forward
use wp_open_aurora.Prelude.{
  ℕ, String, Bool, true, false, ◌&&◌, Option, none, some, List, [], ◌∷◌, map, any, ◌==◌,
  if◌then◌else◌,
}
use wp_open_aurora.Prelude.Int.{ℤ, pos, negsuc}

pub data MessageStatus : Type 0 where
  pending sent delivered read failed : MessageStatus

pub data DeliveryStatus : Type 0 where
  pending sent delivered read failed : DeliveryStatus

unfoldable pub delivery_status_to_message_status : DeliveryStatus → Option MessageStatus
delivery_status_to_message_status DeliveryStatus.failed = some MessageStatus.failed
delivery_status_to_message_status DeliveryStatus.read = some MessageStatus.read
delivery_status_to_message_status DeliveryStatus.delivered = some MessageStatus.delivered
delivery_status_to_message_status _ = none

unfoldable pub delivery_status_to_ack : DeliveryStatus → ℤ
delivery_status_to_ack DeliveryStatus.failed = negsuc 0
delivery_status_to_ack DeliveryStatus.read = pos 3
delivery_status_to_ack DeliveryStatus.delivered = pos 2
delivery_status_to_ack DeliveryStatus.sent = pos 1
delivery_status_to_ack DeliveryStatus.pending = pos 0

unfoldable pub ack_status_transition_from : MessageStatus → List MessageStatus
ack_status_transition_from MessageStatus.delivered = MessageStatus.pending ∷ MessageStatus.sent ∷ []
ack_status_transition_from MessageStatus.read =
    MessageStatus.pending ∷ MessageStatus.sent ∷ MessageStatus.delivered ∷ []
ack_status_transition_from MessageStatus.failed = MessageStatus.pending ∷ MessageStatus.sent ∷ []
ack_status_transition_from _ = []

abbrev pub same_status : MessageStatus → MessageStatus → Bool
same_status MessageStatus.pending MessageStatus.pending = true
same_status MessageStatus.sent MessageStatus.sent = true
same_status MessageStatus.delivered MessageStatus.delivered = true
same_status MessageStatus.read MessageStatus.read = true
same_status MessageStatus.failed MessageStatus.failed = true
same_status _ _ = false

pub record StoredMessage : Type 0 where
  pub session_id : String
  pub wa_message_id : String
  pub status : MessageStatus

-- `status: In(ackStatusTransitionFrom(target))`
abbrev may_advance : MessageStatus → MessageStatus → Bool
may_advance target status = any (λ s. same_status s status) (ack_status_transition_from target)

advance : MessageStatus → MessageStatus → MessageStatus
advance target status = if may_advance target status then target else status

-- The conditional update of one row.
abbrev update_row : String → String → MessageStatus → StoredMessage → StoredMessage
update_row session_id message_id target m =
    if m.session_id == session_id && m.wa_message_id == message_id
    then record m { status = advance target m.status }
    else m

-- The write of `onMessageAck` to the table of messages.
unfoldable pub on_message_ack :
    String → String → DeliveryStatus → List StoredMessage → List StoredMessage
unfolding delivery_status_to_message_status ack_status_transition_from advance
on_message_ack session_id message_id status rows = elim (delivery_status_to_message_status status) [
  | none ↦ rows
  | some target ↦ map (update_row session_id message_id target) rows
]
