-- ===== src/Engine/BaileysStore/Newest.antt =====
-- The last message that the store keeps of a chat.
use wp_open_aurora.Prelude.{
  ℕ, max, String, false, Option, none, some, List, [], ◌∷◌, ◌≡◌, ap, ◌∙◌, arith, inl, inr, ◌==◌,
  if◌then◌else◌, is_empty, Map, get, get-put, eq_iff, Bool-cases, Option-cases,
}
use wp_open_aurora.Engine.BaileysStore.{
  LastMessage, WaMessage, chat_of, time_of, text_of, record_message, record_messages,
}

-- The time of the newest message of a chat, or 0.
abbrev pub newest : String → List WaMessage → ℕ
newest chat [] = 0
newest chat (m ∷ ms) = max (if chat_of m == chat then time_of m else 0) (newest chat ms)

abbrev pub last_time : Option LastMessage → ℕ
last_time none = 0
last_time (some m) = m.timestamp

record_message_time :
    (chat : String) (m : WaMessage) (last : Map LastMessage)
    → is_empty chat ≡ false
    → last_time (get chat (record_message m last))
      ≡ max (last_time (get chat last)) (if chat_of m == chat then time_of m else 0)
unfolding record_message
record_message_time chat m last h =
    let new : LastMessage = record { key = m.key; timestamp = time_of m; text = text_of m } in
    elim (Bool-cases (chat_of m == chat)) [
      | inr other ↦ ground (arith, other, get-put (chat_of m) chat new last)
      | inl here ↦
          let same : chat_of m ≡ chat = (eq_iff (chat_of m) chat).0 here in
          let blank : is_empty (chat_of m) ≡ false = ap is_empty same ∙ h in
          let found : get (chat_of m) last ≡ get chat last = ap (λ c. get c last) same in
          elim (Option-cases (get chat last)) [
            | inl e ↦ ground (arith, here, blank, found, e, get-put (chat_of m) chat new last)
            | inr (old, e) ↦
                ground (arith, here, blank, found, e, get-put (chat_of m) chat new last)
          ]
    ]

-- Whatever the order in which messages arrive, the last message that is kept of a chat has the time of
-- the newest one, of these or of those before.
pub record_messages_time :
    (chat : String) (ms : List WaMessage) (last : Map LastMessage)
    → is_empty chat ≡ false
    → last_time (get chat (record_messages ms last))
      ≡ max (last_time (get chat last)) (newest chat ms)
unfolding record_messages
record_messages_time chat [] last h = omega arith
record_messages_time chat (m ∷ ms) last h = omega (
  arith,
  record_messages_time chat ms (record_message m last) h,
  record_message_time chat m last h,
)
