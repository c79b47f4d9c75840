-- ===== src/Messages/Address.antt =====
-- src/modules/message/message.service.ts: the phone number behind the privacy id of a chat, and the
-- chat that a send goes to. The engine's three lookups may throw (`err`); so may the query of the
-- stored messages, and a session that is missing has no phone.
pub mod Target
use wp_open_aurora.Prelude.{
  ℕ, zero, suc, String, Bool, true, false, ◌||◌, Option, none, some, List, [], ◌∷◌, ◌==◌,
  or_default, if◌then◌else◌, is_empty,
}
use wp_open_aurora.Prelude.Results.{Result, ok, err}
use wp_open_aurora.Prelude.Text.{digits_only, ends_with, split, part}

-- The columns of a stored message that may name the other side.
pub record StoredAddress : Type 0 where
  pub sender_phone : Option String
  pub author : Option String
  pub from : String
  pub to : String

pub record Directory : Type 0 where
  pub session_phone : Option String
  pub stored_messages : String → Result String (List StoredAddress)
  pub resolve_contact_phone : String → Result String (Option String)
  pub contact_number : String → Result String (Option String)
  pub get_number_id : String → Result String (Option String)

unfoldable pub take {ℓ} : {A : Type ℓ} → ℕ → List A → List A
take zero xs = []
take (suc n) [] = []
take (suc n) (x ∷ xs) = x ∷ take n xs

abbrev contact_address_scan_limit : ℕ
contact_address_scan_limit = 25

unfoldable pub privacy_id_digits : String → String
unfolding digits_only ends_with split
privacy_id_digits chat_id =
    if ends_with chat_id "@lid" then digits_only (part (split b'@' chat_id) 0) else ""

module _ (d : Directory) where
  open d use {session_phone, stored_messages, resolve_contact_phone, contact_number, get_number_id}

  unfoldable pub own_digits : String
  unfolding digits_only
  own_digits = digits_only (or_default session_phone "")

  unfoldable pub normalize_candidate : String → Option String → Option String
  unfolding privacy_id_digits own_digits digits_only
  normalize_candidate chat_id value =
      let digits = digits_only (or_default value "") in
      if is_empty digits || digits == privacy_id_digits chat_id
      then none
      else if digits == own_digits
      then none
      else some digits

  -- The first candidate with a number.
  unfoldable pub first_phone : String → List (Option String) → Option String
  unfolding normalize_candidate
  first_phone chat_id [] = none
  first_phone chat_id (c ∷ cs) = elim (normalize_candidate chat_id c) [
    | some phone ↦ some phone
    | none ↦ first_phone chat_id cs
  ]

  abbrev pub candidates_of : StoredAddress → List (Option String)
  candidates_of m = m.sender_phone ∷ m.author ∷ some m.from ∷ some m.to ∷ []

  unfoldable pub scan_stored : String → List StoredAddress → Option String
  unfolding first_phone
  scan_stored chat_id [] = none
  scan_stored chat_id (m ∷ ms) = elim (first_phone chat_id (candidates_of m)) [
    | some phone ↦ some phone
    | none ↦ scan_stored chat_id ms
  ]

  -- The fast path; a failed query falls through.
  unfoldable pub stored_phone : String → Option String
  unfolding scan_stored take
  stored_phone chat_id = elim (stored_messages chat_id) [
    | ok ms ↦ scan_stored chat_id (take contact_address_scan_limit ms)
    | err _ ↦ none
  ]

  unfoldable pub live_phone : String → Option String
  unfolding normalize_candidate
  live_phone chat_id = elim (resolve_contact_phone chat_id) [
    | ok value ↦ normalize_candidate chat_id value
    | err _ ↦ none
  ]

  unfoldable pub contact_phone : String → Option String
  unfolding normalize_candidate
  contact_phone chat_id = elim (contact_number chat_id) [
    | ok value ↦ normalize_candidate chat_id value
    | err _ ↦ none
  ]

  unfoldable pub resolve_chat_phone : String → Option String
  unfolding stored_phone live_phone contact_phone
  resolve_chat_phone chat_id = elim (stored_phone chat_id) [
    | some phone ↦ some phone
    | none ↦ elim (live_phone chat_id) [ some phone ↦ some phone | none ↦ contact_phone chat_id ]
  ]

  -- `(await engine.getNumberId(phone)) || chatId`
  unfoldable pub canonical_id : String → String → String
  canonical_id chat_id phone = elim (get_number_id phone) [
    | err _ ↦ chat_id
    | ok none ↦ chat_id
    | ok (some id) ↦ if is_empty id then chat_id else id
  ]

  unfoldable pub resolve_send_chat_id : String → String
  unfolding resolve_chat_phone canonical_id ends_with
  resolve_send_chat_id chat_id =
      if ends_with chat_id "@lid"
      then elim (resolve_chat_phone chat_id) [
        | none ↦ chat_id
        | some phone ↦ canonical_id chat_id phone
      ]
      else chat_id
