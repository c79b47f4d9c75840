-- ===== src/Messages/Address/Target.antt =====
-- The number that stands behind a privacy id is that of the other side.
use wp_open_aurora.Prelude.{
  String, true, false, Option, some, List, [], ◌∷◌, ◌≡◌, ◌⊎◌, inl, inr, refl, arith, ◌==◌, is_empty,
  Option-cases, Bool-cases,
}
use wp_open_aurora.Prelude.Results.{ok, Result-cases}
use wp_open_aurora.Prelude.Text.{ends_with}
use wp_open_aurora.Messages.Address.{
  Directory, StoredAddress, privacy_id_digits, own_digits, normalize_candidate, first_phone,
  scan_stored, stored_phone, live_phone, contact_phone, resolve_chat_phone, canonical_id,
  resolve_send_chat_id, take, candidates_of,
}

-- A number that is not blank, is not the privacy id, and is not that of the account itself.
pub record IsOther (d : Directory) (chat_id phone : String) : Type 0 where
  pub filled : is_empty phone ≡ false
  pub not_private : (phone == privacy_id_digits chat_id) ≡ false
  pub not_own : (phone == own_digits d) ≡ false

module _ (d : Directory) (chat_id : String) where
  normalize_candidate-IsOther :
      (value : Option String) {phone : String}
      → normalize_candidate d chat_id value ≡ some phone
      → IsOther d chat_id phone
  unfolding normalize_candidate
  normalize_candidate-IsOther value h = ground arith

  first_phone-IsOther :
      (cs : List (Option String)) {phone : String}
      → first_phone d chat_id cs ≡ some phone
      → IsOther d chat_id phone
  unfolding first_phone
  first_phone-IsOther [] h = ground arith
  first_phone-IsOther (c ∷ cs) {phone} h =
      ground (
        arith,
        normalize_candidate-IsOther c {phone = phone},
        first_phone-IsOther cs {phone = phone},
      )

  scan_stored-IsOther :
      (ms : List StoredAddress) {phone : String}
      → scan_stored d chat_id ms ≡ some phone
      → IsOther d chat_id phone
  unfolding scan_stored
  scan_stored-IsOther [] h = ground arith
  scan_stored-IsOther (m ∷ ms) {phone} h =
      elim (Option-cases (first_phone d chat_id (candidates_of d m))) [
        | inl e ↦ scan_stored-IsOther ms {phone = phone} (ground (arith, e))
        | inr (p, e) ↦ first_phone-IsOther (candidates_of d m) {phone = phone} (ground (arith, e))
      ]

  stored_phone-IsOther :
      {phone : String} → stored_phone d chat_id ≡ some phone → IsOther d chat_id phone
  unfolding stored_phone
  stored_phone-IsOther {phone} h = elim (Result-cases (d.stored_messages chat_id)) [
    | inl (ms, e) ↦ scan_stored-IsOther (take 25 ms) {phone = phone} (ground (arith, e))
    | inr (x, e) ↦ ground (arith, e)
  ]

  live_phone-IsOther :
      {phone : String} → live_phone d chat_id ≡ some phone → IsOther d chat_id phone
  unfolding live_phone
  live_phone-IsOther {phone} h = elim (Result-cases (d.resolve_contact_phone chat_id)) [
    | inl (value, e) ↦ normalize_candidate-IsOther value {phone = phone} (ground (arith, e))
    | inr (x, e) ↦ ground (arith, e)
  ]

  contact_phone-IsOther :
      {phone : String} → contact_phone d chat_id ≡ some phone → IsOther d chat_id phone
  unfolding contact_phone
  contact_phone-IsOther {phone} h = elim (Result-cases (d.contact_number chat_id)) [
    | inl (value, e) ↦ normalize_candidate-IsOther value {phone = phone} (ground (arith, e))
    | inr (x, e) ↦ ground (arith, e)
  ]

  resolve_chat_phone-IsOther :
      {phone : String} → resolve_chat_phone d chat_id ≡ some phone → IsOther d chat_id phone
  unfolding resolve_chat_phone
  resolve_chat_phone-IsOther {phone} h = elim (Option-cases (stored_phone d chat_id)) [
    | inr (p, e) ↦ stored_phone-IsOther {phone = phone} (ground (arith, e))
    | inl e ↦ elim (Option-cases (live_phone d chat_id)) [
      | inr (p, f) ↦ live_phone-IsOther {phone = phone} (ground (arith, e, f))
      | inl f ↦ contact_phone-IsOther {phone = phone} (ground (arith, e, f))
    ]
  ]

  canonical_id-cases :
      (phone : String)
      → (canonical_id d chat_id phone ≡ chat_id)
        ⊎ (d.get_number_id phone ≡ ok (some (canonical_id d chat_id phone)))
  unfolding canonical_id
  canonical_id-cases phone = elim (Result-cases (d.get_number_id phone)) [
    | inr (x, e) ↦ inl (rw (canonical_id, e) refl)
    | inl (found, e) ↦ elim (Option-cases found) [
      | inl f ↦ inl (rw (canonical_id, e, f) refl)
      | inr (id, f) ↦ elim (Bool-cases (is_empty id)) [
        | inl g ↦ inl (ground (arith, e, f, g))
        | inr g ↦ inr (ground (arith, e, f, g))
      ]
    ]
  ]

  -- A send goes to the chat that it names, unless that is a privacy id; then it may go to the id that
  -- the engine has for a number, which is neither blank nor the digits of the privacy id nor the
  -- number of the account.
  pub resolve_send_chat_id_target :
      (resolve_send_chat_id d chat_id ≡ chat_id)
      ⊎ ((phone : String) × (ends_with chat_id "@lid" ≡ true)
          × (d.get_number_id phone ≡ ok (some (resolve_send_chat_id d chat_id)))
          × IsOther d chat_id phone)
  unfolding resolve_send_chat_id
  resolve_send_chat_id_target = elim (Bool-cases (ends_with chat_id "@lid")) [
    | inr e ↦ inl (rw (e) refl)
    | inl e ↦ elim (Option-cases (resolve_chat_phone d chat_id)) [
      | inl f ↦ inl (rw (e, f) refl)
      | inr (phone, f) ↦ elim (canonical_id-cases phone) [
        | inl g ↦ inl (rw (e, f) g)
        | inr g ↦ inr (phone, e, rw (e, f) g, resolve_chat_phone-IsOther {phone = phone} f)
      ]
    ]
  ]
