-- ===== src/History/Rows.antt =====
-- The rows of a session after messages have been stored.
use wp_open_aurora.Prelude.{
  ◌+◌, String, true, Option, none, some, List, [], ◌∷◌, ◌≡◌, refl, arith, inl, inr, filter, find,
  length, ◌==◌, if◌then◌else◌, is_some, eq_iff, eq_refl, Bool-cases, Option-cases, ap, All, ◌∙◌,
}
use wp_open_aurora.History.{
  IncomingMessage, Media, Row, has_wa_id, is_final, update_row, create_row, incoming,
  archive_message, upsert, upsert_all, normalized, persist_messages,
}

abbrev pub row_of : String → List Row → Option Row
row_of id rows = find (has_wa_id id) rows

All-map {ℓ κ μ} :
    {A : Type ℓ} {P : A → Type κ} {Q : A → Type μ} (xs : List A)
    → All P xs
    → ((x : A) → P x → Q x)
    → All Q xs
All-map [] h f = tt
All-map (x ∷ xs) (p, h) f = (f x p, All-map xs h f)

module _ (archive : IncomingMessage → Media → Option Media) where
  -- What one message makes of the row with its id, or of none.
  unfoldable pub stored : IncomingMessage → Option Row → Row
  stored m none = create_row (archive_message archive m)
  stored m (some r) = update_row (incoming archive m r) r

  -- What messages make of it, one after the other.
  abbrev pub stored_all : List IncomingMessage → Option Row → Option Row
  stored_all [] o = o
  stored_all (m ∷ ms) o = stored_all ms (some (stored m o))

  abbrev pub with_id : String → List IncomingMessage → List IncomingMessage
  with_id id ms = filter (λ m. m.id == id) ms

  archive_message-id : (m : IncomingMessage) → (archive_message archive m).id ≡ m.id
  unfolding archive_message
  archive_message-id m = ground arith

  has_wa_id-eq : (a b : String) (r : Row) → has_wa_id a r ≡ true → has_wa_id b r ≡ (a == b)
  has_wa_id-eq a b r h = elim (Option-cases r.wa_message_id) [
    | inl e ↦ ground (arith, e)
    | inr (c, e) ↦ ground (arith, e, eq_iff c a, eq_iff c b, eq_iff a b)
  ]

  -- The row of an id after one message is stored.
  row_of-upsert :
      (id : String) (m : IncomingMessage) (rows : List Row)
      → row_of id (upsert archive m rows)
        ≡ (if m.id == id then some (stored m (row_of m.id rows)) else row_of id rows)
  unfolding upsert stored create_row update_row
  row_of-upsert id m [] = rw (archive_message-id m) refl
  row_of-upsert id m (r ∷ rs) = elim (Bool-cases (has_wa_id m.id r)) [
    | inl e ↦ ground (arith, e, has_wa_id-eq m.id id r)
    | inr e ↦ ground (arith, e, row_of-upsert id m rs, eq_iff m.id id)
  ]

  -- An id of the messages finds a row, and no message takes one away.
  length-upsert :
      (m : IncomingMessage) (rows : List Row)
      → length (upsert archive m rows) ≡ length rows + (if is_some (row_of m.id rows) then 0 else 1)
  unfolding upsert
  length-upsert m [] = refl
  length-upsert m (r ∷ rs) = ground (arith, length-upsert m rs)

  row_of-upsert_all :
      (id : String) (ms : List IncomingMessage) (rows : List Row)
      → row_of id (upsert_all archive ms rows) ≡ stored_all (with_id id ms) (row_of id rows)
  unfolding upsert_all
  row_of-upsert_all id [] rows = refl
  row_of-upsert_all id (m ∷ ms) rows = elim (Bool-cases (m.id == id)) [
    | inr e ↦
        ground (arith, e, row_of-upsert id m rows, row_of-upsert_all id ms (upsert archive m rows))
    | inl e ↦
        let same : m.id ≡ id = (eq_iff m.id id).0 e in
        row_of-upsert_all id ms (upsert archive m rows)
        ∙ ap (stored_all (with_id id ms)) (row_of-upsert id m rows)
        ∙ rw (e, same) refl
  ]

  -- After a batch of messages, the row of an id is what the messages with that id make of it, in their
  -- order; blank ids and status broadcasts count for nothing, and the others do not touch it.
  pub persist_messages_lem :
      (chat : Option String) (ms : List IncomingMessage) (rows : List Row) (id : String)
      → row_of id (persist_messages archive chat ms rows)
        ≡ stored_all (with_id id (normalized archive chat ms)) (row_of id rows)
  unfolding persist_messages
  persist_messages_lem chat ms rows id = row_of-upsert_all id (normalized archive chat ms) rows

  abbrev Present : List Row → IncomingMessage → Type 0
  Present rows m = is_some (row_of m.id rows) ≡ true

  upsert-Present :
      (m m' : IncomingMessage) (rows : List Row)
      → Present rows m'
      → Present (upsert archive m rows) m'
  upsert-Present m m' rows h = ground (arith, row_of-upsert m'.id m rows)

  upsert_all-Present :
      (ms : List IncomingMessage) (m : IncomingMessage) (rows : List Row)
      → Present rows m
      → Present (upsert_all archive ms rows) m
  unfolding upsert_all
  upsert_all-Present [] m rows h = h
  upsert_all-Present (x ∷ ms) m rows h =
      upsert_all-Present ms m (upsert archive x rows) (upsert-Present x m rows h)

  all-Present :
      (ms : List IncomingMessage) (rows : List Row) → All (Present (upsert_all archive ms rows)) ms
  unfolding upsert_all
  all-Present [] rows = tt
  all-Present (m ∷ ms) rows = (
    upsert_all-Present ms m (upsert archive m rows)
        (ground (arith, row_of-upsert m.id m rows, eq_refl m.id)),
    all-Present ms (upsert archive m rows),
  )

  length-upsert_all :
      (ms : List IncomingMessage) (rows : List Row)
      → All (Present rows) ms
      → length (upsert_all archive ms rows) ≡ length rows
  unfolding upsert_all
  length-upsert_all [] rows h = refl
  length-upsert_all (m ∷ ms) rows (p, h) =
      length-upsert_all ms (upsert archive m rows) (All-map ms h (λ x. upsert-Present m x rows))
      ∙ ground (arith, length-upsert m rows)

  -- A sync that is repeated adds no row.
  pub persist_messages_again :
      (chat : Option String) (ms : List IncomingMessage) (rows : List Row)
      → length (persist_messages archive chat ms (persist_messages archive chat ms rows))
        ≡ length (persist_messages archive chat ms rows)
  unfolding persist_messages
  persist_messages_again chat ms rows =
      length-upsert_all (normalized archive chat ms) _
        (all-Present (normalized archive chat ms) rows)

  stored_all_final :
      (ms : List IncomingMessage) (r : Row)
      → is_final r.status ≡ true
      → (r' : Row) × (stored_all ms (some r) ≡ some r') × (r'.status ≡ r.status)
  unfolding stored update_row
  stored_all_final [] r h = (r, refl, refl)
  stored_all_final (m ∷ ms) r h =
      let keeps : (stored m (some r)).status ≡ r.status = ground arith in
      let (r', e, k) = stored_all_final ms (stored m (some r)) (rw keeps h) in (r', e, k ∙ keeps)

  -- A stored message that is delivered or read keeps that state, whatever is synced again.
  pub persist_messages_final :
      (chat : Option String) (ms : List IncomingMessage) (rows : List Row) (id : String) (r : Row)
      → row_of id rows ≡ some r
      → is_final r.status ≡ true
      → (r' : Row) × (row_of id (persist_messages archive chat ms rows) ≡ some r')
        × (r'.status ≡ r.status)
  persist_messages_final chat ms rows id r e h =
      let known = persist_messages_lem chat ms rows id in
      let (r', f, k) = stored_all_final (with_id id (normalized archive chat ms)) r h in
      (r', known ∙ ap (stored_all (with_id id (normalized archive chat ms))) e ∙ f, k)
