-- ===== src/Messages/Retry/Table.antt =====
-- One scan over the table of messages, whose rows stand by their ids. The query's order and limit are
-- a parameter, and so are the answers that each run of `processMessage` gets.
use wp_open_aurora.Prelude.{
  ℕ, String, Bool, true, false, none, some, List, [], ◌∷◌, map, ◌==◌, eq_iff, ◌≡◌, refl, arith,
  if◌then◌else◌, any, filter, inl, inr, Option-cases, Map, get, put, get-put, has,
}
use wp_open_aurora.Messages.Retry.{Message, Settings, Environment, is_candidate, process_message}

module _ {P : Type 0} where
  unfoldable pub candidates : ℕ → ℕ → Map (Message P) → List (Message P)
  candidates now stale table = filter (is_candidate now stale) (map (λ e. e.1) table)

  module _ (c : Settings) (env : Message P → Environment P) where
    -- One message of the batch: its row, if it is still there, as the run leaves it.
    unfoldable pub process_row : ℕ → Map (Message P) → Message P → Map (Message P)
    process_row now table m = elim (get m.id table) [
      | none ↦ table
      | some stored ↦ put m.id (process_message c (record (env m) { now = now }) stored m).0 table
    ]

    unfoldable pub process_rows : ℕ → Map (Message P) → List (Message P) → Map (Message P)
    unfolding process_row
    process_rows now table [] = table
    process_rows now table (m ∷ ms) = process_rows now (process_row now table m) ms

    -- The table after a scan; `processing` is whether another scan is still running.
    unfoldable pub process_due_messages :
        (processing : Bool) (pick : List (Message P) → List (Message P)) (now stale : ℕ)
        → Map (Message P)
        → Map (Message P)
    unfolding process_rows candidates
    process_due_messages processing pick now stale table =
        if processing then table else process_rows now table (pick (candidates now stale table))

    has_row : String → List (Message P) → Bool
    has_row id = any (λ m. m.id == id)

    process_row_frame :
        (now : ℕ) (table : Map (Message P)) (m : Message P) (id : String)
        → (has id (process_row now table m) ≡ has id table)
          × ((m.id == id) ≡ false → get id (process_row now table m) ≡ get id table)
    unfolding process_row
    process_row_frame now table m id = elim (Option-cases (get m.id table)) [
      | inl e ↦ (ground (arith, e), λ n. ground (arith, e))
      | inr (stored, e) ↦
          let row = (process_message c (record (env m) { now = now }) stored m).0 in
          (
            ground (arith, e, get-put m.id id row table, eq_iff m.id id),
            λ n. ground (arith, e, n, get-put m.id id row table),
          )
    ]

    process_rows_frame :
        (now : ℕ) (table : Map (Message P)) (ms : List (Message P)) (id : String)
        → (has id (process_rows now table ms) ≡ has id table)
          × (any (λ m. m.id == id) ms ≡ false → get id (process_rows now table ms) ≡ get id table)
    unfolding process_rows
    process_rows_frame now table [] id = (refl, λ n. refl)
    process_rows_frame now table (m ∷ ms) id =
        let first = process_row_frame now table m id in
        let rest = process_rows_frame now (process_row now table m) ms id in
        (ground (arith, first.0, rest.0), λ n. ground (arith, n, first.1, rest.1))

    -- A scan adds and removes no row, and a row whose id no candidate has stays as it is. The query
    -- picks its batch among the candidates.
    pub process_due_messages_frame :
        (processing : Bool) (pick : List (Message P) → List (Message P)) (now stale : ℕ)
        (table : Map (Message P)) (id any_id : String)
        → ((ms : List (Message P)) (p : Message P → Bool)
            → any p (pick ms) ≡ true
            → any p ms ≡ true)
        → any (λ m. m.id == id) (candidates now stale table) ≡ false
        → (get id (process_due_messages processing pick now stale table) ≡ get id table)
          × (has any_id (process_due_messages processing pick now stale table) ≡ has any_id table)
    unfolding process_due_messages
    process_due_messages_frame processing pick now stale table id any_id h n =
        let cs = candidates now stale table in
        let frame = process_rows_frame now table (pick cs) id in
        let keys = process_rows_frame now table (pick cs) any_id in
        (ground (arith, n, frame.1, h cs (λ m. m.id == id)), ground (arith, keys.0))
