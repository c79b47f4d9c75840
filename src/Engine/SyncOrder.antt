-- ===== src/Engine/SyncOrder.antt =====
-- The entries of a history sync are in order, and each message is there once.
use wp_open_aurora.Prelude.{
  String, Bool, false, ◌||◌, Option, none, some, List, [], ◌∷◌, ◌≡◌, refl, sym, ap, ◌∙◌, arith, inl,
  inr, any, any-append, includes, ◌==◌, eq_iff, Bool-cases, Option-cases,
}
use wp_open_aurora.History.{IncomingMessage}
use wp_open_aurora.Engine.Json.{Json, Fields, record_of}
use wp_open_aurora.Engine.Parts.{Outside}
use wp_open_aurora.Engine.Sync.{
  HistoryEntry, Found, mapped_item, in_chat, add_entry, add_items, chat_items, chat_id_of,
  add_conversation, add_conversations, conversations_of, map_evolution_history_sync_entries,
}
use wp_open_aurora.Engine.Sorting.{
  id_of, IsSorted, has_id, HasUniqueIds, sort-IsSorted, has_id-sort, sort-HasUniqueIds,
  append-HasUniqueIds,
}

-- Some item of the conversations is a message with the id.
abbrev is_item : String → Option (IncomingMessage × Fields) → Bool
is_item id none = false
is_item id (some (m, raw)) = m.id == id

abbrev is_mapped : Outside → String → String → Json → Bool
is_mapped out self id item = is_item id (mapped_item out self item)

abbrev pub reports : Outside → String → String → Json → Bool
reports out self id conversation = elim (record_of (some conversation)) [
  | none ↦ false
  | some chat ↦ any (is_mapped out self id) (chat_items out self chat)
]

abbrev pub is_reported : Outside → String → String → List Json → Bool
is_reported out self id = any (reports out self id)

module _ (out : Outside) (self : String) where
  -- The set knows the entries, which are there once.
  record IsKept (found : Found) : Type 0 where
    known : (id : String) → includes id found.0 ≡ has_id id found.1
    unique : HasUniqueIds found.1

  add_entry-IsKept :
      (chat : String) (item : Option (IncomingMessage × Fields)) (found : Found)
      → IsKept found
      → IsKept (add_entry out self chat item found)
  unfolding add_entry in_chat
  add_entry-IsKept chat none found k = k
  add_entry-IsKept chat (some (m, raw)) (seen, entries) k = elim (Bool-cases (includes m.id seen)) [
    | inl old ↦ rw (add_entry, old) k
    | inr new ↦
        let entry : HistoryEntry = record {
          message = in_chat out self chat m;
          raw_message = raw;
        } in
        let same : id_of entry ≡ m.id = ground arith in
        rw (add_entry, new)
          (record {
            known = λ id.
                any-append (λ t. t == id) seen (m.id ∷ [])
                ∙ ground
                    (arith, k.known id, any-append (λ y. id_of y == id) entries (entry ∷ []), same);
            unique =
                append-HasUniqueIds entry entries
                  (ap (λ i. has_id i entries) same ∙ sym (k.known m.id) ∙ new) k.unique;
          })
  ]

  has_id-add_entry :
      (id chat : String) (item : Option (IncomingMessage × Fields)) (found : Found)
      → IsKept found
      → has_id id (add_entry out self chat item found).1 ≡ (has_id id found.1 || is_item id item)
  unfolding add_entry in_chat
  has_id-add_entry id chat none found k = ground arith
  has_id-add_entry id chat (some (m, raw)) (seen, entries) k =
      let entry : HistoryEntry = record { message = in_chat out self chat m; raw_message = raw } in
      let same : id_of entry ≡ m.id = ground arith in
      elim (Bool-cases (includes m.id seen)) [
        | inl old ↦ rw (add_entry, old) (ground (arith, old, k.known m.id, eq_iff m.id id))
        | inr new ↦
            rw (add_entry, new)
              (ground (arith, any-append (λ y. id_of y == id) entries (entry ∷ []), same))
      ]

  add_items_lem :
      (chat : String) (items : List Json) (found : Found)
      → IsKept found
      → IsKept (add_items out self chat items found)
        × ((id : String)
            → has_id id (add_items out self chat items found).1
              ≡ (has_id id found.1 || any (is_mapped out self id) items))
  unfolding add_items
  add_items_lem chat [] found k = (k, λ id. ground arith)
  add_items_lem chat (item ∷ rest) found k =
      let next = add_entry out self chat (mapped_item out self item) found in
      let (k', f) =
        add_items_lem chat rest next (add_entry-IsKept chat (mapped_item out self item) found k) in
      (k', λ id. ground (arith, f id, has_id-add_entry id chat (mapped_item out self item) found k))

  add_conversation_lem :
      (c : Json) (found : Found)
      → IsKept found
      → IsKept (add_conversation out self c found)
        × ((id : String)
            → has_id id (add_conversation out self c found).1
              ≡ (has_id id found.1 || reports out self id c))
  unfolding add_conversation
  add_conversation_lem c found k = elim (Option-cases (record_of (some c))) [
    | inl e ↦ rw (add_conversation, e) (k, λ id. ground (arith, e))
    | inr (chat, e) ↦
        let (k', f) = add_items_lem (chat_id_of out self chat) (chat_items out self chat) found k in
        rw (add_conversation, e) (k', λ id. ground (arith, e, f id))
  ]

  add_conversations_lem :
      (cs : List Json) (found : Found)
      → IsKept found
      → IsKept (add_conversations out self cs found)
        × ((id : String)
            → has_id id (add_conversations out self cs found).1
              ≡ (has_id id found.1 || is_reported out self id cs))
  unfolding add_conversations
  add_conversations_lem [] found k = (k, λ id. ground arith)
  add_conversations_lem (c ∷ cs) found k =
      let (k', f) = add_conversation_lem c found k in
      let (k'', g) = add_conversations_lem cs (add_conversation out self c found) k' in
      (k'', λ id. ground (arith, f id, g id))

-- The entries of a history sync are in the order of time, no id is there twice, and the ids are those of
-- the items that are messages.
pub map_evolution_history_sync_entries_lem :
    (out : Outside) (self : String) (payload : Option Json)
    → IsSorted (map_evolution_history_sync_entries out self payload)
      × HasUniqueIds (map_evolution_history_sync_entries out self payload)
      × ((id : String)
          → has_id id (map_evolution_history_sync_entries out self payload)
            ≡ is_reported out self id (conversations_of out self payload))
unfolding map_evolution_history_sync_entries
map_evolution_history_sync_entries_lem out self payload =
    let found = add_conversations out self (conversations_of out self payload) ([], []) in
    let (k, f) =
      add_conversations_lem out self (conversations_of out self payload) ([], [])
        (record { known = λ id. refl; unique = tt }) in
    (sort-IsSorted found.1, sort-HasUniqueIds found.1 k.unique, λ id. has_id-sort id found.1 ∙ f id)
