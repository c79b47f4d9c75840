-- ===== src/Engine/Sync.antt =====
-- `mapEvolutionHistorySyncEntries` of src/engine/adapters/evolution-go-message-mapper.ts: the messages of
-- a history sync, each once and in the order of time.
use wp_open_aurora.Prelude.{
  String, Option, none, some, List, [], ◌∷◌, ◌++◌, includes, leb, or_default, if◌then◌else◌,
  is_empty,
}
use wp_open_aurora.History.{IncomingMessage}
use wp_open_aurora.Engine.Json.{Json, obj, Fields, first, record_of, array_of, text_of}
use wp_open_aurora.Engine.Ids.{to_neutral_whats_app_id}
use wp_open_aurora.Engine.Parts.{Outside, or_fields, message_container}
use wp_open_aurora.Engine.Mapper.{map_evolution_message}

pub record HistoryEntry : Type 0 where
  pub message : IncomingMessage
  pub raw_message : Fields

unfoldable pub insert : HistoryEntry → List HistoryEntry → List HistoryEntry
insert e [] = e ∷ []
insert e (x ∷ xs) =
    if leb e.message.timestamp x.message.timestamp then e ∷ x ∷ xs else x ∷ insert e xs

-- `sort((a, b) => a.message.timestamp - b.message.timestamp)`
unfoldable pub sort : List HistoryEntry → List HistoryEntry
unfolding insert
sort [] = []
sort (e ∷ es) = insert e (sort es)

-- The set of ids seen, and the entries so far.
abbrev pub Found : Type 0
Found = List String × List HistoryEntry

module _ (out : Outside) (self_jid : String) where
  -- `if (!mapped.chatId && chatId) mapped.chatId = chatId`
  unfoldable pub in_chat : String → IncomingMessage → IncomingMessage
  in_chat chat_id m = if is_empty m.chat_id then record m { chat_id = chat_id } else m

  -- The fields of an item of a conversation, wrapped or not.
  unfoldable pub raw_of : Json → Option Fields
  unfolding first record_of
  raw_of item =
      or_fields (record_of (first (record_of (some item)) ("Message" ∷ "message" ∷ [])))
        (record_of (some item))

  unfoldable pub mapped_item : Json → Option (IncomingMessage × Fields)
  unfolding raw_of map_evolution_message message_container
  mapped_item item = elim (raw_of item) [
    | none ↦ none
    | some raw ↦ elim (map_evolution_message out (some (obj raw)) self_jid) [
      | none ↦ none
      | some m ↦ some (m, message_container raw)
    ]
  ]

  -- An id that has been seen is passed over.
  unfoldable pub add_entry : String → Option (IncomingMessage × Fields) → Found → Found
  unfolding in_chat
  add_entry chat_id none found = found
  add_entry chat_id (some (m, raw)) (seen, entries) =
      if includes m.id seen then (seen, entries) else (
        seen ++ m.id ∷ [],
        entries ++ record { message = in_chat chat_id m; raw_message = raw } ∷ [],
      )

  unfoldable pub add_items : String → List Json → Found → Found
  unfolding add_entry mapped_item
  add_items chat_id [] found = found
  add_items chat_id (item ∷ rest) found =
      add_items chat_id rest (add_entry chat_id (mapped_item item) found)

  unfoldable pub chat_items : Fields → List Json
  unfolding first array_of
  chat_items chat = or_default (array_of (first (some chat) ("Messages" ∷ "messages" ∷ []))) []

  unfoldable pub chat_id_of : Fields → String
  unfolding first text_of to_neutral_whats_app_id
  chat_id_of chat =
      to_neutral_whats_app_id out.to_lower_case
        (text_of out.show (first (some chat) ("ID" ∷ "id" ∷ "JID" ∷ "jid" ∷ [])))

  unfoldable pub add_conversation : Json → Found → Found
  unfolding record_of chat_items chat_id_of add_items
  add_conversation conversation found = elim (record_of (some conversation)) [
    | none ↦ found
    | some chat ↦ add_items (chat_id_of chat) (chat_items chat) found
  ]

  unfoldable pub add_conversations : List Json → Found → Found
  unfolding add_conversation
  add_conversations [] found = found
  add_conversations (c ∷ rest) found = add_conversations rest (add_conversation c found)

  unfoldable pub conversations_of : Option Json → List Json
  unfolding first record_of array_of
  conversations_of payload =
      let envelope = record_of payload in
      let event = or_fields (record_of (first envelope ("data" ∷ "Data" ∷ []))) envelope in
      let sync = or_fields (record_of (first event ("Data" ∷ "data" ∷ []))) event in
      or_default (array_of (first sync ("Conversations" ∷ "conversations" ∷ []))) []

  unfoldable pub map_evolution_history_sync_entries : Option Json → List HistoryEntry
  unfolding conversations_of add_conversations sort
  map_evolution_history_sync_entries payload =
      sort (add_conversations (conversations_of payload) ([], [])).1
