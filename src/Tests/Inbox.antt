-- ===== src/Tests/Inbox.antt =====
-- What engines report, what is stored of it, and who hears of it, at small inputs.
use wp_open_aurora.Prelude.{
  ℕ, ◌+◌, max, String, true, false, Option, none, some, List, [], ◌∷◌, ◌≡◌, refl, arith, length,
  get, ◌==◌, if◌then◌else◌,
}
use wp_open_aurora.Prelude.Results.{ok, err}
use wp_open_aurora.Auth.Keys.{ApiKey, ApiKeyRole, AuthState}
use wp_open_aurora.Auth.Keys
use wp_open_aurora.History.{IncomingMessage, Media, normalized, persist_messages}
use wp_open_aurora.History.Rows.{
  row_of, stored_all, with_id, persist_messages_lem, persist_messages_again,
}
use wp_open_aurora.History.Snapshots.{ChatSnapshot, persist_message_chat_snapshots}
use wp_open_aurora.History.Latest.{newest_time, received}
use wp_open_aurora.History.Newest.{
  snapshot_time, snapshot_unread, persist_message_chat_snapshots_lem,
}
use wp_open_aurora.History.PhoneCache.{Lookup, AreAnswered, resolve_all_lem}
use wp_open_aurora.Engine.Json.{Json, text, obj, arr, field, end, cons, nil}
use wp_open_aurora.Engine.Parts
use wp_open_aurora.Engine.Sync.{map_evolution_history_sync_entries, conversations_of}
use wp_open_aurora.Engine.Sorting.{IsSorted, HasUniqueIds, has_id}
use wp_open_aurora.Engine.SyncOrder.{is_reported, map_evolution_history_sync_entries_lem}
use wp_open_aurora.Engine.BaileysStore.{WaMessage, record_messages}
use wp_open_aurora.Engine.BaileysStore.Newest.{newest, last_time, record_messages_time}
use wp_open_aurora.Events.{handle_connection, emit_to_rooms, subscribe}
use wp_open_aurora.Events.Asked.{Step, run, MayHear}
use wp_open_aurora.Events.Allowed.{emit_to_rooms_allowed}

abbrev no_archive : IncomingMessage → Media → Option Media
no_archive m x = none

abbrev letter : String → ℕ → IncomingMessage
letter id time = record {
  id = id;
  chat_id = "49@c.us";
  from = "49@c.us";
  to = "me";
  body = "hello";
  message_type = "text";
  from_me = false;
  is_group = false;
  is_status_broadcast = false;
  timestamp = time;
  media = none;
  quoted_message = none;
  location = none;
  contact = none;
  sender_phone = none;
  author = none;
  mentioned_ids = [];
  is_lid_sender = false;
}

abbrev letters : List IncomingMessage
letters = letter "a" 5 ∷ letter "b" 9 ∷ letter "a" 7 ∷ []

persist_messages_lem_example :
    row_of "a" (persist_messages no_archive none letters [])
    ≡ stored_all no_archive
        (with_id no_archive "a" (normalized no_archive none letters))
        (row_of "a" [])
persist_messages_lem_example = persist_messages_lem no_archive none letters [] "a"

persist_messages_again_example :
    length (persist_messages no_archive none letters (persist_messages no_archive none letters []))
    ≡ length (persist_messages no_archive none letters [])
persist_messages_again_example = persist_messages_again no_archive none letters []

persist_message_chat_snapshots_lem_example :
    (s : ChatSnapshot) × (get "49@c.us" (persist_message_chat_snapshots true letters []) ≡ some s)
    × (s.timestamp ≡ max (snapshot_time none) (newest_time "49@c.us" letters))
    × (s.unread_count ≡ snapshot_unread none + (if true then received "49@c.us" letters else 0))
unfolding get
persist_message_chat_snapshots_lem_example =
    persist_message_chat_snapshots_lem true letters [] "49@c.us" refl refl

-- A lookup before the session has an engine, and two with one.
abbrev lookups : List Lookup
lookups =
    record { key = "s1:7@lid"; engine = none }
    ∷ record { key = "s1:8@lid"; engine = some (err "closed") }
    ∷ record { key = "s1:7@lid"; engine = some (ok (some "49")) }
    ∷ []

resolve_all_lem_example : AreAnswered [] lookups []
resolve_all_lem_example = resolve_all_lem lookups

abbrev readers : Parts.Outside
readers = record {
  show = λ n. "0";
  to_lower_case = λ s. s;
  to_upper_case = λ s. s;
  to_number = λ s. if s == "5" then some 5 else some 9;
  parse_date = λ s. none;
  coordinate = λ v. none;
  now = 0;
}

abbrev item : String → String → Json
item id time =
    obj (field "Info" (obj (field "ID" (text id) (field "Timestamp" (text time) end))) end)

abbrev payload : Option Json
payload = some (
    obj (
      field "Conversations"
        (arr (
          cons
            (obj (
              field "ID" (text "49@c.us")
                (field "Messages" (arr (cons (item "b" "9") (cons (item "a" "5") nil))) end)))
            nil))
        end))

map_evolution_history_sync_entries_lem_example :
    IsSorted (map_evolution_history_sync_entries readers "me" payload)
    × HasUniqueIds (map_evolution_history_sync_entries readers "me" payload)
    × ((id : String)
        → has_id id (map_evolution_history_sync_entries readers "me" payload)
          ≡ is_reported readers "me" id (conversations_of readers "me" payload))
map_evolution_history_sync_entries_lem_example =
    map_evolution_history_sync_entries_lem readers "me" payload

abbrev report : ℕ → WaMessage
report time = record {
  remote_jid = some "c";
  key = "k";
  message_timestamp = some time;
  conversation = some "hello";
  extended_text = none;
}

record_messages_time_example :
    last_time (get "c" (record_messages (report 7 ∷ report 3 ∷ []) []))
    ≡ max (last_time none) (newest "c" (report 7 ∷ report 3 ∷ []))
unfolding get
record_messages_time_example = record_messages_time "c" (report 7 ∷ report 3 ∷ []) [] refl

abbrev digest : String → String
digest s = s

abbrev key : ApiKey
key = record {
  id = "k1";
  name = "bot";
  key_hash = "secret";
  key_prefix = "secret";
  role = ApiKeyRole.viewer;
  allowed_ips = none;
  allowed_sessions = some ("s1" ∷ []);
  is_active = true;
  expires_at = none;
  last_used_at = none;
  usage_count = 0;
  created_at = 0;
}

abbrev keys : AuthState
keys = record { keys = key ∷ []; pending_usage = [] }

-- The second request is for all sessions, which the key may not ask for.
abbrev requests : List Step
requests =
    record { message = subscribe "s1" ("message.received" ∷ []); now = 2000; keys = keys }
    ∷ record { message = subscribe "*" ("*" ∷ []); now = 3000; keys = keys }
    ∷ []

emit_to_rooms_allowed_example : MayHear digest requests (some "secret") "s1"
unfolding handle_connection run emit_to_rooms wp_open_aurora.Auth.Keys.record_usage
emit_to_rooms_allowed_example =
    emit_to_rooms_allowed digest (some "secret") 1000 keys requests "s1" "message.received" refl
      (omega arith)
