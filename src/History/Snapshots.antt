-- ===== src/History/Snapshots.antt =====
-- src/modules/session/session.service.ts: the summaries of chats that new messages bring up to date.
-- The table of one session is a map from chat ids.
use wp_open_aurora.Prelude.{
  ℕ, ◌+◌, String, Bool, not, ◌&&◌, ◌||◌, Option, none, some, List, [], ◌∷◌, ◌==◌, leb, or_default,
  if◌then◌else◌, is_empty, is_some, Map, get, put,
}
use Prim.Native.String
use wp_open_aurora.Prelude.Text.{trim, split, part, contains, digits_only, ends_with}
use wp_open_aurora.History.{IncomingMessage, Contact, build_stored_message_metadata}

pub record ChatSnapshot : Type 0 where
  pub chat_id : String
  pub name : String
  pub is_group : Bool
  pub unread_count : ℕ
  pub timestamp : ℕ
  pub last_message : Option String
  pub contact_phone : Option String

abbrev filled : String → Option String
filled s = if is_empty s then none else some s

abbrev or_else : Option String → Option String → Option String
or_else none other = other
or_else (some s) other = some s

unfoldable pub phone_from_direct_chat_id : String → Option String
unfolding ends_with digits_only split
phone_from_direct_chat_id chat_id =
    if ends_with chat_id "@c.us" || ends_with chat_id "@s.whatsapp.net"
    then filled (digits_only (part (split b'@' chat_id) 0))
    else none

-- `value` is the text or the number.
unfoldable pub normalize_contact_phone : Option String → String → Option String
unfolding ends_with digits_only split
normalize_contact_phone none contact_id = none
normalize_contact_phone (some value) contact_id =
    let phone = digits_only value in
    let privacy_id =
      if ends_with contact_id "@lid" then digits_only (part (split b'@' contact_id) 0) else "" in
    if is_empty phone || not (is_empty privacy_id) && privacy_id == phone then none else some phone

unfoldable pub is_useful_chat_name : String → String → Bool
unfolding trim contains
is_useful_chat_name name chat_id =
    let value = trim name in
    not (is_empty value) && not (value == chat_id) && not (contains b'@' value)

unfoldable pub message_preview : IncomingMessage → Option String
unfolding trim
message_preview m =
    if not (is_empty (trim m.body))
    then some m.body
    else if m.message_type == "unknown"
    then none
    else some (String.◌++◌ "[" (String.◌++◌ m.message_type "]"))

abbrev trimmed : Option String → Option String
trimmed none = none
trimmed (some s) = filled (trim s)

unfoldable pub contact_name_of : Option Contact → Option String
unfolding trim
contact_name_of none = none
contact_name_of (some c) = or_else (trimmed c.name) (trimmed c.push_name)

unfoldable pub contact_phone_of : IncomingMessage → Option String
unfolding normalize_contact_phone phone_from_direct_chat_id build_stored_message_metadata
contact_phone_of m =
    if m.is_group
    then none
    else or_else (normalize_contact_phone (build_stored_message_metadata m).sender_phone m.chat_id)
        (phone_from_direct_chat_id m.chat_id)

abbrev is_group_chat : IncomingMessage → Bool
is_group_chat m = m.is_group || ends_with m.chat_id "@g.us"

unfoldable pub create_snapshot : IncomingMessage → ChatSnapshot
unfolding contact_name_of contact_phone_of ends_with
create_snapshot m = record {
  chat_id = m.chat_id;
  name = or_default (or_else (contact_name_of m.contact) (contact_phone_of m)) m.chat_id;
  is_group = is_group_chat m;
  unread_count = 0;
  timestamp = m.timestamp;
  last_message = none;
  contact_phone = contact_phone_of m;
}

unfoldable pub rename : IncomingMessage → ChatSnapshot → String
unfolding contact_name_of contact_phone_of is_useful_chat_name
rename m s =
    if is_some (contact_name_of m.contact) || not (is_useful_chat_name s.name m.chat_id)
    then or_default
        (or_else (or_else (contact_name_of m.contact) (contact_phone_of m)) (filled s.name))
        m.chat_id
    else s.name

unfoldable pub update_snapshot : IncomingMessage → ℕ → ChatSnapshot → ChatSnapshot
unfolding rename contact_phone_of message_preview ends_with
update_snapshot m unread s = record {
  chat_id = s.chat_id;
  name = rename m s;
  is_group = is_group_chat m;
  unread_count = s.unread_count + unread;
  timestamp = if leb s.timestamp m.timestamp then m.timestamp else s.timestamp;
  last_message = if leb s.timestamp m.timestamp then message_preview m else s.last_message;
  contact_phone = or_else s.contact_phone (contact_phone_of m);
}

unfoldable pub note_latest : IncomingMessage → Map IncomingMessage → Map IncomingMessage
unfolding get put
note_latest m latest = if is_empty m.chat_id then latest else elim (get m.chat_id latest) [
  | none ↦ put m.chat_id m latest
  | some current ↦ if leb current.timestamp m.timestamp then put m.chat_id m latest else latest
]

-- The newest message of each chat, the later of two with the same time.
unfoldable pub latest_by_chat : List IncomingMessage → Map IncomingMessage → Map IncomingMessage
unfolding note_latest
latest_by_chat [] latest = latest
latest_by_chat (m ∷ ms) latest = latest_by_chat ms (note_latest m latest)

unfoldable pub note_unread : Bool → IncomingMessage → Map ℕ → Map ℕ
unfolding get put
note_unread increment m unread =
    if not (is_empty m.chat_id) && increment && not m.from_me
    then put m.chat_id (or_default (get m.chat_id unread) 0 + 1) unread
    else unread

unfoldable pub unread_by_chat : Bool → List IncomingMessage → Map ℕ → Map ℕ
unfolding note_unread
unread_by_chat increment [] unread = unread
unread_by_chat increment (m ∷ ms) unread =
    unread_by_chat increment ms (note_unread increment m unread)

-- The loop over the chats; what is saved at its end replaces the rows of the same chats.
unfoldable pub update_snapshots : Map ℕ → Map IncomingMessage → Map ChatSnapshot → Map ChatSnapshot
unfolding get put update_snapshot create_snapshot
update_snapshots unread [] snapshots = snapshots
update_snapshots unread ((chat, m) ∷ latest) snapshots = update_snapshots unread latest (
    put chat
      (update_snapshot m (or_default (get chat unread) 0)
        (or_default (get chat snapshots) (create_snapshot m)))
      snapshots)

unfoldable pub persist_message_chat_snapshots :
    Bool → List IncomingMessage → Map ChatSnapshot → Map ChatSnapshot
unfolding latest_by_chat unread_by_chat update_snapshots
persist_message_chat_snapshots increment ms snapshots =
    update_snapshots (unread_by_chat increment ms []) (latest_by_chat ms []) snapshots
