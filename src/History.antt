-- ===== src/History.antt =====
-- src/modules/session/session.service.ts: the messages that an engine reports and their rows. The
-- table is that of one session; writes of one session wait for one another. The archive of media is a
-- parameter. The metadata of a row has a field for each of the keys that the code builds.
pub mod Rows
pub mod Snapshots
pub mod Latest
pub mod Newest
pub mod PhoneCache
use wp_open_aurora.Prelude.{
  ℕ, String, Bool, true, false, not, ◌&&◌, ◌||◌, Option, none, some, List, [], ◌∷◌, ◌++◌, map,
  filter, any, ◌==◌, eqb, or_default, if◌then◌else◌, is_empty, is_some,
}
use wp_open_aurora.Messages.Status.{MessageStatus, same_status}

pub record Media : Type 0 where
  pub mimetype : String
  pub filename : Option String
  pub media_data : Option String
  pub url : Option String
  pub storage_path : Option String

pub record Contact : Type 0 where
  pub name : Option String
  pub push_name : Option String

pub record QuotedMessage : Type 0 where
  pub id : String
  pub body : String

-- Coordinates are the texts of numbers.
pub record Location : Type 0 where
  pub latitude : String
  pub longitude : String
  pub description : Option String
  pub address : Option String
  pub url : Option String

pub record IncomingMessage : Type 0 where
  pub id : String
  pub chat_id : String
  pub from : String
  pub to : String
  pub body : String
  pub message_type : String
  pub from_me : Bool
  pub is_group : Bool
  pub is_status_broadcast : Bool
  pub timestamp : ℕ
  pub media : Option Media
  pub quoted_message : Option QuotedMessage
  pub location : Option Location
  pub contact : Option Contact
  pub sender_phone : Option String
  pub author : Option String
  pub mentioned_ids : List String
  pub is_lid_sender : Bool

pub record Metadata : Type 0 where
  pub media : Option Media
  pub quoted_message : Option QuotedMessage
  pub location : Option Location
  pub contact : Option Contact
  pub sender_phone : Option String
  pub author : Option String

pub record Row : Type 0 where
  pub wa_message_id : Option String
  pub chat_id : String
  pub from : String
  pub to : String
  pub body : String
  pub message_type : String
  pub outgoing : Bool
  pub timestamp : ℕ
  pub media_path : Option String
  pub media_mimetype : Option String
  pub status : MessageStatus
  pub metadata : Metadata

abbrev filled : Option String → Option String
filled none = none
filled (some s) = if is_empty s then none else some s

-- What the archive keeps of a medium has neither data nor address.
unfoldable pub stored_media : Media → Media
stored_media m =
    if is_some (filled m.storage_path)
    then record m { media_data = none; url = none; storage_path = none }
    else m

unfoldable pub map_option {ℓ κ} : {A : Type ℓ} {B : Type κ} → (A → B) → Option A → Option B
map_option f none = none
map_option f (some a) = some (f a)

unfoldable pub build_stored_message_metadata : IncomingMessage → Metadata
unfolding stored_media map_option
build_stored_message_metadata m = record {
  media = map_option stored_media m.media;
  quoted_message = m.quoted_message;
  location = m.location;
  contact = m.contact;
  sender_phone = filled m.sender_phone;
  author = filled m.author;
}

abbrev or_old {ℓ} : {A : Type ℓ} → Option A → Option A → Option A
or_old none old = old
or_old (some new) old = some new

-- `{ ...stored.metadata, ...metadata }`
unfoldable pub merge_metadata : Metadata → Metadata → Metadata
merge_metadata old new = record {
  media = or_old new.media old.media;
  quoted_message = or_old new.quoted_message old.quoted_message;
  location = or_old new.location old.location;
  contact = or_old new.contact old.contact;
  sender_phone = or_old new.sender_phone old.sender_phone;
  author = or_old new.author old.author;
}

-- `a || b` for texts and for numbers.
abbrev or_text : String → String → String
or_text new old = if is_empty new then old else new

abbrev or_number : ℕ → ℕ → ℕ
or_number new old = if eqb new 0 then old else new

abbrev pub is_final : MessageStatus → Bool
is_final s = same_status s MessageStatus.delivered || same_status s MessageStatus.read

abbrev media_path_of : IncomingMessage → Option String
media_path_of m = elim m.media [ none ↦ none | some x ↦ filled x.storage_path ]

abbrev mimetype_of : IncomingMessage → Option String
mimetype_of m = elim m.media [ none ↦ none | some x ↦ filled (some x.mimetype) ]

-- The row of a message that is stored already.
unfoldable pub update_row : IncomingMessage → Row → Row
unfolding build_stored_message_metadata merge_metadata
update_row m r = record {
  wa_message_id = r.wa_message_id;
  chat_id = or_text m.chat_id r.chat_id;
  from = or_text m.from r.from;
  to = or_text m.to r.to;
  body = or_text m.body r.body;
  message_type = if m.message_type == "unknown" then r.message_type else m.message_type;
  outgoing = m.from_me;
  timestamp = or_number m.timestamp r.timestamp;
  media_path = or_old (media_path_of m) r.media_path;
  media_mimetype = or_old (mimetype_of m) r.media_mimetype;
  status = if is_final r.status then r.status else MessageStatus.sent;
  metadata = merge_metadata r.metadata (build_stored_message_metadata m);
}

unfoldable pub create_row : IncomingMessage → Row
unfolding build_stored_message_metadata map_option
create_row m = record {
  wa_message_id = some m.id;
  chat_id = m.chat_id;
  from = m.from;
  to = m.to;
  body = m.body;
  message_type = m.message_type;
  outgoing = m.from_me;
  timestamp = m.timestamp;
  media_path = elim m.media [ none ↦ none | some x ↦ x.storage_path ];
  media_mimetype = map_option (λ (x : Media). x.mimetype) m.media;
  status = MessageStatus.sent;
  metadata = build_stored_message_metadata m;
}

abbrev pub has_wa_id : String → Row → Bool
has_wa_id id r = elim r.wa_message_id [ none ↦ false | some id' ↦ id' == id ]

-- A medium that the row has archived already is not archived again.
unfoldable pub with_stored_media : Row → Media → Media
with_stored_media r x = record x {
  mimetype = or_default (filled r.media_mimetype) x.mimetype;
  storage_path = r.media_path;
}

-- `archive` is what `archiveMedia` makes of a medium, or none where it throws.
module _ (archive : IncomingMessage → Media → Option Media) where
  unfoldable pub archive_message : IncomingMessage → IncomingMessage
  archive_message m = elim m.media [
    | none ↦ m
    | some x ↦
        if is_some (filled x.storage_path)
        then m
        else elim (archive m x) [ none ↦ m | some y ↦ record m { media = some y } ]
  ]

  unfoldable pub incoming : IncomingMessage → Row → IncomingMessage
  unfolding with_stored_media map_option archive_message
  incoming m r =
      if is_some m.media && is_some (filled r.media_path)
      then record m { media = map_option (with_stored_media r) m.media }
      else archive_message m

  -- The write of one message: the row with its id is updated, or a row is added.
  unfoldable pub upsert : IncomingMessage → List Row → List Row
  unfolding update_row create_row incoming archive_message
  upsert m [] = create_row (archive_message m) ∷ []
  upsert m (r ∷ rs) =
      let rest = upsert m rs in
      if has_wa_id m.id r then update_row (incoming m r) r ∷ rs else r ∷ rest

  unfoldable pub upsert_all : List IncomingMessage → List Row → List Row
  unfolding upsert
  upsert_all [] rows = rows
  upsert_all (m ∷ ms) rows = upsert_all ms (upsert m rows)

  abbrev pub in_chat : Option String → IncomingMessage → IncomingMessage
  in_chat none m = m
  in_chat (some chat) m = if is_empty chat then m else record m { chat_id = chat }

  unfoldable pub normalized : Option String → List IncomingMessage → List IncomingMessage
  normalized chat ms =
      map (in_chat chat) (filter (λ m. not (is_empty m.id) && not m.is_status_broadcast) ms)

  -- `persistMessagesNow`, less the snapshots of chats.
  unfoldable pub persist_messages : Option String → List IncomingMessage → List Row → List Row
  unfolding normalized upsert_all
  persist_messages chat ms rows = upsert_all (normalized chat ms) rows
