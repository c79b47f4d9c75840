-- ===== src/Engine/Parts.antt =====
-- src/engine/adapters/evolution-go-message-mapper.ts: the parts of a message of Evolution Go, and its
-- text and type.
use wp_open_aurora.Prelude.{
  ℕ, String, ◌&&◌, ◌||◌, Option, none, some, List, [], ◌∷◌, ◌==◌, or_default, if◌then◌else◌,
  is_empty, is_some,
}
use wp_open_aurora.Prelude.Text.{contains_text}
use wp_open_aurora.Engine.Json.{Json, Fields, first, record_of, bool_of, is_truthy, text_of}
use wp_open_aurora.Engine.Ids.{to_neutral_whats_app_id}

-- The decimal text of a number, the case mappings, `Number` and `Date.parse` of a text (none where it
-- is not finite), `Number` of a coordinate, and the clock.
pub record Outside : Type 0 where
  pub show : ℕ → String
  pub to_lower_case : String → String
  pub to_upper_case : String → String
  pub to_number : String → Option ℕ
  pub parse_date : String → Option ℕ
  pub coordinate : Option Json → Option String
  pub now : ℕ

abbrev pub filled : String → Option String
filled s = if is_empty s then none else some s

-- `a || b`
abbrev pub or_text : String → String → String
or_text a b = if is_empty a then b else a

abbrev pub or_fields : Option Fields → Option Fields → Option Fields
or_fields none other = other
or_fields (some fs) other = some fs

abbrev media_keys : List (List String × String)
media_keys =
    ("imageMessage" ∷ "ImageMessage" ∷ [], "image")
    ∷ ("videoMessage" ∷ "VideoMessage" ∷ [], "video")
    ∷ ("audioMessage" ∷ "AudioMessage" ∷ [], "audio")
    ∷ ("documentMessage" ∷ "DocumentMessage" ∷ [], "document")
    ∷ ("stickerMessage" ∷ "StickerMessage" ∷ [], "sticker")
    ∷ []

-- The value at one of the keys, if it is an object.
abbrev pub at : Option Fields → List String → Option Fields
at fs keys = record_of (first fs keys)

unfoldable pub find_media : List (List String × String) → Fields → Option (Fields × String)
unfolding first record_of bool_of
find_media [] message = none
find_media ((keys, kind) ∷ rest) message =
    let other = find_media rest message in
    elim (at (some message) keys) [
      | none ↦ other
      | some value ↦ some (
        value,
        if kind == "audio" && bool_of (first (some value) ("PTT" ∷ "ptt" ∷ []))
            then "voice"
            else kind,
      )
    ]

unfoldable pub media_part : Fields → Option (Fields × String)
unfolding find_media
media_part message = find_media media_keys message

unfoldable pub default_mimetype : String → String
default_mimetype kind =
    if kind == "image"
    then "image/jpeg"
    else if kind == "video"
    then "video/mp4"
    else if kind == "audio" || kind == "voice"
    then "audio/ogg"
    else if kind == "sticker"
    then "image/webp"
    else "application/octet-stream"

unfoldable pub message_container : Fields → Fields
unfolding first record_of
message_container data_fields =
    or_default (at (some data_fields) ("Message" ∷ "message" ∷ [])) data_fields

module _ (out : Outside) where
  open out use {show, to_lower_case, to_upper_case, coordinate, now}

  abbrev pub text_at : Option Fields → List String → String
  text_at fs keys = text_of show (first fs keys)

  abbrev pub id_of : Option Json → String
  id_of value = to_neutral_whats_app_id to_lower_case (text_of show value)

  -- The types after conversation, extended text and media.
  unfoldable pub other_body_and_type : Fields → String × String
  unfolding first record_of text_of contains_text
  other_body_and_type message =
      let m = some message in
      let location = at m ("locationMessage" ∷ "LocationMessage" ∷ []) in
      let live = at m ("liveLocationMessage" ∷ "LiveLocationMessage" ∷ []) in
      let contact = at m ("contactMessage" ∷ "ContactMessage" ∷ []) in
      let contacts = first m ("contactsArrayMessage" ∷ "ContactsArrayMessage" ∷ []) in
      let protocol = at m ("protocolMessage" ∷ "ProtocolMessage" ∷ []) in
      let protocol_type = to_upper_case (text_at protocol ("type" ∷ "Type" ∷ [])) in
      if is_some location
      then (text_at location ("name" ∷ "Name" ∷ "address" ∷ "Address" ∷ []), "location")
      else if is_some live
      then (text_at live ("caption" ∷ "Caption" ∷ []), "location")
      else if is_some contact || is_truthy contacts
      then (text_at contact ("displayName" ∷ "DisplayName" ∷ []), "contact")
      else if is_some protocol && (contains_text protocol_type "REVOKE" || protocol_type == "0")
      then ("", "revoked")
      else ("", "unknown")

  unfoldable pub body_and_type : Fields → String × String
  unfolding first record_of text_of media_part other_body_and_type
  body_and_type message =
      let m = some message in
      let conversation = text_at m ("conversation" ∷ "Conversation" ∷ []) in
      let extended = at m ("extendedTextMessage" ∷ "ExtendedTextMessage" ∷ []) in
      if is_empty conversation
      then (if is_some extended
          then (text_at extended ("text" ∷ "Text" ∷ []), "text")
          else elim (media_part message) [
            | none ↦ other_body_and_type message
            | some (value, kind) ↦
                (text_at (some value) ("caption" ∷ "Caption" ∷ "fileName" ∷ "FileName" ∷ []), kind)
          ])
      else (conversation, "text")
