-- ===== src/Engine/Mapper.antt =====
-- src/engine/adapters/evolution-go-message-mapper.ts: a message event of Evolution Go as a message of
-- the program.
use wp_open_aurora.Prelude.{
  String, not, ◌&&◌, ◌||◌, Option, none, some, List, [], ◌∷◌, map, filter, or_default,
  if◌then◌else◌, is_empty,
}
use wp_open_aurora.Prelude.Text.{ends_with, split, part}
use wp_open_aurora.History.{IncomingMessage, Media, QuotedMessage, Location}
use wp_open_aurora.Engine.Json.{
  Json, Fields, first, record_of, bool_of, array_of, text_of, unix_seconds,
}
use wp_open_aurora.Engine.Ids.{to_neutral_whats_app_id}
use wp_open_aurora.Engine.Parts.{
  Outside, filled, or_text, or_fields, at, media_part, default_mimetype, message_container, text_at,
  id_of, body_and_type,
}

-- `record(first(envelope, 'data', 'Data')) ?? envelope`
unfoldable pub event_data : Option Json → Option Fields
unfolding first record_of
event_data payload = or_fields (at (record_of payload) ("data" ∷ "Data" ∷ [])) (record_of payload)

module _ (out : Outside) where
  open out use {to_lower_case, to_number, parse_date, coordinate, now}

  -- The first of the parts that has a context.
  unfoldable pub first_context : List (Option Fields) → Option Fields
  unfolding first record_of
  first_context [] = none
  first_context (candidate ∷ rest) =
      or_fields (at candidate ("contextInfo" ∷ "ContextInfo" ∷ [])) (first_context rest)

  unfoldable pub context_info : Fields → Option Fields
  unfolding first record_of media_part first_context
  context_info message =
      let m = some message in
      first_context (
        at m ("extendedTextMessage" ∷ "ExtendedTextMessage" ∷ [])
        ∷ elim (media_part message) [ none ↦ none | some (value, kind) ↦ some value ]
        ∷ at m ("locationMessage" ∷ "LocationMessage" ∷ [])
        ∷ at m ("contactMessage" ∷ "ContactMessage" ∷ [])
        ∷ [])

  unfoldable pub quoted_message : Fields → Fields → Option QuotedMessage
  unfolding first record_of text_of context_info body_and_type
  quoted_message data_fields message =
      let outer = at (some data_fields) ("quoted" ∷ "Quoted" ∷ []) in
      let context = context_info message in
      let id =
        or_text (text_at out outer ("stanzaID" ∷ "stanzaId" ∷ "StanzaID" ∷ []))
          (text_at out context ("stanzaID" ∷ "stanzaId" ∷ [])) in
      let quoted =
        or_fields (at outer ("quotedMessage" ∷ "QuotedMessage" ∷ []))
          (at context ("quotedMessage" ∷ "QuotedMessage" ∷ [])) in
      if is_empty id then none else elim quoted [
        | none ↦ none
        | some q ↦ some (record { id = id; body = (body_and_type out q).0 })
      ]

  unfoldable pub location : Fields → Option Location
  unfolding first record_of text_of
  location message =
      let m = some message in
      let value =
        or_fields (at m ("locationMessage" ∷ "LocationMessage" ∷ []))
          (at m ("liveLocationMessage" ∷ "LiveLocationMessage" ∷ [])) in
      elim value [
        | none ↦ none
        | some fs ↦
            elim (coordinate (
              first (some fs)
                ("degreesLatitude" ∷ "DegreesLatitude" ∷ "latitude" ∷ "Latitude" ∷ []))) [
                  | none ↦ none
                  | some latitude ↦
                      elim (coordinate (
                        first (some fs) (
                          "degreesLongitude" ∷ "DegreesLongitude" ∷ "longitude" ∷ "Longitude"
                          ∷ []))) [
                            | none ↦ none
                            | some longitude ↦ some (record {
                              latitude = latitude;
                              longitude = longitude;
                              description = filled (
                                  text_at out (some fs)
                                    ("name" ∷ "Name" ∷ "caption" ∷ "Caption" ∷ []));
                              address = filled (text_at out (some fs) ("address" ∷ "Address" ∷ []));
                              url = filled (text_at out (some fs) ("url" ∷ "URL" ∷ []));
                            })
                          ]
                ]
      ]

  unfoldable pub media : Fields → Option Media
  unfolding first record_of text_of media_part default_mimetype
  media message = elim (media_part message) [
    | none ↦ none
    | some (value, kind) ↦ some (record {
      mimetype = or_text (text_at out (some message) ("mimetype" ∷ "Mimetype" ∷ [])) (
          or_text (text_at out (some value) ("mimetype" ∷ "Mimetype" ∷ []))
            (default_mimetype kind));
      filename =
          filled
            (text_at out (some value) ("fileName" ∷ "FileName" ∷ "fileNameWithoutExtension" ∷ []));
      media_data = filled (text_at out (some message) ("base64" ∷ "Base64" ∷ []));
      url = filled (text_at out (some message) ("mediaUrl" ∷ "MediaURL" ∷ "mediaURL" ∷ []));
      storage_path = none;
    })
  ]

  unfoldable pub mentioned_ids : Fields → List String
  unfolding first text_of array_of context_info to_neutral_whats_app_id
  mentioned_ids message =
      filter (λ id. not (is_empty id))
        (map (λ value. id_of out (some value))
          (or_default
            (array_of (
              first (context_info message) ("mentionedJID" ∷ "mentionedJid" ∷ "MentionedJID" ∷ [])))
            []))

  -- The id of a message event, or a blank one.
  unfoldable pub message_id : Fields → String
  unfolding first record_of text_of
  message_id data_fields =
      or_text (text_at out (at (some data_fields) ("Info" ∷ "info" ∷ [])) ("ID" ∷ "id" ∷ []))
        (text_at out (some data_fields) ("id" ∷ "messageId" ∷ "MessageID" ∷ []))

  -- A privacy id gives way to the phone number that comes with it.
  unfoldable pub resolved_sender : String → String → String
  unfolding ends_with
  resolved_sender direct alternative =
      if ends_with direct "@lid" && ends_with alternative "@c.us" then alternative else direct

  unfoldable pub with_message_id : String → String → Fields → IncomingMessage
  unfolding first record_of text_of bool_of message_container body_and_type quoted_message location
      media mentioned_ids resolved_sender unix_seconds ends_with split to_neutral_whats_app_id
  with_message_id self_jid id data_fields =
      let info = at (some data_fields) ("Info" ∷ "info" ∷ []) in
      let message = message_container data_fields in
      let chat = id_of out (first info ("Chat" ∷ "chat" ∷ [])) in
      let sender = id_of out (first info ("Sender" ∷ "sender" ∷ [])) in
      let sender_alt = id_of out (first info ("SenderAlt" ∷ "senderAlt" ∷ [])) in
      let from_me = bool_of (first info ("IsFromMe" ∷ "isFromMe" ∷ "fromMe" ∷ [])) in
      let is_group = bool_of (first info ("IsGroup" ∷ "isGroup" ∷ [])) || ends_with chat "@g.us" in
      let self = to_neutral_whats_app_id to_lower_case self_jid in
      let direct = or_text sender chat in
      let resolved = resolved_sender direct sender_alt in
      record {
        id = id;
        chat_id = or_text chat resolved;
        from = if from_me then self else if is_group then chat else resolved;
        to = if from_me then or_text chat resolved else self;
        body = (body_and_type out message).0;
        message_type = (body_and_type out message).1;
        from_me = from_me;
        is_group = is_group;
        is_status_broadcast = ends_with (or_text chat resolved) "@broadcast";
        timestamp = elim (first info ("Timestamp" ∷ "timestamp" ∷ [])) [
          | none ↦ now
          | some value ↦ unix_seconds to_number parse_date now value
        ];
        media = media message;
        quoted_message = quoted_message data_fields message;
        location = location message;
        contact = some (record {
          name = filled (text_at out (some data_fields) ("contactName" ∷ "ContactName" ∷ []));
          push_name = filled (text_at out info ("PushName" ∷ "pushName" ∷ []));
        });
        sender_phone =
            if not (ends_with resolved "@lid") && ends_with resolved "@c.us"
            then some (part (split b'@' resolved) 0)
            else none;
        author = if is_group && not from_me then some direct else none;
        mentioned_ids = mentioned_ids message;
        is_lid_sender = ends_with resolved "@lid";
      }

  unfoldable pub map_evolution_message : Option Json → String → Option IncomingMessage
  unfolding event_data message_id with_message_id
  map_evolution_message payload self_jid = elim (event_data payload) [
    | none ↦ none
    | some data_fields ↦
        if is_empty (message_id data_fields)
        then none
        else some (with_message_id self_jid (message_id data_fields) data_fields)
  ]
