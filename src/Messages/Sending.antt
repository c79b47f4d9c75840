-- ===== src/Messages/Sending.antt =====
-- src/modules/message/message.service.ts: a send by the API. The row is stored as pending, the engine
-- is asked, and the row is stored again as sent or failed. The engine, the archive of media, the hash
-- of an id, random ids and the clock are parameters; so is whether the table takes a row, since a
-- write may throw. The typing indicator is not modelled: it changes nothing that is kept.
pub mod Steps
pub mod Operations
pub mod Every
pub mod Endings
pub mod Retried
use wp_open_aurora.Prelude.{
  ℕ, ◌+◌, max, String, Bool, true, false, not, ◌&&◌, ◌||◌, Option, none, some, List, [], ◌∷◌, any,
  leb, ◌==◌, or_default, if◌then◌else◌, is_empty, is_some,
}
use wp_open_aurora.Prelude.Results.{Result, ok, err, ◌>>=◌, ◌>>◌, throw_if}
use wp_open_aurora.Prelude.Text.{take_chars, contains_text}
use wp_open_aurora.Hooks.{HookManager, execute}
use wp_open_aurora.Messages.Status.{MessageStatus}
use wp_open_aurora.Messages.Retry
use wp_open_aurora.Messages.Retry.{Settings, base_delay}
use wp_open_aurora.Messages.Address.{Directory, resolve_send_chat_id}

pub data MediaKind : Type 0 where
  image video audio document sticker : MediaKind

pub data OutboundRetryPayload : Type 0 where
  text : String → String → OutboundRetryPayload
  media : MediaKind → String → Option String → OutboundRetryPayload
  location : String → String → String → Option String → Option String → OutboundRetryPayload
  contact : String → String → String → OutboundRetryPayload
  reply : String → String → String → OutboundRetryPayload

pub data SendError : Type 0 where
  not_ready : SendError
  http : ℕ → String → SendError
  ssrf_blocked : String → SendError
  plain : String → SendError

pub record MediaMetadata : Type 0 where
  pub mimetype : Option String
  pub filename : Option String
  pub content : Option String
  pub archived : Bool

-- A row of the table; `row` has the columns that the retries work on, with 0 for a time that is not
-- known yet.
pub record StoredMessage : Type 0 where
  pub row : Retry.Message OutboundRetryPayload
  pub session_id : String
  pub chat_id : String
  pub from : String
  pub body : Option String
  pub message_type : String
  pub client_message_id : String
  pub quoted : Option (String × String)
  pub media : Option MediaMetadata
  pub media_path : Option String

pub record MediaInput : Type 0 where
  pub mimetype : String
  pub content : String
  pub filename : Option String
  pub caption : Option String
  pub client_message_id : String

-- What the engine is asked.
pub data Call : Type 0 where
  send_text_message : String → String → String → Call
  send_media_message : MediaKind → String → MediaInput → Call
  send_location_message : String → String → String → Option String → Option String → String → Call
  send_contact_message : String → String → String → String → Call
  reply_to_message : String → String → String → String → Call
  forward_message : String → String → String → Call

pub record SendMediaMessageDto : Type 0 where
  pub chat_id : String
  pub url : Option String
  pub base64 : Option String
  pub mimetype : Option String
  pub filename : Option String
  pub caption : Option String

-- The columns that an operation gives `saveOutgoingMessage`.
pub record Draft : Type 0 where
  pub chat_id : String
  pub body : Option String
  pub message_type : String
  pub retry : Option OutboundRetryPayload
  pub media : Option MediaMetadata
  pub quoted : Option (String × String)

pub record Outside : Type 0 where
  pub engine_ready : Bool
  pub directory : Directory
  pub session_row : Option (Option String)
  pub id : String
  pub client_id : String → String
  pub to_lower_case : String → String
  pub archive : MediaMetadata → Option (String × MediaMetadata)
  pub send : Call → Result SendError (String × ℕ)
  pub write : StoredMessage → Result SendError (Unit {0})
  pub clock : ℕ
  pub settings : Settings

-- What a call of the service leaves: the row, the calls of the engine, and the answer.
pub record Outcome : Type 0 where
  pub stored : Option StoredMessage
  pub calls : List Call
  pub answer : Result SendError (String × ℕ)

unfoldable pub reason_of : SendError → String
reason_of not_ready =
    "This WhatsApp chat session has been closed or disconnected. Please reconnect the WhatsApp session before sending a message."
reason_of (http status message) = message
reason_of (ssrf_blocked message) = message
reason_of (plain message) = message

-- `toClientFacingError`
unfoldable pub to_client_facing_error : SendError → SendError
to_client_facing_error (ssrf_blocked message) = http 400 message
to_client_facing_error e = e

unfoldable pub refused : SendError → Outcome
refused e = record { stored = none; calls = []; answer = err e }

-- `dto.url || dto.base64` with the two checks of `buildMediaInput`.
abbrev or_text : Option String → String
or_text t = or_default t ""

unfoldable pub build_media_input : SendMediaMessageDto → Result SendError MediaInput
build_media_input dto = do
  throw_if (is_empty (or_text dto.url) && is_empty (or_text dto.base64))
      (http 400 "Either url or base64 must be provided")
  throw_if (not (is_empty (or_text dto.base64)) && is_empty (or_text dto.mimetype))
      (http 400 "mimetype is required when using base64 data")
  ok (record {
    mimetype =
        if is_empty (or_text dto.mimetype)
        then "application/octet-stream"
        else or_text dto.mimetype;
    content = if is_empty (or_text dto.url) then or_text dto.base64 else or_text dto.url;
    filename = dto.filename;
    caption = dto.caption;
    client_message_id = "";
  })
