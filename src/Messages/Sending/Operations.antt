-- ===== src/Messages/Sending/Operations.antt =====
-- src/modules/message/message.service.ts: the operations of the API that send a message.
use wp_open_aurora.Prelude.{
  String, Bool, false, not, Option, none, some, [], ◌∷◌, map, filter, if◌then◌else◌, is_empty,
}
use Prim.Native.String
use wp_open_aurora.Prelude.Results.{Result, ok, err}
use wp_open_aurora.Prelude.Text.{join}
use wp_open_aurora.Hooks.{HookManager, execute}
use wp_open_aurora.Messages.Address.{resolve_send_chat_id}
use wp_open_aurora.Messages.Sending.{
  MediaKind, image, video, audio, document, sticker, OutboundRetryPayload, SendError, MediaInput,
  Call, SendMediaMessageDto, Outside, Outcome, refused, build_media_input, or_text,
}
use wp_open_aurora.Messages.Sending.Steps.{save_and_send}

pub record SendTextMessageDto : Type 0 where
  pub chat_id : String
  pub text : String

pub record Template : Type 0 where
  pub header : Option String
  pub body : String
  pub footer : Option String

unfoldable pub body_of : MediaKind → SendMediaMessageDto → Option String
body_of image dto = some (or_text dto.caption)
body_of video dto = some (or_text dto.caption)
body_of document dto = some (or_text dto.filename)
body_of audio dto = none
body_of sticker dto = none

unfoldable pub retry_caption : MediaKind → SendMediaMessageDto → Option String
retry_caption audio dto = none
retry_caption sticker dto = none
retry_caption _ dto = dto.caption

unfoldable pub type_of : MediaKind → String
type_of image = "image"
type_of video = "video"
type_of audio = "audio"
type_of document = "document"
type_of sticker = "sticker"

-- `getEngine`, whose two refusals are one.
unfoldable pub with_engine : Bool → Outcome → Outcome
unfolding refused
with_engine ready o = if ready then o else refused SendError.not_ready

abbrev pub with_media : Result SendError MediaInput → (MediaInput → Outcome) → Outcome
with_media (err e) next = refused e
with_media (ok media) next = next media

module _ (out : Outside) (session_id : String) where
  abbrev target_of : String → String
  target_of chat_id = resolve_send_chat_id out.directory chat_id

  unfoldable pub send_text : HookManager SendTextMessageDto → SendTextMessageDto → Outcome
  send_text hooks dto =
      let (continues, final) = execute [] "message:sending" dto hooks in
      if continues
      then with_engine out.engine_ready (
          save_and_send out session_id
            (record {
              chat_id = final.chat_id;
              body = some final.text;
              message_type = "text";
              retry = some (OutboundRetryPayload.text final.chat_id final.text);
              media = none;
              quoted = none;
            })
            (λ id. Call.send_text_message (target_of final.chat_id) final.text id))
      else refused (SendError.http 400 "Message sending blocked by plugin")

  -- `render` is `renderTemplate` with the variables of the request.
  unfoldable pub send_template :
      (String → String) → HookManager SendTextMessageDto → Option Template → String → Outcome
  unfolding send_text refused join
  send_template render hooks none chat_id = refused (SendError.http 404 "Template not found")
  send_template render hooks (some t) chat_id = send_text hooks (record {
    chat_id = chat_id;
    text = join "\n\n" (
        map render
          (filter (λ s. not (is_empty s)) (or_text t.header ∷ t.body ∷ or_text t.footer ∷ [])));
  })

  -- The five operations for media, which differ in the kind alone.
  unfoldable pub send_media : MediaKind → SendMediaMessageDto → Outcome
  unfolding body_of retry_caption type_of
  send_media kind dto = with_engine out.engine_ready (
      with_media (build_media_input dto) (λ media.
        save_and_send out session_id
          (record {
            chat_id = dto.chat_id;
            body = body_of kind dto;
            message_type = type_of kind;
            retry = some (OutboundRetryPayload.media kind dto.chat_id (retry_caption kind dto));
            media = some (record {
              mimetype = dto.mimetype;
              filename = dto.filename;
              content = if is_empty (or_text dto.base64) then dto.url else dto.base64;
              archived = false;
            });
            quoted = none;
          })
          (λ id.
            Call.send_media_message kind (target_of dto.chat_id)
              (record media { client_message_id = id }))))

  unfoldable pub send_location : String → String → String → Option String → Option String → Outcome
  send_location chat_id latitude longitude description address = with_engine out.engine_ready (
      save_and_send out session_id
        (record {
          chat_id = chat_id;
          body = some (
              String.◌++◌ "📍 "
                (if is_empty (or_text description) then "Location" else or_text description));
          message_type = "location";
          retry =
              some (OutboundRetryPayload.location chat_id latitude longitude description address);
          media = none;
          quoted = none;
        })
        (λ id.
          Call.send_location_message (target_of chat_id) latitude longitude description address id))

  unfoldable pub send_contact : String → String → String → Outcome
  send_contact chat_id name number = with_engine out.engine_ready (
      save_and_send out session_id
        (record {
          chat_id = chat_id;
          body = some (String.◌++◌ "📇 " name);
          message_type = "contact";
          retry = some (OutboundRetryPayload.contact chat_id name number);
          media = none;
          quoted = none;
        })
        (λ id. Call.send_contact_message (target_of chat_id) name number id))

  -- `quoted_body` is the stored text of the quoted message, or blank.
  unfoldable pub reply : String → String → String → String → Outcome
  reply chat_id quoted_message_id quoted_body text = with_engine out.engine_ready (
      save_and_send out session_id
        (record {
          chat_id = chat_id;
          body = some text;
          message_type = "text";
          retry = some (OutboundRetryPayload.reply chat_id quoted_message_id text);
          media = none;
          quoted = some (quoted_message_id, quoted_body);
        })
        (λ id. Call.reply_to_message (target_of chat_id) quoted_message_id text id))

  unfoldable pub forward : String → String → String → Outcome
  forward from_chat_id to_chat_id message_id = with_engine out.engine_ready (
      save_and_send out session_id
        (record {
          chat_id = to_chat_id;
          body = some "[Forwarded]";
          message_type = "forward";
          retry = none;
          media = none;
          quoted = none;
        })
        (λ id. Call.forward_message (target_of from_chat_id) (target_of to_chat_id) message_id))

  abbrev pub send_image : SendMediaMessageDto → Outcome
  send_image dto = send_media image dto

  abbrev pub send_video : SendMediaMessageDto → Outcome
  send_video dto = send_media video dto

  abbrev pub send_audio : SendMediaMessageDto → Outcome
  send_audio dto = send_media audio dto

  abbrev pub send_document : SendMediaMessageDto → Outcome
  send_document dto = send_media document dto

  abbrev pub send_sticker : SendMediaMessageDto → Outcome
  send_sticker dto = send_media sticker dto
