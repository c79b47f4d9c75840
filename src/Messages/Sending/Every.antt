-- ===== src/Messages/Sending/Every.antt =====
-- All sends of the API go through the same steps: what holds of a refusal and of the transmission of a
-- pending row holds of every operation.
use wp_open_aurora.Prelude.{
  String, Bool, true, false, Option, none, some, [], ◌≡◌, refl, inl, inr, is_some, Bool-cases,
}
use wp_open_aurora.Prelude.Results.{Result, ok, err, Result-cases}
use wp_open_aurora.Hooks.{HookManager, execute}
use wp_open_aurora.Messages.Status.{MessageStatus}
use wp_open_aurora.Messages.Sending.{
  MediaKind, MediaInput, SendError, StoredMessage, Call, SendMediaMessageDto, Draft, Outside,
  Outcome, refused, build_media_input,
}
use wp_open_aurora.Messages.Sending.Steps.{
  new_row, transmit, store_and_send, save_and_send, with_session,
}
use wp_open_aurora.Messages.Sending.Operations.{
  SendTextMessageDto, Template, with_engine, with_media, send_text, send_template, send_media,
  send_location, send_contact, reply, forward,
}

-- The operations with their arguments.
pub data Operation : Type 0 where
  text : HookManager SendTextMessageDto → SendTextMessageDto → Operation
  template :
      (String → String) → HookManager SendTextMessageDto → Option Template → String → Operation
  media : MediaKind → SendMediaMessageDto → Operation
  location : String → String → String → Option String → Option String → Operation
  contact : String → String → String → Operation
  replying : String → String → String → String → Operation
  forwarding : String → String → String → Operation

abbrev pub perform : Outside → String → Operation → Outcome
perform out s (text hooks dto) = send_text out s hooks dto
perform out s (template render hooks t chat) = send_template out s render hooks t chat
perform out s (media kind dto) = send_media out s kind dto
perform out s (location chat x y d a) = send_location out s chat x y d a
perform out s (contact chat name number) = send_contact out s chat name number
perform out s (replying chat q b t) = reply out s chat q b t
perform out s (forwarding from to id) = forward out s from to id

abbrev pub is_repeatable : Operation → Bool
is_repeatable (forwarding from to id) = false
is_repeatable _ = true

module _ (out : Outside) (repeatable : Bool) (P : Outcome → Type 0)
    (of_refused : (e : SendError) → P (refused e))
    (of_transmit : (m : StoredMessage) (call : Call)
      → m.row.status ≡ MessageStatus.pending
      → is_some m.row.retry ≡ repeatable
      → P (transmit out m call)) where
  store_and_send_all :
      (m : StoredMessage) (call : Call)
      → m.row.status ≡ MessageStatus.pending
      → is_some m.row.retry ≡ repeatable
      → P (store_and_send out m call)
  unfolding store_and_send
  store_and_send_all m call h r = elim (Result-cases (out.write m)) [
    | inr (x, w) ↦ rw (store_and_send, w) (of_refused x)
    | inl (u, w) ↦ rw (store_and_send, w) (of_transmit m call h r)
  ]

  with_session_all :
      (session_row : Option (Option String)) (next : Option String → Outcome)
      → ((phone : Option String) → P (next phone))
      → P (with_session out session_row next)
  with_session_all none next h = of_refused _
  with_session_all (some phone) next h = h phone

  with_engine_all : (ready : Bool) (o : Outcome) → P o → P (with_engine ready o)
  unfolding with_engine
  with_engine_all true o h = h
  with_engine_all false o h = of_refused _

  with_media_all :
      (input : Result SendError MediaInput) (next : MediaInput → Outcome)
      → ((m : MediaInput) → P (next m))
      → P (with_media input next)
  with_media_all (err e) next h = of_refused e
  with_media_all (ok m) next h = h m

  pub save_and_send_all :
      (s : String) (draft : Draft) (call : String → Call)
      → is_some draft.retry ≡ repeatable
      → P (save_and_send out s draft call)
  unfolding save_and_send new_row
  save_and_send_all s draft call r =
      with_session_all out.session_row _ (λ phone.
        store_and_send_all (new_row out s phone draft) (call (out.client_id out.id)) refl r)

  saved :
      (s : String) (draft : Draft) (call : String → Call)
      → is_some draft.retry ≡ repeatable
      → P (with_engine out.engine_ready (save_and_send out s draft call))
  saved s draft call r = with_engine_all _ _ (save_and_send_all s draft call r)

  send_text_all :
      (s : String) (hooks : HookManager SendTextMessageDto) (dto : SendTextMessageDto)
      → true ≡ repeatable
      → P (send_text out s hooks dto)
  unfolding send_text
  send_text_all s hooks dto r = elim (Bool-cases ((execute [] "message:sending" dto hooks).0)) [
    | inl e ↦ rw (send_text, e) (saved s _ _ r)
    | inr e ↦ rw (send_text, e) (of_refused _)
  ]

  pub perform_all :
      (s : String) (op : Operation) → is_repeatable op ≡ repeatable → P (perform out s op)
  unfolding send_template send_media send_location send_contact reply forward
  perform_all s (text hooks dto) r = send_text_all s hooks dto r
  perform_all s (template render hooks none chat) r = of_refused _
  perform_all s (template render hooks (some t) chat) r = send_text_all s hooks _ r
  perform_all s (media kind dto) r =
      with_engine_all _ _
        (with_media_all (build_media_input dto) _ (λ media. save_and_send_all s _ _ r))
  perform_all s (location chat x y d a) r = saved s _ _ r
  perform_all s (contact chat name number) r = saved s _ _ r
  perform_all s (replying chat q b t) r = saved s _ _ r
  perform_all s (forwarding from to id) r = saved s _ _ r
