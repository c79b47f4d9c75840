-- ===== src/Tests/Outbox.antt =====
-- Sends of the API at small inputs.
use wp_open_aurora.Prelude.{String, true, none, some, [], ◌∷◌, ◌≡◌, ◌⊎◌, ◌↔◌, refl}
use wp_open_aurora.Prelude.Results.{ok, err}
use wp_open_aurora.Prelude.Text.{ends_with}
use wp_open_aurora.Messages.Retry.{is_candidate}
use wp_open_aurora.Messages.Address.{Directory, resolve_send_chat_id}
use wp_open_aurora.Messages.Address.Target.{resolve_send_chat_id_target, IsOther}
use wp_open_aurora.Messages.Sending.{plain, Outside, Draft, StoredMessage, OutboundRetryPayload}
use wp_open_aurora.Messages.Sending.Steps.{new_row, mark_failed, save_and_send}
use wp_open_aurora.Messages.Sending.Operations.{with_engine, send_contact}
use wp_open_aurora.Messages.Sending.Every.{Operation, contact, perform, is_repeatable}
use wp_open_aurora.Messages.Sending.Endings.{Ending, perform-Ending}
use wp_open_aurora.Messages.Sending.Retried.{IsDue, perform_retried_iff}

-- A stored message names the account itself first and then the other side.
abbrev directory : Directory
directory = record {
  session_phone = some "4900";
  stored_messages = λ chat.
      ok (record { sender_phone = none; author = none; from = "4900@c.us"; to = "4911@c.us" } ∷ []);
  resolve_contact_phone = λ chat. err "closed";
  contact_number = λ chat. ok none;
  get_number_id = λ phone. ok (some "4911@c.us");
}

resolve_send_chat_id_target_example :
    (resolve_send_chat_id directory "77@lid" ≡ "77@lid")
    ⊎ ((phone : String) × (ends_with "77@lid" "@lid" ≡ true)
        × (directory.get_number_id phone ≡ ok (some (resolve_send_chat_id directory "77@lid")))
        × IsOther directory "77@lid" phone)
resolve_send_chat_id_target_example = resolve_send_chat_id_target directory "77@lid"

-- The engine answers every call with a time-out.
abbrev timing_out : Outside
timing_out = record {
  engine_ready = true;
  directory = directory;
  session_row = some (some "4900");
  id = "m1";
  client_id = λ id. "C1";
  to_lower_case = λ s. s;
  archive = λ m. none;
  send = λ call. err (plain "timeout");
  write = λ m. ok tt;
  clock = 1000;
  settings = record { base_delay_env = 0; max_attempts_env = 0 };
}

abbrev card : Operation
card = contact "4911@c.us" "Ada" "4912"

perform-Ending_example : Ending timing_out (perform timing_out "s1" card)
perform-Ending_example = perform-Ending timing_out "s1" card

abbrev draft : Draft
draft = record {
  chat_id = "4911@c.us";
  body = some "📇 Ada";
  message_type = "contact";
  retry = some (OutboundRetryPayload.contact "4911@c.us" "Ada" "4912");
  media = none;
  quoted = none;
}

abbrev failed_row : StoredMessage
failed_row = mark_failed timing_out (new_row timing_out "s1" (some "4900") draft) (plain "timeout")

perform_retried_iff_example :
    (is_candidate 16_000 0 failed_row.row ≡ true)
    ↔ IsDue timing_out (is_repeatable card) (perform timing_out "s1" card) 16_000
unfolding with_engine send_contact save_and_send mark_failed
perform_retried_iff_example =
    perform_retried_iff timing_out "s1" card failed_row 16_000 0 refl (λ e. cc)
