-- ===== src/Messages/Sending/Steps.antt =====
-- src/modules/message/message.service.ts: the steps that all sends share.
use wp_open_aurora.Prelude.{
  ℕ, ◌+◌, String, Bool, true, ◌&&◌, Option, none, some, List, [], ◌∷◌, any, leb, if◌then◌else◌,
  is_empty, is_some,
}
use wp_open_aurora.Prelude.Results.{ok, err}
use wp_open_aurora.Prelude.Text.{take_chars, contains_text}
use wp_open_aurora.Messages.Status.{MessageStatus}
use wp_open_aurora.Messages.Retry.{base_delay}
use wp_open_aurora.Messages.Sending.{
  SendError, MediaMetadata, StoredMessage, Call, Draft, Outside, Outcome, reason_of,
  to_client_facing_error, refused, or_text,
}

-- The words of a failure that may pass.
abbrev passing_reasons : List String
passing_reasons =
    "timeout" ∷ "timed out" ∷ "network" ∷ "socket" ∷ "econn" ∷ "connection" ∷ "disconnected"
    ∷ "temporar" ∷ "unavailable" ∷ "502" ∷ "503" ∷ "504" ∷ []

module _ (out : Outside) where
  open out use {
    engine_ready, session_row, id, client_id, to_lower_case, archive, send, write, clock, settings,
  }

  unfoldable pub is_retryable_send_error : SendError → Bool
  unfolding reason_of contains_text
  is_retryable_send_error SendError.not_ready = true
  is_retryable_send_error (SendError.http status message) = leb 500 status
  is_retryable_send_error e =
      any (λ word. contains_text (to_lower_case (reason_of e)) word) passing_reasons

  -- The archived copy replaces the media of the row; without one the row keeps it.
  unfoldable pub archived : Option MediaMetadata → Option MediaMetadata × Option String
  archived none = (none, none)
  archived (some media) = elim (archive media) [
    | none ↦ (some media, none)
    | some (path, kept) ↦ (some (record kept { content = none; archived = true }), some path)
  ]

  -- `saveOutgoingMessage`, up to the write.
  unfoldable pub new_row : String → Option String → Draft → StoredMessage
  unfolding archived
  new_row session_id phone draft = record {
    row = record {
      id = id;
      status = MessageStatus.pending;
      retry = draft.retry;
      wa_message_id = none;
      timestamp = 0;
      retry_count = 0;
      next_retry_at = none;
      last_error = none;
      created_at = clock;
    };
    session_id = session_id;
    chat_id = draft.chat_id;
    from = if is_empty (or_text phone) then "me" else or_text phone;
    body = draft.body;
    message_type = draft.message_type;
    client_message_id = client_id id;
    quoted = draft.quoted;
    media = (archived draft.media).0;
    media_path = (archived draft.media).1;
  }

  -- `markMessageSent`, up to the write.
  unfoldable pub mark_sent : StoredMessage → String × ℕ → StoredMessage
  mark_sent m (wa_id, timestamp) = record m {
    row = record (m.row) {
      wa_message_id = some wa_id;
      status = MessageStatus.sent;
      timestamp = timestamp;
      next_retry_at = none;
      last_error = none;
      retry = none;
    };
  }

  -- `markMessageFailed`, up to the write.
  unfoldable pub mark_failed : StoredMessage → SendError → StoredMessage
  unfolding is_retryable_send_error base_delay
  mark_failed m e = record m {
    row = record (m.row) {
      status = MessageStatus.failed;
      last_error = some (take_chars 2000 (reason_of e));
      next_retry_at =
          if is_some m.row.retry && is_retryable_send_error e
          then some (clock + base_delay settings)
          else none;
    };
  }

  -- The `catch`: `m` is the row as the `try` has left it, `stored` what the table has.
  unfoldable pub give_up : StoredMessage → StoredMessage → List Call → SendError → Outcome
  unfolding mark_failed
  give_up stored m calls e = elim (write (mark_failed m e)) [
    | ok _ ↦ record {
      stored = some (mark_failed m e);
      calls = calls;
      answer = err (to_client_facing_error e);
    }
    | err e' ↦ record { stored = some stored; calls = calls; answer = err e' }
  ]

  -- The `try` with its `catch`, for a row that is stored as pending.
  unfoldable pub transmit : StoredMessage → Call → Outcome
  unfolding mark_sent give_up
  transmit m call = elim (send call) [
    | err e ↦ give_up m m (call ∷ []) e
    | ok result ↦ elim (write (mark_sent m result)) [
      | ok _ ↦ record { stored = some (mark_sent m result); calls = call ∷ []; answer = ok result }
      | err e ↦ give_up m (mark_sent m result) (call ∷ []) e
    ]
  ]

  -- `sessionService.findOne`, which throws where there is no row.
  abbrev pub with_session : Option (Option String) → (Option String → Outcome) → Outcome
  with_session none next = refused (SendError.http 404 "Session not found")
  with_session (some phone) next = next phone

  -- A write that throws leaves no row.
  unfoldable pub store_and_send : StoredMessage → Call → Outcome
  unfolding transmit refused
  store_and_send m call = elim (write m) [ err e ↦ refused e | ok _ ↦ transmit m call ]

  -- The row of a draft is stored, and the call is made.
  unfoldable pub save_and_send : String → Draft → (String → Call) → Outcome
  unfolding new_row store_and_send
  save_and_send session_id draft call =
      with_session session_row
        (λ phone. store_and_send (new_row session_id phone draft) (call (client_id id)))
