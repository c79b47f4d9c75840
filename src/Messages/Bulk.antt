-- ===== src/Messages/Bulk.antt =====
-- src/modules/message/bulk-message.service.ts: batches of messages. One call is one step, except
-- `processBatch`, during which a cancellation may come: `cancelled_at` is the number of the check of
-- the flag that first sees it, counted by the index of the message that follows the check. The
-- engine (with the variables put in), the names of the senders and the clock are parameters.
pub mod Counters
pub mod Prefix
pub mod Senders
use Prim.Native.String
use wp_open_aurora.Prelude.{
  ℕ, zero, suc, ◌+◌, ◌-◌, ◌/◌, ◌%◌, max, String, Bool, true, false, not, ◌&&◌, ◌||◌, Option, none,
  some, List, [], ◌∷◌, ◌++◌, leb, ltb, eqb, if◌then◌else◌, or_default, is_empty, length, get_elem?,
}
use wp_open_aurora.Prelude.Results.{Result, ok, err}

pub data BatchStatus : Type 0 where
  pending processing completed cancelled failed : BatchStatus

pub data BatchMessageStatus : Type 0 where
  pending sent failed cancelled : BatchMessageStatus

pub record BatchProgress : Type 0 where
  pub total : ℕ
  pub sent : ℕ
  pub failed : ℕ
  pub pending : ℕ
  pub cancelled : ℕ

pub record BatchMessageResult : Type 0 where
  pub chat_id : String
  pub source_session_id : String
  pub source_session_name : Option String
  pub status : BatchMessageStatus
  pub message_id : Option String
  pub error : Option (String × String)
  pub sent_at : Option ℕ

pub record BulkMessage (Content : Type 0) : Type 0 where
  pub chat_id : String
  pub content : Content

pub record BatchOptions : Type 0 where
  pub stop_on_error : Bool
  pub source_session_ids : List String
  pub rotate_after_count : Option ℕ

pub record MessageBatch (Content : Type 0) : Type 0 where
  pub batch_id : String
  pub session_id : String
  pub status : BatchStatus
  pub messages : List (BulkMessage Content)
  pub options : BatchOptions
  pub progress : BatchProgress
  pub results : List BatchMessageResult
  pub current_index : ℕ
  pub started_at : Option ℕ
  pub completed_at : Option ℕ

unfoldable pub resolve_final_batch_status : Bool → Bool → BatchProgress → BatchStatus
resolve_final_batch_status was_cancelled stopped_on_error p =
    if was_cancelled
    then BatchStatus.cancelled
    else (if stopped_on_error
        then BatchStatus.failed
        else (if ltb 0 p.failed && eqb p.sent 0 then BatchStatus.failed else BatchStatus.completed))

-- What the loop reads from outside: the sender's engine, the send of message `i` and the clock.
pub record Outside (Content : Type 0) : Type 0 where
  pub name_of : String → Option String
  pub is_engine_active : ℕ → String → Bool
  pub send_message : ℕ → String → BulkMessage Content → Result String String
  pub clock : ℕ → ℕ
  pub cancelled_at : Option ℕ

abbrev pub drop {ℓ} : {A : Type ℓ} → ℕ → List A → List A
drop zero xs = xs
drop (suc n) [] = []
drop (suc n) (x ∷ xs) = drop n xs

-- The progress and the stamp that a cancellation writes.
unfoldable pub cancel_progress : BatchProgress → BatchProgress
cancel_progress p = record p { cancelled = p.pending; pending = 0 }

-- The answer and the batch as `cancelBatch` saves it; the flag of the run is cleared at the same time.
unfoldable pub cancel_batch : {C : Type 0} → ℕ → MessageBatch C → Result String (MessageBatch C)
unfolding cancel_progress
cancel_batch now b = elim b.status [
  | BatchStatus.completed ↦ err "already completed"
  | BatchStatus.cancelled ↦ err "already cancelled"
  | _ ↦ ok (record b {
    status = BatchStatus.cancelled;
    progress = cancel_progress b.progress;
    completed_at = some now;
  })
]

-- The row that `createBatch` saves.
unfoldable pub new_batch :
    {C : Type 0} → String → String → BatchOptions → List (BulkMessage C) → MessageBatch C
new_batch batch_id session_id options messages = record {
  batch_id = batch_id;
  session_id = session_id;
  status = BatchStatus.pending;
  messages = messages;
  options = options;
  progress = record {
    total = length messages;
    sent = 0;
    failed = 0;
    pending = length messages;
    cancelled = 0;
  };
  results = [];
  current_index = 0;
  started_at = none;
  completed_at = none;
}

abbrev pub is_sent : BatchMessageResult → Bool
is_sent r = elim r.status [ BatchMessageStatus.sent ↦ true | _ ↦ false ]

unfoldable pub count : Bool → BatchProgress → BatchProgress
count true p = record p { sent = p.sent + 1; pending = p.pending - 1 }
count false p = record p { failed = p.failed + 1; pending = p.pending - 1 }

abbrev sender_ids : BatchOptions → String → List String
sender_ids options session_id = elim options.source_session_ids [
  | [] ↦ session_id ∷ []
  | id ∷ ids ↦ id ∷ ids
]

-- The session that sends message `i` of a batch of session `session_id`.
unfoldable pub sender_of : BatchOptions → String → ℕ → String
sender_of options session_id i =
    let ids = sender_ids options session_id in
    let rotate = max 1 (or_default options.rotate_after_count 5) in
    elim (get_elem? ids ((i / rotate) % length ids)) [
      | none ↦ session_id
      | some id ↦ if is_empty id then session_id else id
    ]

-- `name || id`
abbrev label_of : Option String → String → String
label_of none id = id
label_of (some name) id = if is_empty name then id else name

module _ {C : Type 0} (out : Outside C) where
  open out use {name_of, is_engine_active, send_message, clock, cancelled_at}

  -- What a check of the flag before message `i` finds.
  abbrev pub is_cancelled : ℕ → Bool
  is_cancelled i = elim cancelled_at [ none ↦ false | some at ↦ leb at i ]

  -- One turn of the loop up to the push of its result.
  unfoldable pub send_one : BatchOptions → String → ℕ → BulkMessage C → BatchMessageResult
  unfolding sender_of
  send_one options session_id i msg =
      let sender = sender_of options session_id i in
      let result : BatchMessageResult = record {
        chat_id = msg.chat_id;
        source_session_id = sender;
        source_session_name = name_of sender;
        status = BatchMessageStatus.pending;
        message_id = none;
        error = none;
        sent_at = none;
      } in
      let failure : String → BatchMessageResult = λ e. record result {
        status = BatchMessageStatus.failed;
        error = some ("SEND_FAILED", e);
      } in
      if is_engine_active i sender
      then elim (send_message i sender msg) [
        | ok id ↦ record result {
          status = BatchMessageStatus.sent;
          message_id = some id;
          sent_at = some (clock i);
        }
        | err e ↦ failure e
      ]
      else failure (
          String.◌++◌ "Error: Sender session '"
            (String.◌++◌ (label_of (name_of sender) sender) "' is not active"))

  -- The batch after the loop, whether it stopped on an error, and the number of the last check.
  unfoldable pub process_from :
      ℕ → List (BulkMessage C) → MessageBatch C → MessageBatch C × (Bool × ℕ)
  unfolding send_one count
  process_from i [] b = (b, (false, i))
  process_from i (msg ∷ msgs) b =
      let r = send_one b.options b.session_id i msg in
      let b' : MessageBatch C = record b {
        progress = count (is_sent r) b.progress;
        results = b.results ++ r ∷ [];
      } in
      let rest = process_from (suc i) msgs (record b' { current_index = suc i }) in
      if is_cancelled i
      then (b, (false, i))
      else (if not (is_sent r) && b.options.stop_on_error
          then (record b' { status = BatchStatus.failed }, (true, suc i))
          else rest)

  -- The final update, from what the loop has left.
  unfoldable pub finish : MessageBatch C × (Bool × ℕ) → MessageBatch C
  unfolding resolve_final_batch_status cancel_progress
  finish (b, (stopped, i)) = record b {
    status = resolve_final_batch_status (is_cancelled i) stopped b.progress;
    progress = if is_cancelled i then cancel_progress b.progress else b.progress;
    completed_at = some (clock i);
  }

  abbrev pub started : MessageBatch C → MessageBatch C
  started b = record b {
    status = BatchStatus.processing;
    started_at = some (clock b.current_index);
  }

  unfoldable pub process_batch : MessageBatch C → MessageBatch C
  unfolding process_from finish
  process_batch b =
      finish (process_from b.current_index (drop b.current_index b.messages) (started b))
