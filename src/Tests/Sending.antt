-- ===== src/Tests/Sending.antt =====
-- Batches, retries, receipts and webhooks at small inputs.
use wp_open_aurora.Prelude.{
  ℕ, String, true, false, none, some, List, [], ◌∷◌, ◌≡◌, if◌then◌else◌, refl, arith, map, eqb, ◌≤◌,
  ◌+◌, suc, zero, length, inl,
}
use wp_open_aurora.Prelude.Results.{ok, err, Result}
use wp_open_aurora.Messages.Status.{MessageStatus, DeliveryStatus, StoredMessage}
use wp_open_aurora.Messages.Status.Forward.{receive_acks_progress, receive_acks, is_for, farthest}
use wp_open_aurora.Messages.Retry.{Message, Settings, Environment, is_candidate, process_message}
use wp_open_aurora.Messages.Retry.{Random}
use wp_open_aurora.Messages.Retry.Scan.{sends, budget, sends-budget}
use wp_open_aurora.Messages.Bulk.Senders.{resolve_sender_config}
use wp_open_aurora.Messages.Bulk.Senders.Once.{IsResolved, resolve_sender_config-IsResolved}
use wp_open_aurora.Messages.Retry.Lease.{process_message_outcome, Outcome}
use wp_open_aurora.Messages.Bulk.{BatchStatus, BulkMessage, MessageBatch, new_batch, process_batch}
use wp_open_aurora.Messages.Bulk
use wp_open_aurora.Messages.Bulk.Counters.{process_batch-Accounts, Accounts}
use wp_open_aurora.Messages.Bulk.Prefix.{process_batch_works_off, IsWorkedOff}
use wp_open_aurora.Webhooks
use wp_open_aurora.Webhooks.{Webhook, build_headers, deliver_webhook}
use wp_open_aurora.Webhooks.Queue.{WebhookPayload, WebhookJobData, job_of, post, told}
use wp_open_aurora.Webhooks.Reports.{told_once}

-- Two senders that change places after each message; the second message fails, and a cancellation is
-- seen before the fourth.
abbrev channel : wp_open_aurora.Messages.Bulk.Outside String
channel = record {
  name_of = λ id. some id;
  is_engine_active = λ i id. true;
  send_message = λ i sender m. if eqb i 1 then err "timeout" else ok "wamid";
  clock = λ i. 1000 + i;
  cancelled_at = some 3;
}

abbrev letter : String → BulkMessage String
letter chat = record { chat_id = chat; content = "hello" }

abbrev batch : MessageBatch String
batch =
    new_batch "b1" "s1"
      (record {
        stop_on_error = false;
        source_session_ids = "s1" ∷ "s2" ∷ [];
        rotate_after_count = some 1;
      })
      (letter "a" ∷ letter "b" ∷ letter "c" ∷ letter "d" ∷ [])

process_batch-Accounts_example : Accounts (process_batch channel batch)
unfolding new_batch
process_batch-Accounts_example =
    process_batch-Accounts channel batch
      (record { sent = refl; failed = omega arith; pending = omega arith; cancelled = refl })
      (omega arith)

process_batch_works_off_example : IsWorkedOff channel batch (process_batch channel batch)
unfolding new_batch
process_batch_works_off_example = process_batch_works_off channel batch refl refl

abbrev failed_message : Message String
failed_message = record {
  id = "m1";
  status = MessageStatus.failed;
  retry = some "payload";
  wa_message_id = none;
  timestamp = 0;
  retry_count = 1;
  next_retry_at = some 50;
  last_error = none;
  created_at = 0;
}

abbrev settings : Settings
settings = record { base_delay_env = 0; max_attempts_env = 3 }

abbrev environment : Environment String
environment = record {
  now = 100;
  clock = 120;
  engine_ready = true;
  send = λ m p. err "offline";
  is_permanent = λ e. false;
  random = record { num = 1; den = 2 };
}

process_message_outcome_example :
    Outcome settings environment failed_message
      (process_message settings environment failed_message failed_message).0
unfolding is_candidate
process_message_outcome_example =
    process_message_outcome settings environment failed_message 0 refl (omega arith)

abbrev stored : List StoredMessage
stored =
    record { session_id = "s1"; wa_message_id = "w1"; status = MessageStatus.sent }
    ∷ record { session_id = "s2"; wa_message_id = "w1"; status = MessageStatus.pending }
    ∷ record { session_id = "s1"; wa_message_id = "w2"; status = MessageStatus.failed }
    ∷ []

abbrev receipts : List DeliveryStatus
receipts = DeliveryStatus.read ∷ DeliveryStatus.delivered ∷ []

receive_acks_progress_example :
    receive_acks "s1" "w1" receipts stored
    ≡ map
        (λ m. if is_for "s1" "w1" m then record m { status = farthest receipts m.status } else m)
        stored
receive_acks_progress_example =
    receive_acks_progress "s1" "w1" receipts stored ((λ e. ground arith), ((λ e. ground arith), tt))

abbrev hook : Webhook
hook = record {
  id = "h";
  session_id = "s1";
  url = "http://example.org/";
  events = "*" ∷ [];
  secret = none;
  headers = [];
  active = true;
  retry_count = 3;
}

abbrev target : wp_open_aurora.Webhooks.Outside
target = record {
  to_lower_case = λ s. s;
  show = λ n. "n";
  generate_signature = λ b s. "sig";
  is_ssrf_protected = true;
  assert_safe_fetch_url = λ n u. ok tt;
  fetch =
      λ n u h b. ok (record { status = if eqb n 2 then 200 else 500; is_opaque_redirect = false });
  retry_delay = 5000;
}

abbrev payload : WebhookPayload
payload = record {
  event = "message.received";
  timestamp = "t";
  session_id = "s1";
  idempotency_key = "k";
  delivery_id = "d";
  event_data = "";
}

abbrev accept : WebhookJobData → ℕ → ℕ → Result String (Unit {0})
accept job attempts delay = ok tt

abbrev update : ℕ → String → Result String (Unit {0})
update made id = ok tt

abbrev job : WebhookJobData
job = job_of target (λ p. "{}") accept update hook "message.received" payload []

-- The receiver refuses the first two runs of the job.
refused : (i : ℕ) → suc i ≤ 2 → (e : String) × (post target (λ p. "{}") accept update job i ≡ err e)
unfolding post job_of
refused zero h = ("HTTP error", refl)
refused (suc zero) h = ("HTTP error", refl)
refused (suc (suc i)) h = ("", ground arith)

told_once_example : length (told target (λ p. "{}") accept update job 3 0) ≡ 1
unfolding job_of
told_once_example =
    told_once target (λ p. "{}") accept update job 2 (omega arith) refused (inl refl)

-- The same row over two scans: the send fails for good in the first.
abbrev two_scans : List (Environment String × ℕ)
two_scans = (environment, 0) ∷ (environment, 0) ∷ []

sends-budget_example : sends settings two_scans failed_message ≤ budget settings failed_message
sends-budget_example = sends-budget settings two_scans failed_message

abbrev half : ℕ → Random
half i = record { num = 1; den = 2 }

resolve_sender_config-IsResolved_example :
    IsResolved
      (λ id. true)
      "s1"
      ("s2" ∷ "s1" ∷ [])
      (resolve_sender_config half (λ id. true) "s1" ("s2" ∷ "s1" ∷ []) none true)
resolve_sender_config-IsResolved_example =
    resolve_sender_config-IsResolved half (λ id. true) "s1" ("s2" ∷ "s1" ∷ []) none true
