-- ===== src/Webhooks/Queue.antt =====
-- src/modules/webhook/webhook.service.ts and src/modules/queue/processors/webhook.processor.ts: a
-- webhook as a job of the queue, and one run of the job. The queue itself, the guard of the address,
-- the request and the update of the table's timestamp are parameters.
use wp_open_aurora.Prelude.{
  ℕ, zero, suc, ◌+◌, String, Bool, not, Option, none, some, List, [], ◌∷◌, ◌++◌, leb, if◌then◌else◌,
  Map, put, is_empty,
}
use wp_open_aurora.Prelude.Results.{Result, ok, err, ◌>>=◌, ◌>>◌, throw_if}
use wp_open_aurora.Webhooks.{Outside, Webhook, assert_no_redirect, is_ok}

pub record WebhookPayload : Type 0 where
  pub event : String
  pub timestamp : String
  pub session_id : String
  pub idempotency_key : String
  pub delivery_id : String
  pub event_data : String

pub record WebhookJobData : Type 0 where
  pub webhook_id : String
  pub url : String
  pub event : String
  pub payload : WebhookPayload
  pub signature : String
  pub headers : Map String
  pub attempt : ℕ
  pub max_retries : ℕ

-- Without the response time.
pub record WebhookJobResult : Type 0 where
  pub status_code : ℕ
  pub success : Bool

-- What plugins are told, the id of the delivery with it.
pub data Told : Type 0 where
  queued : String → Told
  delivered : String → ℕ → ℕ → Told
  failed : String → String → ℕ → Told
  queue_failed : String → Told

module _ (out : Outside) (stringify : WebhookPayload → String)
    (add : WebhookJobData → ℕ → ℕ → Result String (Unit {0}))
    (update_last_triggered : ℕ → String → Result String (Unit {0})) where
  open out use {
    show, generate_signature, is_ssrf_protected, assert_safe_fetch_url, fetch, retry_delay,
  }

  -- The signature of a job, empty without a secret.
  unfoldable pub signature_of : Option String → WebhookPayload → String
  signature_of none payload = ""
  signature_of (some secret) payload =
      if is_empty secret then "" else generate_signature (stringify payload) secret

  unfoldable pub signed_headers : Option String → WebhookPayload → Map String → Map String
  unfolding put
  signed_headers none payload headers = headers
  signed_headers (some secret) payload headers =
      if is_empty secret
      then headers
      else put "X-OpenWA-Signature" (generate_signature (stringify payload) secret) headers

  -- The job of a webhook.
  unfoldable pub job_of : Webhook → String → WebhookPayload → Map String → WebhookJobData
  unfolding signature_of signed_headers
  job_of w event payload headers = record {
    webhook_id = w.id;
    url = w.url;
    event = event;
    payload = payload;
    signature = signature_of w.secret payload;
    headers = signed_headers w.secret payload headers;
    attempt = 1;
    max_retries = w.retry_count;
  }

  -- The branch of `dispatch` with a queue.
  unfoldable pub enqueue : Webhook → String → WebhookPayload → Map String → Told
  unfolding job_of
  enqueue w event payload headers =
      elim (add (job_of w event payload headers) w.retry_count retry_delay) [
        | ok _ ↦ queued payload.delivery_id
        | err e ↦ queue_failed e
      ]

  -- The `try` of a run, with the hook that ends it.
  unfoldable pub post : WebhookJobData → ℕ → Result String ℕ
  unfolding assert_no_redirect put
  post job made = do
    (if is_ssrf_protected then assert_safe_fetch_url made job.url else ok tt)
    response ←
        fetch made job.url (put "X-OpenWA-Retry-Count" (show made) job.headers)
          (stringify job.payload)
    (if is_ssrf_protected then assert_no_redirect response else ok tt)
    throw_if (not (is_ok response)) "HTTP error"
    update_last_triggered made job.webhook_id
    ok response.status

  -- A run of a job that has been run `made` times before.
  unfoldable pub process : WebhookJobData → ℕ → Result String WebhookJobResult × List Told
  unfolding post
  process job made = elim (post job made) [
    | ok status ↦ (
      ok (record { status_code = status; success = Bool.true }),
      delivered job.payload.delivery_id status (made + 1) ∷ [],
    )
    | err e ↦ (
      err e,
      if leb job.max_retries (made + 1)
          then failed job.payload.delivery_id e (made + 1) ∷ []
          else [],
    )
  ]

  -- What plugins are told in `n` runs that the queue makes of a job, of which the first comes after `made` others.
  unfoldable pub told : WebhookJobData → ℕ → ℕ → List Told
  unfolding process
  told job zero made = []
  told job (suc n) made = (process job made).1 ++ told job n (suc made)
