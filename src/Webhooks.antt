-- ===== src/Webhooks.antt =====
-- src/modules/webhook/webhook.service.ts: which webhooks an event reaches, the headers of a request
-- and its direct delivery with retries. The guard of the address, the request, the signature, the
-- case mapping and the decimal text of a number are parameters; the hooks around a direct
-- delivery and the table's timestamp are not modelled here. Queue is the delivery by jobs.
pub mod Headers
pub mod Delivery
pub mod Queue
pub mod Reports
use wp_open_aurora.Prelude.{
  ℕ, zero, suc, ◌+◌, ◌-◌, ◌*◌, String, Bool, true, false, not, ◌&&◌, ◌||◌, Option, none, some, List,
  [], ◌∷◌, ◌++◌, leb, ltb, ◌==◌, if◌then◌else◌, includes, filter, Map, get, put, is_empty, is_some,
  or_default, eqb,
}
use wp_open_aurora.Prelude.Text.{starts_with}
use wp_open_aurora.Prelude.Results.{Result, ok, err, ◌>>=◌, ◌>>◌, throw_if}

pub record Webhook : Type 0 where
  pub id : String
  pub session_id : String
  pub url : String
  pub events : List String
  pub secret : Option String
  pub headers : Map String
  pub active : Bool
  pub retry_count : ℕ

-- The query and the filter of `dispatch`.
unfoldable pub matching_webhooks : String → String → List Webhook → List Webhook
matching_webhooks session_id event rows =
    filter (λ w. includes event w.events || includes "*" w.events)
      (filter (λ w. (w.session_id == session_id) && w.active) rows)

pub record Response : Type 0 where
  pub status : ℕ
  pub is_opaque_redirect : Bool

-- What a delivery depends on. The guard and the request may answer differently at each attempt.
pub record Outside : Type 0 where
  pub to_lower_case : String → String
  pub show : ℕ → String
  pub generate_signature : String → String → String
  pub is_ssrf_protected : Bool
  pub assert_safe_fetch_url : ℕ → String → Result String (Unit {0})
  pub fetch : ℕ → String → Map String → String → Result String Response
  pub retry_delay : ℕ

-- `assertNoRedirect` of src/common/security/ssrf-guard.ts
unfoldable pub assert_no_redirect : Response → Result String (Unit {0})
assert_no_redirect r =
    throw_if (r.is_opaque_redirect || leb 300 r.status && ltb r.status 400)
      "Refusing to follow redirect"

-- `response.ok`
abbrev pub is_ok : Response → Bool
is_ok r = leb 200 r.status && ltb r.status 300

-- What a delivery has done: the headers of its attempts, the waits between them, and its end.
pub record Delivered : Type 0 where
  pub attempts : List (Map String)
  pub waits : List ℕ
  pub outcome : Result String (Unit {0})

-- Properties written one after the other, after a spread.
unfoldable pub put_all : Map String → Map String → Map String
unfolding put
put_all [] m = m
put_all ((k, v) ∷ kvs) m = put_all kvs (put k v m)

abbrev pub system_headers : String → String → String → Map String
system_headers event idempotency_key delivery_id =
    ("Content-Type", "application/json")
    ∷ ("User-Agent", "OpenWA-Webhook/1.0.0")
    ∷ ("X-OpenWA-Event", event)
    ∷ ("X-OpenWA-Idempotency-Key", idempotency_key)
    ∷ ("X-OpenWA-Delivery-Id", delivery_id)
    ∷ ("X-OpenWA-Retry-Count", "0")
    ∷ []

module _ (out : Outside) where
  open out use {
    to_lower_case, show, generate_signature, is_ssrf_protected, assert_safe_fetch_url, fetch,
    retry_delay,
  }

  -- `/^(content-type|x-openwa-)/i`
  unfoldable pub is_reserved : String → Bool
  is_reserved key =
      starts_with (to_lower_case key) "content-type" || starts_with (to_lower_case key) "x-openwa-"

  unfoldable pub sanitize_custom_headers : Map String → Map String
  unfolding is_reserved
  sanitize_custom_headers custom = filter (λ h. not (is_reserved h.0)) custom

  unfoldable pub build_headers : Map String → String → String → String → Map String
  unfolding sanitize_custom_headers put_all
  build_headers custom event idempotency_key delivery_id =
      put_all (system_headers event idempotency_key delivery_id) (sanitize_custom_headers custom)

  unfoldable pub sign : Option String → String → Map String → Map String
  unfolding get put
  sign none body headers = headers
  sign (some secret) body headers =
      if is_empty secret
      then headers
      else (if is_empty (or_default (get "X-OpenWA-Signature" headers) "")
          then put "X-OpenWA-Signature" (generate_signature body secret) headers
          else headers)

  abbrev pub attempt_headers : Webhook → String → Map String → ℕ → Map String
  attempt_headers w body headers attempt =
      sign w.secret body (put "X-OpenWA-Retry-Count" (show (attempt - 1)) headers)

  -- The `try` of one attempt.
  unfoldable pub try_once : Webhook → String → Map String → ℕ → Result String (Unit {0})
  unfolding assert_no_redirect
  try_once w body headers attempt = do
    (if is_ssrf_protected then assert_safe_fetch_url attempt w.url else ok tt)
    response ← fetch attempt w.url headers body
    (if is_ssrf_protected then assert_no_redirect response else ok tt)
    throw_if (not (is_ok response)) "HTTP error"

  -- `remaining` is the number of retries left, `webhook.retryCount - attempt` and at least 0.
  unfoldable pub deliver_from : Webhook → String → ℕ → ℕ → Map String → Delivered
  unfolding try_once sign put
  deliver_from w body zero attempt headers =
      let sent = attempt_headers w body headers attempt in
      record { attempts = sent ∷ []; waits = []; outcome = try_once w body sent attempt }
  deliver_from w body (suc remaining) attempt headers =
      let sent = attempt_headers w body headers attempt in
      let rest = deliver_from w body remaining (suc attempt) sent in
      elim (try_once w body sent attempt) [
        | ok _ ↦ record { attempts = sent ∷ []; waits = []; outcome = ok tt }
        | err _ ↦ record {
          attempts = sent ∷ rest.attempts;
          waits = retry_delay * attempt ∷ rest.waits;
          outcome = rest.outcome;
        }
      ]

  unfoldable pub deliver_webhook : Webhook → String → Map String → Delivered
  unfolding deliver_from
  deliver_webhook w body headers = deliver_from w body (w.retry_count - 1) 1 headers
