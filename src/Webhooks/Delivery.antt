-- ===== src/Webhooks/Delivery.antt =====
-- The attempts of a delivery.
use native.Mathlib.Omega.{arith}
use mathlib.Core.Path.{subst}
use wp_open_aurora.Prelude.{ℕ, zero, suc, ◌+◌, ◌-◌, max, ◌≤◌, ◌≡◌, inl, inr, String, length, Map}
use wp_open_aurora.Prelude.Results.{err, Result-cases}
use wp_open_aurora.Webhooks.{
  Outside, Webhook, Delivered, deliver_from, deliver_webhook, try_once, attempt_headers,
}

-- The bookkeeping of a delivery with at most `n` attempts: it makes at least one, it waits between any
-- two, and it reports an error only after the last.
pub record Attempted (n : ℕ) (d : Delivered) : Type 0 where
  some_attempt : 1 ≤ length d.attempts
  at_most : length d.attempts ≤ n
  waited : length d.waits + 1 ≡ length d.attempts
  exhausted : (e : String) → d.outcome ≡ err e → length d.attempts ≡ n

deliver_from-Attempted :
    (out : Outside) (w : Webhook) (body : String) (remaining attempt : ℕ) (headers : Map String)
    → Attempted (suc remaining) (deliver_from out w body remaining attempt headers)
unfolding deliver_from
deliver_from-Attempted out w body zero attempt headers = record {
  some_attempt = omega arith;
  at_most = omega arith;
  waited = omega arith;
  exhausted = λ e q. omega arith;
}
deliver_from-Attempted out w body (suc remaining) attempt headers =
    let sent = attempt_headers out w body headers attempt in
    let rest = deliver_from-Attempted out w body remaining (suc attempt) sent in
    elim (Result-cases (try_once out w body sent attempt)) [
      | inl (u, e) ↦
          rw (deliver_from, e)
            (record {
              some_attempt = omega arith;
              at_most = omega arith;
              waited = omega arith;
              exhausted = λ x q. ground arith;
            })
      | inr (x, e) ↦
          rw (deliver_from, e)
            (record {
              some_attempt = omega arith;
              at_most = omega (arith, rest.at_most);
              waited = omega (arith, rest.waited);
              exhausted = λ y q. omega (arith, rest.exhausted y q);
            })
    ]

-- A direct delivery makes at least one attempt and at most `retryCount`, or one where that is 0; it
-- waits between any two, and fails only once it has made all of them.
pub deliver_webhook_attempts :
    (out : Outside) (w : Webhook) (body : String) (headers : Map String)
    → Attempted (max 1 w.retry_count) (deliver_webhook out w body headers)
unfolding deliver_webhook
deliver_webhook_attempts out w body headers =
    subst (λ n. Attempted n (deliver_webhook out w body headers)) (limit w.retry_count)
      (deliver_from-Attempted out w body (w.retry_count - 1) 1 headers)
  where
    limit : (n : ℕ) → suc (n - 1) ≡ max 1 n
    limit n = omega arith
