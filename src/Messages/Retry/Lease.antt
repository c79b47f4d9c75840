-- ===== src/Messages/Retry/Lease.antt =====
-- What a scan leaves of a row: the lease, the retries and their end.
use wp_open_aurora.Prelude.{
  ℕ, ◌+◌, ◌<◌, ◌≡◌, ◌≢◌, arith, Option-cases, true, false, none, some, ◌||◌, leb, inl, inr,
  Bool-cases,
}
use wp_open_aurora.Prelude.Results.{Result-cases}
use wp_open_aurora.Messages.Status.{MessageStatus}
use wp_open_aurora.Messages.Retry.{
  Message, Settings, Environment, is_candidate, claim, process_message, recover, attempt,
  process_claimed, after_success, after_failure, max_attempts,
}
use wp_open_aurora.Messages.Retry.Backoff.{retry_delay_positive}

-- A row is claimed by one scan: until the lease of 120 seconds ends, no second claim of it succeeds.
pub claim_excludes :
    {P : Type 0} (now clock later clock' : ℕ) (m leased : Message P)
    → claim now clock m ≡ some leased
    → later < clock + 120_000
    → claim later clock' leased ≡ none
unfolding claim
claim_excludes now clock later clock' m leased h l = ground arith

-- A row that no scan takes up until `limit`.
unfoldable pub NotBefore : {P : Type 0} → ℕ → Message P → Type 0
NotBefore limit m = (at stale : ℕ) → at < limit → is_candidate at stale m ≡ false

-- A row that no scan ever takes up.
unfoldable pub IsSettled : {P : Type 0} → Message P → Type 0
IsSettled m = (at stale : ℕ) → is_candidate at stale m ≡ false

pub data Outcome {P : Type 0} (c : Settings) (env : Environment P) (m m' : Message P) : Type 0 where
  was_sent : m'.status ≡ MessageStatus.sent → m'.retry ≡ none → IsSettled m' → Outcome c env m m'
  gave_up :
      m'.status ≡ MessageStatus.failed
      → m'.retry_count ≡ m.retry_count + 1
      → IsSettled m'
      → Outcome c env m m'
  waits :
      m'.status ≡ MessageStatus.failed
      → m'.retry_count ≡ m.retry_count + 1
      → m'.retry_count < max_attempts c
      → NotBefore (env.clock + 1) m'
      → Outcome c env m m'
  deferred :
      m.retry ≢ none
      → m'.retry_count ≡ m.retry_count
      → NotBefore (env.clock + 30_000) m'
      → Outcome c env m m'
  skipped : m.retry ≡ none → m' ≡ m → Outcome c env m m'

-- The send of a row under a lease ends in one of the first three states.
attempt-Outcome :
    {P : Type 0} (c : Settings) (env : Environment P) (m m' : Message P) (payload : P)
    → m'.retry_count ≡ m.retry_count
    → env.random.num < env.random.den
    → Outcome c env m (attempt c env m' payload)
unfolding attempt after_success after_failure is_candidate IsSettled NotBefore
attempt-Outcome c env m m' payload h r =
    let d = retry_delay_positive c env.random (m'.retry_count + 1) r in
    elim (Result-cases (env.send m' payload)) [
      | inl (sent, e) ↦ was_sent (ground arith) (ground arith) (λ at stale. ground arith)
      | inr (reason, e) ↦
          elim (Bool-cases (leb (max_attempts c) (m'.retry_count + 1) || env.is_permanent reason)) [
            | inl g ↦ gave_up (ground arith) (ground arith) (λ at stale. ground arith)
            | inr g ↦
                waits (ground arith) (ground arith) (ground arith) (λ at stale l. ground arith)
          ]
    ]

module _ {P : Type 0} (c : Settings) (env : Environment P) (m : Message P) (payload : P)
    (stale : ℕ) where
  recover-retry_count : (recover c env m).retry_count ≡ m.retry_count
  unfolding recover
  recover-retry_count = ground arith

  process_message_ready :
      m.retry ≡ some payload
      → is_candidate env.now stale m ≡ true
      → env.engine_ready ≡ true
      → (process_message c env m m).0 ≡ attempt c env (recover c env m) payload
  unfolding process_message process_claimed recover is_candidate claim
  process_message_ready h k e = ground arith

  process_message_unready :
      m.retry ≡ some payload
      → env.engine_ready ≡ false
      → (process_message c env m m).0
        ≡ record (recover c env m) { next_retry_at = some (env.clock + 30_000) }
  unfolding process_message process_claimed recover
  process_message_unready h e = ground arith

-- One run leaves a candidate, whose row is stored as the scan has read it, in one of five states: sent
-- without its payload, and never taken up again; failed for good, and never taken up again; failed with
-- one attempt more, below the limit, and out of every scan up to the present; with no engine ready, out
-- of every scan for 30 seconds with the attempts unchanged; or, without a payload, as it was.
pub process_message_outcome :
    {P : Type 0} (c : Settings) (env : Environment P) (m : Message P) (stale : ℕ)
    → is_candidate env.now stale m ≡ true
    → env.random.num < env.random.den
    → Outcome c env m (process_message c env m m).0
unfolding is_candidate NotBefore recover process_message
process_message_outcome c env m stale k r = elim (Option-cases m.retry) [
  | inl n ↦ skipped n (ground (arith, n))
  | inr (payload, h) ↦ elim (Bool-cases env.engine_ready) [
    | inl e ↦ rw (process_message_ready c env m payload stale h k e) (
        attempt-Outcome c env m (recover c env m) payload
          (recover-retry_count c env m payload stale) r)
    | inr e ↦
        rw (process_message_unready c env m payload stale h e)
          (deferred (λ n. cc) (ground arith) (λ at stale l. ground arith))
  ]
]
