-- ===== src/Messages/Retry.antt =====
-- src/modules/message/message-retry.service.ts: the retry of failed sends. One row is taken through
-- `processMessage`: `stored` is the row of the database and `message` the copy that the scan read.
-- The engine's send (with the media that it reads), the clock, the settings and the random number
-- are parameters; times are milliseconds and a random number is a fraction below one. The writes of the
-- rows and the notices of the events succeed.
pub mod Backoff
pub mod Lease
pub mod Scan
pub mod Table
use wp_open_aurora.Prelude.{
  ℕ, ◌+◌, ◌-◌, ◌*◌, ◌/◌, ◌^◌, min, max, String, Bool, true, false, not, ◌&&◌, ◌||◌, Option, none,
  some, leb, if◌then◌else◌, is_empty,
}
use wp_open_aurora.Prelude.Results.{Result, ok, err}
use wp_open_aurora.Prelude.Text.{take_chars}
use wp_open_aurora.Messages.Status.{MessageStatus, same_status}

pub record Message (Payload : Type 0) : Type 0 where
  pub id : String
  pub status : MessageStatus
  pub retry : Option Payload
  pub wa_message_id : Option String
  pub timestamp : ℕ
  pub retry_count : ℕ
  pub next_retry_at : Option ℕ
  pub last_error : Option String
  pub created_at : ℕ

-- `MESSAGE_RETRY_BASE_DELAY_MS` and `MESSAGE_RETRY_MAX_ATTEMPTS` as the code reads them: 0 stands for
-- a value that is missing or no number; a negative one acts as 1 does.
pub record Settings : Type 0 where
  pub base_delay_env : ℕ
  pub max_attempts_env : ℕ

abbrev or_else : ℕ → ℕ → ℕ
or_else n d = if leb n 0 then d else n

unfoldable pub base_delay : Settings → ℕ
base_delay c = max (or_else c.base_delay_env 15_000) 1000

unfoldable pub max_attempts : Settings → ℕ
max_attempts c = max (or_else c.max_attempts_env 5) 1

-- The number `num / den` that `Math.random()` answers.
pub record Random : Type 0 where
  pub num : ℕ
  pub den : ℕ

-- `Math.min(base * 2 ** Math.min(attempt - 1, 6), 15 * 60_000)`
unfoldable pub capped_delay : Settings → ℕ → ℕ
unfolding base_delay
capped_delay c attempt = min (base_delay c * 2 ^ min (attempt - 1) 6) (15 * 60_000)

-- `Math.round(delay * (0.85 + Math.random() * 0.3))`, in exact fractions: the factor is
-- `(17 * den + 6 * num) / (20 * den)`.
unfoldable pub retry_delay : Settings → Random → ℕ → ℕ
retry_delay c r attempt =
    (2 * capped_delay c attempt * (17 * r.den + 6 * r.num) + 20 * r.den) / (40 * r.den)

abbrev due : Option ℕ → ℕ → Bool
due none now = false
due (some at) now = leb at now

-- The `where` of the scan.
unfoldable pub is_candidate : {P : Type 0} → ℕ → ℕ → Message P → Bool
is_candidate now stale_pending_at m =
    same_status m.status MessageStatus.failed && due m.next_retry_at now
    || same_status m.status MessageStatus.pending && leb m.created_at stale_pending_at

-- The conditional update that takes the lease; `none` is `affected: 0`.
unfoldable pub claim : {P : Type 0} → ℕ → ℕ → Message P → Option (Message P)
claim now clock stored =
    if same_status stored.status MessageStatus.failed && due stored.next_retry_at now
    then some (record stored { next_retry_at = some (clock + 120_000) })
    else none

-- What one run of `processMessage` depends on: the start of the scan, the clock, whether the session
-- has an engine that is ready, the send, and the classification of its failures.
pub record Environment (P : Type 0) : Type 0 where
  pub now : ℕ
  pub clock : ℕ
  pub engine_ready : Bool
  pub send : Message P → P → Result String (String × ℕ)
  pub is_permanent : String → Bool
  pub random : Random

abbrev interrupted : String
interrupted = "Recovered an interrupted send after backend restart"

-- The row afterwards, and whether the engine was asked to send.
module _ {P : Type 0} (c : Settings) (env : Environment P) where
  open env use {now, clock, engine_ready, send, is_permanent, random}

  unfoldable pub recover : Message P → Message P
  recover m =
      if same_status m.status MessageStatus.pending
      then record m {
        status = MessageStatus.failed;
        last_error = elim m.last_error [
          | none ↦ some interrupted
          | some e ↦ some (if is_empty e then interrupted else e)
        ];
        next_retry_at = some now;
      }
      else m

  unfoldable pub after_success : Message P → String × ℕ → Message P
  after_success m (id, timestamp) = record m {
    retry = none;
    wa_message_id = some id;
    timestamp = timestamp;
    status = MessageStatus.sent;
    next_retry_at = none;
    last_error = none;
  }

  unfoldable pub after_failure : Message P → String → Message P
  after_failure m reason =
      let attempts = m.retry_count + 1 in
      record m {
        retry_count = attempts;
        status = MessageStatus.failed;
        last_error = some (take_chars 2000 reason);
        next_retry_at =
            if leb (max_attempts c) attempts || is_permanent reason
            then none
            else some (clock + retry_delay c random attempts);
      }

  unfoldable pub attempt : Message P → P → Message P
  unfolding after_success after_failure
  attempt m payload = elim (send m payload) [
    | ok sent ↦ after_success m sent
    | err reason ↦ after_failure m reason
  ]

  unfoldable pub process_claimed : Message P → Message P → P → Message P × Bool
  unfolding attempt
  process_claimed stored m payload =
      if engine_ready
      then elim (claim now clock stored) [
        | none ↦ (stored, false)
        | some leased ↦ (attempt m payload, true)
      ]
      else (record m { next_retry_at = some (clock + 30_000) }, false)

  unfoldable pub process_message : Message P → Message P → Message P × Bool
  unfolding recover process_claimed claim
  process_message stored m = elim m.retry [
    | none ↦ (stored, false)
    | some payload ↦
        let m' = recover m in
        let stored' = if same_status m.status MessageStatus.pending then m' else stored in
        process_claimed stored' m' payload
  ]
