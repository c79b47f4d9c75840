-- ===== src/Messages/Retry/Scan.antt =====
-- `processDueMessages` of src/modules/message/message-retry.service.ts: the scans over the table, and
-- how often one row can be sent.
use wp_open_aurora.Prelude.{
  ℕ, ◌+◌, ◌-◌, max, ◌≤◌, Bool, true, false, ◌&&◌, ◌||◌, none, some, List, [], ◌∷◌, ◌≡◌, arith, leb,
  if◌then◌else◌, is_some, inl, inr, Bool-cases, Option-cases,
}
use wp_open_aurora.Prelude.Results.{Result-cases}
use wp_open_aurora.Messages.Status.{MessageStatus, same_status}
use wp_open_aurora.Messages.Retry.{
  Message, Settings, Environment, is_candidate, claim, process_message, process_claimed, recover,
  attempt, after_success, after_failure, max_attempts,
}

module _ {P : Type 0} (c : Settings) where
  -- The row as a scan leaves it, and whether the engine was asked to send: a scan takes up candidates.
  unfoldable pub scan_row : Environment P → ℕ → Message P → Message P × Bool
  scan_row env stale m =
      if is_candidate env.now stale m then process_message c env m m else (m, false)

  -- How often the engine is asked to send a row over a sequence of scans.
  unfoldable pub sends : List (Environment P × ℕ) → Message P → ℕ
  unfolding scan_row
  sends [] m = 0
  sends ((env, stale) ∷ envs) m =
      let (m', asked) = scan_row env stale m in
      let rest = sends envs m' in (if asked then 1 else 0) + rest

  -- The sends that a row may still take: none without its payload, or when it has been sent or given
  -- up; otherwise the attempts left, and at least one.
  unfoldable pub budget : Message P → ℕ
  budget m =
      if is_some m.retry
        && (same_status m.status MessageStatus.pending
            || same_status m.status MessageStatus.failed && is_some m.next_retry_at)
      then max 1 (max_attempts c - m.retry_count)
      else 0

  module _ (env : Environment P) (m : Message P) where
    recover-budget : budget (recover c env m) ≤ budget m
    unfolding budget recover
    recover-budget = ground arith

    attempt-budget :
        (payload : P) (m' : Message P)
        → m'.retry_count ≡ m.retry_count
        → 1 + budget (attempt c env m' payload) ≤ max 1 (max_attempts c - m.retry_count)
    unfolding budget attempt after_success after_failure
    attempt-budget payload m' h = elim (Result-cases (env.send m' payload)) [
      | inl (sent, e) ↦ ground (arith, e)
      | inr (reason, e) ↦
          elim (Bool-cases (leb (max_attempts c) (m'.retry_count + 1) || env.is_permanent reason)) [
            | inl g ↦ ground (arith, e, g)
            | inr g ↦ ground (arith, e, g)
          ]
    ]

    candidate-budget :
        (payload : P) (stale : ℕ)
        → m.retry ≡ some payload
        → is_candidate env.now stale m ≡ true
        → budget m ≡ max 1 (max_attempts c - m.retry_count)
    unfolding budget is_candidate
    candidate-budget payload stale h k = ground (arith, h, k)

    process_message_asks :
        (payload : P) (stale : ℕ)
        → m.retry ≡ some payload
        → is_candidate env.now stale m ≡ true
        → env.engine_ready ≡ true
        → process_message c env m m ≡ (attempt c env (recover c env m) payload, true)
    unfolding process_message process_claimed recover is_candidate claim
    process_message_asks payload stale h k e = ground arith

    process_message_defers :
        (payload : P)
        → m.retry ≡ some payload
        → env.engine_ready ≡ false
        → process_message c env m m
          ≡ (record (recover c env m) { next_retry_at = some (env.clock + 30_000) }, false)
    unfolding process_message process_claimed recover
    process_message_defers payload h e = ground arith

    recover-retry_count : (recover c env m).retry_count ≡ m.retry_count
    unfolding recover
    recover-retry_count = ground arith

    deferred-budget :
        (at : ℕ)
        → budget (record (recover c env m) { next_retry_at = some at })
          ≤ max 1 (max_attempts c - m.retry_count)
    unfolding budget recover
    deferred-budget at = ground arith

    process_message-budget :
        (payload : P) (stale : ℕ)
        → m.retry ≡ some payload
        → is_candidate env.now stale m ≡ true
        → (if (process_message c env m m).1 then 1 else 0) + budget (process_message c env m m).0
          ≤ max 1 (max_attempts c - m.retry_count)
    process_message-budget payload stale h k = elim (Bool-cases env.engine_ready) [
      | inl e ↦
          rw (process_message_asks payload stale h k e)
            (attempt-budget payload (recover c env m) recover-retry_count)
      | inr e ↦
          rw (process_message_defers payload h e)
            (omega (arith, deferred-budget (env.clock + 30_000)))
    ]

    process_message_without : m.retry ≡ none → process_message c env m m ≡ (m, false)
    unfolding process_message
    process_message_without h = ground (arith, h)

    scan_row-budget :
        (stale : ℕ)
        → (if (scan_row env stale m).1 then 1 else 0) + budget (scan_row env stale m).0 ≤ budget m
    unfolding scan_row
    scan_row-budget stale = elim (Bool-cases (is_candidate env.now stale m)) [
      | inr k ↦ rw k (omega arith)
      | inl k ↦ rw k (elim (Option-cases m.retry) [
        | inl e ↦ rw (process_message_without e) (omega arith)
        | inr (payload, e) ↦
            rw (candidate-budget payload stale e k) (process_message-budget payload stale e k)
      ])
    ]

  -- Whatever the clock, the engine and the classification of failures answer over any number of scans,
  -- the engine is asked to send a row at most as often as it has attempts left, and at least one; a row
  -- that is sent, given up or has no payload is never sent again.
  pub sends-budget : (envs : List (Environment P × ℕ)) (m : Message P) → sends envs m ≤ budget m
  unfolding sends
  sends-budget [] m = omega arith
  sends-budget ((env, stale) ∷ envs) m =
      omega (arith, scan_row-budget env m stale, sends-budget envs (scan_row env stale m).0)
