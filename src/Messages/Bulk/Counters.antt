-- ===== src/Messages/Bulk/Counters.antt =====
-- The counters of a batch against its results, and the prefix of the messages that a run works off.
use wp_open_aurora.Prelude.{
  ℕ, suc, ◌+◌, ◌<◌, ◌≡◌, refl, arith, Bool, ◌&&◌, inl, inr, not, List, [], ◌∷◌, ◌++◌, length,
  length-append, Bool-cases, if◌then◌else◌,
}
use wp_open_aurora.Messages.Bulk.{
  BatchStatus, BatchProgress, BatchMessageResult, BulkMessage, MessageBatch, Outside, is_cancelled,
  is_sent, send_one, process_from, process_batch, finish, started, resolve_final_batch_status,
  cancel_progress, drop, count,
}

abbrev count_sent : List BatchMessageResult → ℕ
count_sent [] = 0
count_sent (r ∷ rs) = if is_sent r then suc (count_sent rs) else count_sent rs

-- The progress of a batch of `n` messages in the midst of a run: nothing is cancelled yet, the counters
-- are those of the results, and the pending messages are the rest.
pub record IsCounted (p : BatchProgress) (rs : List BatchMessageResult) (n : ℕ) : Type 0 where
  pub sent : p.sent ≡ count_sent rs
  pub failed : p.failed + count_sent rs ≡ length rs
  pub pending : p.pending + length rs ≡ n
  pub cancelled : p.cancelled ≡ 0

count_sent-append :
    (rs ss : List BatchMessageResult) → count_sent (rs ++ ss) ≡ count_sent rs + count_sent ss
count_sent-append [] ss = omega arith
count_sent-append (r ∷ rs) ss = ground (arith, count_sent-append rs ss)

-- One turn keeps the counters in step.
turn-IsCounted :
    (p : BatchProgress) (rs : List BatchMessageResult) (n : ℕ) (r : BatchMessageResult)
    → IsCounted p rs n
    → length rs < n
    → IsCounted (count (is_sent r) p) (rs ++ r ∷ []) n
unfolding count
turn-IsCounted p rs n r h l =
    let len = length-append rs (r ∷ []) in
    let sum = count_sent-append rs (r ∷ []) in
    record {
      sent = ground arith;
      failed = ground arith;
      pending = ground arith;
      cancelled = ground arith;
    }

module _ {C : Type 0} (out : Outside C) where
  process_from-IsCounted :
      (i : ℕ) (msgs : List (BulkMessage C)) (b : MessageBatch C)
      → IsCounted b.progress b.results (length b.messages)
      → length b.results + length msgs ≡ length b.messages
      → let b' = (process_from out i msgs b).0 in
        IsCounted b'.progress b'.results (length b.messages)
  unfolding process_from
  process_from-IsCounted i [] b h l = h
  process_from-IsCounted i (msg ∷ msgs) b h l =
      let r = send_one out b.options b.session_id i msg in
      let turn = turn-IsCounted b.progress b.results (length b.messages) r h (omega arith) in
      let len = length-append b.results (r ∷ []) in
      elim (Bool-cases (is_cancelled out i)) [
        | inl c ↦ rw c h
        | inr c ↦ elim (Bool-cases (not (is_sent r) && b.options.stop_on_error)) [
          | inl s ↦ rw (c, s) turn
          | inr s ↦
              rw (c, s)
                (process_from-IsCounted (suc i) msgs
                  (record b {
                    progress = count (is_sent r) b.progress;
                    results = b.results ++ r ∷ [];
                    current_index = suc i;
                  })
                  turn (omega arith))
        ]
      ]

  process_from-messages :
      (i : ℕ) (msgs : List (BulkMessage C)) (b : MessageBatch C)
      → (process_from out i msgs b).0.messages ≡ b.messages
  unfolding process_from
  process_from-messages i [] b = refl
  process_from-messages i (msg ∷ msgs) b =
      let r = send_one out b.options b.session_id i msg in
      let next : MessageBatch C = record b {
        progress = count (is_sent r) b.progress;
        results = b.results ++ r ∷ [];
        current_index = suc i;
      } in
      let rest = process_from-messages (suc i) msgs next in ground arith

-- What holds of a batch when its run has ended.
pub data Accounts {C : Type 0} (b : MessageBatch C) : Type 0 where
  accounts :
      b.progress.sent ≡ count_sent b.results
      → b.progress.sent + b.progress.failed ≡ length b.results
      → b.progress.sent + b.progress.failed + b.progress.pending + b.progress.cancelled
        ≡ length b.messages
      → (b.status ≡ BatchStatus.cancelled → b.progress.pending ≡ 0)
      → Accounts b

finish-Accounts :
    {C : Type 0} (out : Outside C) (b : MessageBatch C) (stopped : Bool) (i : ℕ)
    → IsCounted b.progress b.results (length b.messages)
    → Accounts (finish out (b, (stopped, i)))
unfolding finish cancel_progress resolve_final_batch_status
finish-Accounts out b stopped i h =
    accounts (ground arith) (ground arith) (ground arith) (λ e. ground arith)

-- However a run ends (done, stopped on an error or cancelled on the way), the counters of the batch
-- are those of its results, they add up to its messages, and a cancelled batch has nothing pending.
-- The batch is one whose progress fits its results when the run starts, as a new batch's does.
pub process_batch-Accounts :
    {C : Type 0} (out : Outside C) (b : MessageBatch C)
    → IsCounted b.progress b.results (length b.messages)
    → length b.results + length (drop b.current_index b.messages) ≡ length b.messages
    → Accounts (process_batch out b)
unfolding process_batch
process_batch-Accounts out b h l =
    let msgs = drop b.current_index b.messages in
    let run = process_from out b.current_index msgs (started out b) in
    let c = process_from-IsCounted out b.current_index msgs (started out b) h l in
    let same = process_from-messages out b.current_index msgs (started out b) in
    finish-Accounts out run.0 run.1.0 run.1.1 (rw same c)
