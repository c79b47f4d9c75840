-- ===== src/Messages/Bulk/Prefix.antt =====
-- Which messages a run works off: the first ones, in order, each by the sender of its turn.
use wp_open_aurora.Prelude.{
  ℕ, zero, suc, ◌+◌, ◌≤◌, ◌<◌, ◌≡◌, ◌⊎◌, refl, sym, ◌∙◌, arith, Bool, true, false, some, ◌&&◌, leb,
  inl, inr, not, List, [], ◌∷◌, ◌++◌, length, Bool-cases, String,
}
use native.Mathlib.Nat.{add-zero}
use mathlib.Core.Path.{subst}
use mathlib.Core.List.{append_assoc, append-nil}
use wp_open_aurora.Messages.Bulk.{
  BatchStatus, BatchMessageResult, BulkMessage, MessageBatch, Outside, is_cancelled, is_sent,
  send_one, process_from, process_batch, finish, started, BatchOptions, resolve_final_batch_status,
  drop, count,
}

-- The sends of consecutive messages, the first of them number `i`.
attempts :
    {C : Type 0}
    → Outside C
    → BatchOptions
    → String
    → ℕ
    → List (BulkMessage C)
    → List BatchMessageResult
attempts out options session_id i [] = []
attempts out options session_id i (msg ∷ msgs) =
    send_one out options session_id i msg ∷ attempts out options session_id (suc i) msgs

abbrev take {ℓ} : {A : Type ℓ} → ℕ → List A → List A
take zero xs = []
take (suc n) [] = []
take (suc n) (x ∷ xs) = x ∷ take n xs

-- How far a loop over `msgs`, the first of them number `i`, came: through its first `k`.
record WorkedOff {C : Type 0} (out : Outside C) (b : MessageBatch C) (i : ℕ)
    (msgs : List (BulkMessage C)) (run : MessageBatch C × (Bool × ℕ)) : Type 0 where
  k : ℕ
  within : k ≤ length msgs
  checked : run.1.1 ≡ i + k
  results : run.0.results ≡ b.results ++ attempts out b.options b.session_id i (take k msgs)
  all_or_ended : run.1.0 ≡ false → k < length msgs → is_cancelled out (i + k) ≡ true
  not_cancelled : (j : ℕ) → j < k → is_cancelled out (i + j) ≡ false
  stopped : run.1.0 ≡ true → b.options.stop_on_error ≡ true

-- No message worked off.
empty :
    {C : Type 0} (out : Outside C) (b : MessageBatch C) (i : ℕ) (msgs : List (BulkMessage C))
    → (0 < length msgs → is_cancelled out i ≡ true)
    → WorkedOff out b i msgs (b, (false, i))
unfolding attempts
empty out b i msgs h = record {
  k = 0;
  within = omega arith;
  checked = omega arith;
  results = sym (append-nil _);
  all_or_ended = λ e l. rw (add-zero i) (h l);
  not_cancelled = λ j l. ground arith;
  stopped = λ e. ground arith;
}

-- One message more at the front.
longer :
    {C : Type 0} (out : Outside C) (b next : MessageBatch C) (i : ℕ) (msg : BulkMessage C)
    (msgs : List (BulkMessage C)) (run : MessageBatch C × (Bool × ℕ))
    → is_cancelled out i ≡ false
    → next.options ≡ b.options
    → next.session_id ≡ b.session_id
    → next.results ≡ b.results ++ send_one out b.options b.session_id i msg ∷ []
    → WorkedOff out next (suc i) msgs run
    → WorkedOff out b i (msg ∷ msgs) run
unfolding attempts
longer out b next i msg msgs run c o s q w = record {
  k = suc w.k;
  within = omega (arith, w.within);
  checked = omega (arith, w.checked);
  results = w.results ∙ rw (q, o, s) (append_assoc b.results _ _);
  all_or_ended = λ e l. rw (shift w.k) (w.all_or_ended e (omega (arith, l)));
  not_cancelled = later;
  stopped = λ e. rw (← o) (w.stopped e);
}
  where
    shift : (j : ℕ) → i + suc j ≡ suc i + j
    shift j = omega arith

    later : (j : ℕ) → j < suc w.k → is_cancelled out (i + j) ≡ false
    later zero l = rw (add-zero i) c
    later (suc j) l = rw (shift j) (w.not_cancelled j (omega (arith, l)))

-- One message worked off, which stops the run.
only :
    {C : Type 0} (out : Outside C) (b b' : MessageBatch C) (i : ℕ) (msg : BulkMessage C)
    (msgs : List (BulkMessage C))
    → is_cancelled out i ≡ false
    → b.options.stop_on_error ≡ true
    → b'.results ≡ b.results ++ send_one out b.options b.session_id i msg ∷ []
    → WorkedOff out b i (msg ∷ msgs) (b', (true, suc i))
unfolding attempts
only out b b' i msg msgs c s q = record {
  k = 1;
  within = omega arith;
  checked = omega arith;
  results = q;
  all_or_ended = λ e l. ground arith;
  not_cancelled = first;
  stopped = λ e. s;
}
  where
    first : (j : ℕ) → j < 1 → is_cancelled out (i + j) ≡ false
    first zero l = rw (add-zero i) c
    first (suc j) l = ground arith

process_from-WorkedOff :
    {C : Type 0} (out : Outside C) (i : ℕ) (msgs : List (BulkMessage C)) (b : MessageBatch C)
    → WorkedOff out b i msgs (process_from out i msgs b)
unfolding process_from attempts
process_from-WorkedOff out i [] b = empty out b i [] (λ l. ground arith)
process_from-WorkedOff out i (msg ∷ msgs) b =
    let r = send_one out b.options b.session_id i msg in
    let next : MessageBatch _ = record b {
      progress = count (is_sent r) b.progress;
      results = b.results ++ r ∷ [];
      current_index = suc i;
    } in
    elim (Bool-cases (is_cancelled out i)) [
      | inl c ↦ rw c (empty out b i (msg ∷ msgs) (λ e. c))
      | inr c ↦ elim (Bool-cases (not (is_sent r) && b.options.stop_on_error)) [
        | inl s ↦ rw (c, s) (only out b _ i msg msgs c (ground arith) refl)
        | inr s ↦
            rw (c, s)
              (longer out b next i msg msgs _ c refl refl refl
                (process_from-WorkedOff out (suc i) msgs next))
      ]
    ]

-- What a run leaves of a batch: the results are those of its first `k` messages in order, each sent
-- by the sender of its turn. All are worked off if the batch completes, and none is sent once a
-- cancellation is seen.
pub record IsWorkedOff {C : Type 0} (out : Outside C) (b b' : MessageBatch C) : Type 0 where
  k : ℕ
  within : k ≤ length b.messages
  results : b'.results ≡ attempts out b.options b.session_id 0 (take k b.messages)
  whole : b'.status ≡ BatchStatus.completed → k ≡ length b.messages
  uncancelled : (at : ℕ) → out.cancelled_at ≡ some at → k ≤ at
  stopped : b'.status ≡ BatchStatus.failed → k < length b.messages → b.options.stop_on_error ≡ true

finish-IsWorkedOff :
    {C : Type 0} (out : Outside C) (b b' : MessageBatch C) (ended : Bool) (i : ℕ)
    → b.results ≡ []
    → WorkedOff out (started out b) 0 b.messages (b', (ended, i))
    → IsWorkedOff out b (finish out (b', (ended, i)))
unfolding finish resolve_final_batch_status
finish-IsWorkedOff out b b' ended i e w = record {
  k = w.k;
  within = w.within;
  results = w.results ∙ rw e;
  whole = λ s. all (Bool-cases ended) (Bool-cases (leb (length b.messages) w.k)) s;
  uncancelled = λ at q. before (Bool-cases (leb w.k at)) q;
  stopped = λ s l. stops (Bool-cases ended) s l;
}
  where
    Cases : Bool → Type 0
    Cases c = (c ≡ true) ⊎ (c ≡ false)

    all :
        Cases ended
        → Cases (leb (length b.messages) w.k)
        → (finish out (b', (ended, i))).status ≡ BatchStatus.completed
        → w.k ≡ length b.messages
    all (inl t) o s = ground (arith, w.checked)
    all (inr f) (inl l) s = ground (arith, w.within)
    all (inr f) (inr l) s = let c = w.all_or_ended f (ground arith) in ground (arith, w.checked)

    before : {at : ℕ} → Cases (leb w.k at) → out.cancelled_at ≡ some at → w.k ≤ at
    before (inl l) q = ground arith
    before {at = at} (inr l) q = let c = w.not_cancelled at (ground arith) in ground arith

    stops :
        Cases ended
        → (finish out (b', (ended, i))).status ≡ BatchStatus.failed
        → w.k < length b.messages
        → b.options.stop_on_error ≡ true
    stops (inl t) s l = w.stopped t
    stops (inr f) s l = let c = w.all_or_ended f l in ground (arith, w.checked)

pub process_batch_works_off :
    {C : Type 0} (out : Outside C) (b : MessageBatch C)
    → b.current_index ≡ 0
    → b.results ≡ []
    → IsWorkedOff out b (process_batch out b)
unfolding process_batch
process_batch_works_off out b z e =
    let run = process_from out b.current_index (drop b.current_index b.messages) (started out b) in
    finish-IsWorkedOff out b run.0 run.1.0 run.1.1 e (
      subst (λ i. WorkedOff out (started out b) i (drop i b.messages) run) z
        (process_from-WorkedOff out b.current_index (drop b.current_index b.messages)
          (started out b)))
