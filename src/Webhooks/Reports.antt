-- ===== src/Webhooks/Reports.antt =====
-- What plugins are told of the deliveries by the queue.
use mathlib.Core.Path.{subst}
use wp_open_aurora.Prelude.{
  ℕ, zero, suc, ◌+◌, max, ◌≤◌, ◌≡◌, ◌⊎◌, inl, inr, refl, arith, sym, ◌∙◌, String, List, [], length,
  length-append,
}
use wp_open_aurora.Prelude.Results.{Result, ok, err, Result-cases}
use wp_open_aurora.Webhooks.{Outside}
use wp_open_aurora.Webhooks.Queue.{WebhookPayload, WebhookJobData, Told, post, process, told}

module _ (out : Outside) (stringify : WebhookPayload → String)
    (add : WebhookJobData → ℕ → ℕ → Result String (Unit {0}))
    (update_last_triggered : ℕ → String → Result String (Unit {0})) (job : WebhookJobData) where
  abbrev posted : ℕ → Result String ℕ
  posted = post out stringify add update_last_triggered job

  abbrev reports : ℕ → List Told
  reports made = (process out stringify add update_last_triggered job made).1

  abbrev Failed : ℕ → Type 0
  Failed i = (e : String) × (posted i ≡ err e)

  abbrev Ended : ℕ → Type 0
  Ended i = (suc i ≡ max 1 job.max_retries) ⊎ ((status : ℕ) × (posted i ≡ ok status))

  reports_silent : (i : ℕ) → suc (suc i) ≤ max 1 job.max_retries → Failed i → reports i ≡ []
  unfolding process
  reports_silent i h (e, q) = rw (reports, process, q) (ground arith)

  reports_end : (i : ℕ) → Ended i → length (reports i) ≡ 1
  unfolding process
  reports_end i (inl last) = elim (Result-cases (posted i)) [
    | inl (status, q) ↦ rw (reports, process, q) refl
    | inr (e, q) ↦ rw (reports, process, q) (ground arith)
  ]
  reports_end i (inr (status, q)) = rw (reports, process, q) refl

  told_from :
      (n made k : ℕ)
      → made + n ≡ k
      → suc k ≤ max 1 job.max_retries
      → ((i : ℕ) → suc i ≤ k → Failed i)
      → Ended k
      → length (told out stringify add update_last_triggered job (suc n) made) ≡ 1
  unfolding told
  told_from zero made k e h failing ended =
      length-append (reports made) []
      ∙ omega (arith, reports_end made (subst Ended (sym (omega arith)) ended))
  told_from (suc n) made k e h failing ended =
      rw (reports_silent made (omega arith) (failing made (omega arith)))
        (told_from n (suc made) k (omega arith) h failing ended)

  -- A job whose first `k` runs fail, fewer than it may have, and which ends with the next, as that
  -- one succeeds or is the last that it may have, is reported to the plugins exactly once.
  pub told_once :
      (k : ℕ)
      → suc k ≤ max 1 job.max_retries
      → ((i : ℕ) → suc i ≤ k → Failed i)
      → Ended k
      → length (told out stringify add update_last_triggered job (suc k) 0) ≡ 1
  told_once k = told_from k 0 k (omega arith)
