-- ===== src/Auth/Keys/Usage.antt =====
-- The usage count: what the table and the pending counts hold together.
use wp_open_aurora.Prelude.{
  ℕ, ◌+◌, ◌<◌, String, Option, none, some, ◌==◌, eq_iff, eq_refl, ◌≡◌, ◌≢◌, ap, arith, or_default,
  get, get-put, get-delete, if◌then◌else◌,
}
use mathlib.Core.Path.{subst₂}
use wp_open_aurora.Prelude.Results.{ok}
use wp_open_aurora.Auth.Keys.{
  ApiKey, AuthState, find_by_id, find_by_hash, record_usage, validate_api_key,
  stat_flush_interval_ms,
}
use wp_open_aurora.Auth.Keys.Table.{UniqueIds, find_by_id-save, find_by_hash-find_by_id}
use wp_open_aurora.Auth.Keys.Checks.{validate_api_key_sound, validate_api_key_complete}

abbrev stored_usage : Option ApiKey → ℕ
stored_usage none = 0
stored_usage (some k) = k.usage_count

-- Every use of a key that was counted, written or not.
abbrev total_usage : String → AuthState → ℕ
total_usage id s = stored_usage (find_by_id id s.keys) + or_default (get id s.pending_usage) 0

record_usage_total :
    (now : ℕ) (k : ApiKey) (s : AuthState) (id : String)
    → find_by_id k.id s.keys ≡ some k
    → total_usage id (record_usage now k s).0 ≡ total_usage id s + (if k.id == id then 1 else 0)
unfolding record_usage
record_usage_total now k s id row = ground (
  arith,
  eq_iff k.id id,
  eq_refl k.id,
  find_by_id-save id (record_usage now k s).1 s.keys,
  get-put k.id id (or_default (get k.id s.pending_usage) 0 + 1) s.pending_usage,
  get-delete k.id id s.pending_usage,
)

record_usage_answer :
    (now : ℕ) (k : ApiKey) (s : AuthState)
    → find_by_id k.id s.keys ≡ some k
    → ((record_usage now k s).1.id ≡ k.id)
      × ((record_usage now k s).1.usage_count ≡ total_usage k.id (record_usage now k s).0)
unfolding record_usage
record_usage_answer now k s row = ground (
  arith,
  eq_refl k.id,
  find_by_id-save k.id (record_usage now k s).1 s.keys,
  get-put k.id k.id (or_default (get k.id s.pending_usage) 0 + 1) s.pending_usage,
  get-delete k.id k.id s.pending_usage,
)

-- What a granted request counts: `s` and `s'` are the states before and after, `used` the answer.
pub record Counts (s s' : AuthState) (used : ApiKey) : Type 0 where
  pub exact : used.usage_count ≡ total_usage used.id s'
  pub one_more : total_usage used.id s' ≡ total_usage used.id s + 1
  pub others : (id : String) → id ≢ used.id → total_usage id s' ≡ total_usage id s

record_usage-Counts :
    (now : ℕ) (k : ApiKey) (s : AuthState)
    → find_by_id k.id s.keys ≡ some k
    → Counts s (record_usage now k s).0 (record_usage now k s).1
record_usage-Counts now k s row =
    let (same, exact) = record_usage_answer now k s row in
    record {
      exact = ground arith;
      one_more = ground (arith, record_usage_total now k s k.id row, eq_refl k.id);
      others = λ id n. ground (arith, record_usage_total now k s id row, eq_iff k.id id);
    }

-- Each granted request counts once for its key and for no other, whether or not it writes: the
-- total of the stored and the pending uses grows by one, and the answer shows the new total. Ids
-- are unique in the table.
pub validate_api_key-Counts :
    (hash : String → String) (raw_key : String) (ip session : Option String) (now : ℕ)
    (s s' : AuthState) (used : ApiKey)
    → UniqueIds s.keys
    → validate_api_key hash raw_key ip session now s ≡ (s', ok used)
    → Counts s s' used
validate_api_key-Counts hash raw_key ip session now s s' used u h =
    let (k, e, a) = validate_api_key_sound hash raw_key ip session now s (ap (λ r. r.1) h) in
    let done = validate_api_key_complete hash raw_key ip session now s k e a in
    let counts = record_usage-Counts now k s (find_by_hash-find_by_id (hash raw_key) s.keys u e) in
    let answer : (record_usage now k s).1 ≡ used = ground arith in
    let state : (record_usage now k s).0 ≡ s' = ground arith in
    subst₂ (λ t v. Counts s t v) state answer counts

-- Within a minute of the last use that was written, a granted request writes nothing to the table.
pub validate_api_key_coalesces :
    (hash : String → String) (raw_key : String) (ip session : Option String) (now last : ℕ)
    (s s' : AuthState) (k used : ApiKey)
    → find_by_hash (hash raw_key) s.keys ≡ some k
    → k.last_used_at ≡ some last
    → now < last + stat_flush_interval_ms
    → validate_api_key hash raw_key ip session now s ≡ (s', ok used)
    → s'.keys ≡ s.keys
unfolding validate_api_key record_usage
validate_api_key_coalesces hash raw_key ip session now last s s' k used e l h v = ground arith
