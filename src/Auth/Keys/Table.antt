-- ===== src/Auth/Keys/Table.antt =====
-- The table of API keys: its ids stay unique, and a search after a write finds what was written.
use wp_open_aurora.Prelude.{
  ℕ, String, false, Option, none, some, List, [], ◌∷◌, ◌==◌, eq_iff, ◌≡◌, refl, arith, eq_refl,
  find-holds, if◌then◌else◌, Option-cases, inl, inr,
}
use wp_open_aurora.Prelude.Results.{ok, err, Result-cases}
use wp_open_aurora.Auth.Keys.{
  ApiKey, AuthState, find_by_id, find_by_hash, save, remove, delete_api_key, revoke, create_api_key,
  update_api_key, validate_api_key, record_usage, apply_update, CreateApiKeyDto, UpdateApiKeyDto,
}

-- The primary key: no two rows share an id.
abbrev pub UniqueIds : List ApiKey → Type 0
UniqueIds [] = Unit
UniqueIds (k ∷ ks) = (find_by_id k.id ks ≡ none) × UniqueIds ks

pub find_by_id-save :
    (id : String) (k : ApiKey) (ks : List ApiKey)
    → find_by_id id (save k ks) ≡ (if k.id == id then some k else find_by_id id ks)
unfolding save
find_by_id-save id k [] = refl
find_by_id-save id k (row ∷ rows) =
    ground (arith, eq_iff row.id k.id, eq_iff k.id id, eq_iff row.id id, find_by_id-save id k rows)

pub save-UniqueIds : (k : ApiKey) (ks : List ApiKey) → UniqueIds ks → UniqueIds (save k ks)
unfolding save
save-UniqueIds k [] u = (refl, tt)
save-UniqueIds k (row ∷ rows) (h, u) = ground (
  arith,
  eq_iff row.id k.id,
  eq_iff k.id row.id,
  find_by_id-save row.id k rows,
  save-UniqueIds k rows u,
)

pub find_by_id-remove-none :
    (id j : String) (ks : List ApiKey) → find_by_id j ks ≡ none → find_by_id j (remove id ks) ≡ none
unfolding remove
find_by_id-remove-none id j [] h = refl
find_by_id-remove-none id j (row ∷ rows) h = ground (arith, find_by_id-remove-none id j rows)

pub remove-UniqueIds : (id : String) (ks : List ApiKey) → UniqueIds ks → UniqueIds (remove id ks)
unfolding remove
remove-UniqueIds id [] u = tt
remove-UniqueIds id (row ∷ rows) (h, u) =
    ground (arith, find_by_id-remove-none id row.id rows, remove-UniqueIds id rows u)

-- A deleted id is gone.
pub find_by_id-remove :
    (id : String) (ks : List ApiKey) → UniqueIds ks → find_by_id id (remove id ks) ≡ none
unfolding remove
find_by_id-remove id [] u = refl
find_by_id-remove id (row ∷ rows) (h, u) =
    ground (arith, eq_iff row.id id, find_by_id-remove id rows u)

-- The row that a search by hash finds is the row of its id.
pub find_by_hash-find_by_id :
    (h : String) (ks : List ApiKey) {k : ApiKey}
    → UniqueIds ks
    → find_by_hash h ks ≡ some k
    → find_by_id k.id ks ≡ some k
find_by_hash-find_by_id h [] u e = ground arith
find_by_hash-find_by_id h (row ∷ rows) {k} (new, u) e =
    ground (arith, eq_iff row.id k.id, eq_refl k.id, find_by_hash-find_by_id h rows {k = k} u)

-- A write that keeps the id and the hash is what the next search by hash finds.
pub find_by_hash-save :
    (h : String) (ks : List ApiKey) (k k' : ApiKey)
    → UniqueIds ks
    → find_by_hash h ks ≡ some k
    → k'.id ≡ k.id
    → k'.key_hash ≡ k.key_hash
    → find_by_hash h (save k' ks) ≡ some k'
unfolding save
find_by_hash-save h [] k k' u e i j = ground arith
find_by_hash-save h (row ∷ rows) k k' (new, u) e i j = ground (
  arith,
  eq_iff row.id k'.id,
  find_by_hash-find_by_id h rows {k = k} u,
  find-holds (λ r. r.key_hash == h) (row ∷ rows) {a = k} e,
  find_by_hash-save h rows k k' u,
)

validate_api_key-UniqueIds :
    (hash : String → String) (raw : String) (ip session : Option String) (now : ℕ) (s : AuthState)
    → UniqueIds s.keys
    → UniqueIds (validate_api_key hash raw ip session now s).0.keys
unfolding validate_api_key record_usage
validate_api_key-UniqueIds hash raw ip session now s u =
    elim (Option-cases (find_by_hash (hash raw) s.keys)) [
      | inl e ↦ ground arith
      | inr (k, e) ↦ ground (arith, save-UniqueIds (record_usage now k s).1 s.keys u)
    ]

update_api_key-UniqueIds :
    (parse_date : String → ℕ) (id : String) (dto : UpdateApiKeyDto) (s s' : AuthState) (k' : ApiKey)
    → UniqueIds s.keys
    → update_api_key parse_date id dto s ≡ ok (s', k')
    → UniqueIds s'.keys
unfolding update_api_key
update_api_key-UniqueIds parse_date id dto s s' k' u r =
    elim (Option-cases (find_by_id id s.keys)) [
      | inl e ↦ ground arith
      | inr (k, e) ↦ ground (arith, save-UniqueIds (apply_update parse_date dto k) s.keys u)
    ]

delete_api_key-UniqueIds :
    (id : String) (s s' : AuthState)
    → UniqueIds s.keys
    → delete_api_key id s ≡ ok s'
    → UniqueIds s'.keys
unfolding delete_api_key
delete_api_key-UniqueIds id s s' u r = elim (Option-cases (find_by_id id s.keys)) [
  | inl e ↦ ground arith
  | inr (k, e) ↦ ground (arith, remove-UniqueIds k.id s.keys u)
]

revoke-UniqueIds :
    (id : String) (s s' : AuthState) (k' : ApiKey)
    → UniqueIds s.keys
    → revoke id s ≡ ok (s', k')
    → UniqueIds s'.keys
unfolding revoke
revoke-UniqueIds id s s' k' u r = elim (Option-cases (find_by_id id s.keys)) [
  | inl e ↦ ground arith
  | inr (k, e) ↦ ground (arith, save-UniqueIds (record k { is_active = false }) s.keys u)
]

-- A call of the service with what the database, the generator and the clock answer.
pub data Call : Type 0 where
  validate : String → Option String → Option String → ℕ → Call
  create : String → String → ℕ → CreateApiKeyDto → Call
  update : String → UpdateApiKeyDto → Call
  delete_by_id revoke_by_id : String → Call

module _ (hash : String → String) (parse_date : String → ℕ) where
  -- The state after a call; one that throws leaves the table as it is.
  unfoldable pub perform : Call → AuthState → AuthState
  unfolding validate_api_key create_api_key update_api_key delete_api_key revoke
  perform (validate raw_key ip session now) s = (validate_api_key hash raw_key ip session now s).0
  perform (create id random now dto) s = (create_api_key hash parse_date id random now dto s).0
  perform (update id dto) s = elim (update_api_key parse_date id dto s) [
    | ok (s', k) ↦ s'
    | err e ↦ s
  ]
  perform (delete_by_id id) s = elim (delete_api_key id s) [ ok s' ↦ s' | err e ↦ s ]
  perform (revoke_by_id id) s = elim (revoke id s) [ ok (s', k) ↦ s' | err e ↦ s ]

  unfoldable pub perform_all : List Call → AuthState → AuthState
  unfolding perform
  perform_all [] s = s
  perform_all (c ∷ cs) s = perform_all cs (perform c s)

  perform-UniqueIds : (c : Call) (s : AuthState) → UniqueIds s.keys → UniqueIds (perform c s).keys
  unfolding perform create_api_key
  perform-UniqueIds (validate raw_key ip session now) s u =
      validate_api_key-UniqueIds hash raw_key ip session now s u
  perform-UniqueIds (create id random now dto) s u =
      save-UniqueIds (create_api_key hash parse_date id random now dto s).1.0 s.keys u
  perform-UniqueIds (update id dto) s u = elim (Result-cases (update_api_key parse_date id dto s)) [
    | inl ((s', k), e) ↦ rw (perform, e) (update_api_key-UniqueIds parse_date id dto s s' k u e)
    | inr (x, e) ↦ rw (perform, e) u
  ]
  perform-UniqueIds (delete_by_id id) s u = elim (Result-cases (delete_api_key id s)) [
    | inl (s', e) ↦ rw (perform, e) (delete_api_key-UniqueIds id s s' u e)
    | inr (x, e) ↦ rw (perform, e) u
  ]
  perform-UniqueIds (revoke_by_id id) s u = elim (Result-cases (revoke id s)) [
    | inl ((s', k), e) ↦ rw (perform, e) (revoke-UniqueIds id s s' k u e)
    | inr (x, e) ↦ rw (perform, e) u
  ]

  -- Whatever calls are made, the ids of the table stay unique.
  pub perform_all-UniqueIds :
      (cs : List Call) (s : AuthState) → UniqueIds s.keys → UniqueIds (perform_all cs s).keys
  unfolding perform_all
  perform_all-UniqueIds [] s u = u
  perform_all-UniqueIds (c ∷ cs) s u =
      perform_all-UniqueIds cs (perform c s) (perform-UniqueIds c s u)
