-- ===== src/Auth/Keys/Checks.antt =====
-- Which requests `validateApiKey` lets through, and what a revoked or deleted key does.
use wp_open_aurora.Prelude.{
  ℕ, String, true, false, Option, none, some, List, [], ◌∷◌, ◌==◌, eq_iff, ◌≡◌, ◌≢◌, ◌≤◌, ◌↔◌, refl,
  arith, includes, Option-cases, inl, inr, find-holds, get, get-delete, eq_refl, ap,
}
use wp_open_aurora.Prelude.Results.{ok, err}
use wp_open_aurora.Auth.Cidr.{is_ip_allowed}
use wp_open_aurora.Auth.Keys.{
  ApiKey, AuthState, AuthError, revoked, find_by_id, find_by_hash, check_key, check_expiry,
  check_ip, check_session, validate_api_key, revoke, delete_api_key, record_usage,
}
use wp_open_aurora.Auth.Keys.Table.{
  UniqueIds, find_by_hash-save, find_by_hash-find_by_id, find_by_id-remove,
}

abbrev InTime : Option ℕ → ℕ → Type 0
InTime none now = Unit
InTime (some at) now = now ≤ at

-- No whitelist, or a known address that the whitelist allows.
abbrev FromAllowedIp : Option (List String) → Option String → Type 0
FromAllowedIp none ip = Unit
FromAllowedIp (some []) ip = Unit
FromAllowedIp (some (e ∷ es)) none = ⊥
FromAllowedIp (some (e ∷ es)) (some ip) = (ip ≢ "") × (is_ip_allowed ip (e ∷ es) ≡ true)

-- No restriction, no session in the request, or a session of the list.
abbrev ForAllowedSession : Option (List String) → Option String → Type 0
ForAllowedSession none id = Unit
ForAllowedSession (some []) id = Unit
ForAllowedSession (some (s ∷ ss)) none = Unit
ForAllowedSession (some (s ∷ ss)) (some id) = id ≢ "" → includes id (s ∷ ss) ≡ true

pub record Admits (k : ApiKey) (ip session : Option String) (now : ℕ) : Type 0 where
  pub active : k.is_active ≡ true
  pub in_time : InTime k.expires_at now
  pub from_ip : FromAllowedIp k.allowed_ips ip
  pub for_session : ForAllowedSession k.allowed_sessions session

check_expiry_iff : (at : Option ℕ) (now : ℕ) → (check_expiry at now ≡ ok tt) ↔ InTime at now
unfolding check_expiry
check_expiry_iff none now = (λ _. tt, λ _. refl)
check_expiry_iff (some at) now = (λ e. ground arith, λ h. ground arith)

check_ip_iff :
    (ips : Option (List String)) (ip : Option String)
    → (check_ip ips ip ≡ ok tt) ↔ FromAllowedIp ips ip
unfolding check_ip
check_ip_iff none ip = (λ _. tt, λ _. refl)
check_ip_iff (some []) ip = (λ _. tt, λ _. refl)
check_ip_iff (some (e ∷ es)) none = (λ h. cc, λ h. absurd h)
check_ip_iff (some (e ∷ es)) (some ip) =
    (λ h. ground (arith, eq_iff ip ""), λ h. ground (arith, eq_iff ip ""))

check_session_iff :
    (ids : Option (List String)) (id : Option String)
    → (check_session ids id ≡ ok tt) ↔ ForAllowedSession ids id
unfolding check_session
check_session_iff none id = (λ _. tt, λ _. refl)
check_session_iff (some []) id = (λ _. tt, λ _. refl)
check_session_iff (some (s ∷ ss)) none = (λ _. tt, λ _. refl)
check_session_iff (some (s ∷ ss)) (some id) =
    (λ h n. ground (arith, eq_iff id ""), λ h. ground (arith, eq_iff id ""))

check_key_iff :
    (k : ApiKey) (ip session : Option String) (now : ℕ)
    → (check_key k ip session now ≡ ok tt) ↔ Admits k ip session now
unfolding check_key
check_key_iff k ip session now =
    let e = check_expiry_iff k.expires_at now in
    let i = check_ip_iff k.allowed_ips ip in
    let s = check_session_iff k.allowed_sessions session in
    (
      λ h. record {
        active = ground arith;
        in_time = e.0 (ground arith);
        from_ip = i.0 (ground arith);
        for_session = s.0 (ground arith);
      },
      λ a. rw (a.active, e.1 a.in_time, i.1 a.from_ip, s.1 a.for_session),
    )

-- Once a key is deleted, its id is gone from the table and from the pending counts.
pub delete_api_key_gone :
    (s s' : AuthState) (id : String)
    → UniqueIds s.keys
    → delete_api_key id s ≡ ok s'
    → (find_by_id id s'.keys ≡ none) × (get id s'.pending_usage ≡ none)
unfolding delete_api_key
delete_api_key_gone s s' id u r = elim (Option-cases (find_by_id id s.keys)) [
  | inl e ↦ ground arith
  | inr (k, e) ↦
      let same = (eq_iff k.id id).0 (find-holds (λ k. k.id == id) s.keys e) in
      ground (arith, find_by_id-remove id s.keys u, get-delete id id s.pending_usage, eq_refl id)
]

module _ (hash : String → String) (raw_key : String) (ip session : Option String) (now : ℕ) where
  -- A request is let through only with a key of the table that admits it.
  pub validate_api_key_sound :
      (s : AuthState) {used : ApiKey}
      → (validate_api_key hash raw_key ip session now s).1 ≡ ok used
      → (k : ApiKey) × (find_by_hash (hash raw_key) s.keys ≡ some k) × Admits k ip session now
  unfolding validate_api_key
  validate_api_key_sound s h = elim (Option-cases (find_by_hash (hash raw_key) s.keys)) [
    | inl e ↦ ground arith
    | inr (k, e) ↦ (k, e, (check_key_iff k ip session now).0 (ground arith))
  ]

  pub validate_api_key_complete :
      (s : AuthState) (k : ApiKey)
      → find_by_hash (hash raw_key) s.keys ≡ some k
      → Admits k ip session now
      → validate_api_key hash raw_key ip session now s
        ≡ ((record_usage now k s).0, ok (record_usage now k s).1)
  unfolding validate_api_key
  validate_api_key_complete s k e a = ground (arith, (check_key_iff k ip session now).1 a)

  -- A request is let through exactly when a key of the table has its hash, is active and not past
  -- its date, is used from an allowed address, if it lists addresses, and for an allowed session,
  -- if it lists sessions and the request names one.
  pub validate_api_key_iff :
      (s : AuthState)
      → ((used : ApiKey) × ((validate_api_key hash raw_key ip session now s).1 ≡ ok used))
        ↔ ((k : ApiKey) × (find_by_hash (hash raw_key) s.keys ≡ some k) × Admits k ip session now)
  validate_api_key_iff s = (
    λ (used, h). validate_api_key_sound s h,
    λ (k, e, a). ((record_usage now k s).1, ap (λ r. r.1) (validate_api_key_complete s k e a)),
  )

  -- A refused request changes neither the table nor the pending counts.
  pub validate_api_key_refused :
      (s : AuthState) {e : AuthError}
      → (validate_api_key hash raw_key ip session now s).1 ≡ err e
      → (validate_api_key hash raw_key ip session now s).0 ≡ s
  unfolding validate_api_key
  validate_api_key_refused s h = ground arith

  -- Once a key is revoked, no request with it is let through, wherever it comes from: the answer is
  -- that the key is revoked, and the count that was not yet written is dropped.
  pub revoke-validate_api_key :
      (s s' : AuthState) (k k' : ApiKey)
      → UniqueIds s.keys
      → find_by_hash (hash raw_key) s.keys ≡ some k
      → revoke k.id s ≡ ok (s', k')
      → (validate_api_key hash raw_key ip session now s' ≡ (s', err revoked))
        × (get k.id s'.pending_usage ≡ none)
  unfolding validate_api_key revoke check_key
  revoke-validate_api_key s s' k k' u e r =
      let row = find_by_hash-find_by_id (hash raw_key) s.keys u e in
      let k₀ = record k { is_active = false } in
      let found = find_by_hash-save (hash raw_key) s.keys k k₀ u e refl refl in
      ground (arith, row, found, get-delete k.id k.id s.pending_usage, eq_refl k.id)
