-- ===== src/Auth/Keys.antt =====
-- src/modules/auth/auth.service.ts: the API keys, their validation and the coalesced usage count.
-- The table `api_keys` is the list of its rows, and `pendingUsage` an association list. A call is
-- one step: what other requests do between its awaits is not modelled. Hashing, fresh ids, random
-- keys and the parsing of dates are parameters, and times are milliseconds.
pub mod Table
pub mod Checks
pub mod Usage
use Prim.Native.String
use wp_open_aurora.Prelude.{
  ℕ, zero, suc, ◌+◌, ◌-◌, String, Bool, true, false, not, ◌&&◌, ◌||◌, Option, none, some, List, [],
  ◌∷◌, ◌==◌, ltb, leb, if◌then◌else◌, or_default, is_empty, find, includes, Map, get, put, delete,
}
use wp_open_aurora.Prelude.Results.{Result, ok, err, ◌>>=◌, ◌>>◌, throw_if, or_throw}
use wp_open_aurora.Prelude.Text.{take_chars}
use wp_open_aurora.Auth.Cidr.{is_ip_allowed}

pub data ApiKeyRole : Type 0 where
  viewer operator admin : ApiKeyRole

pub record ApiKey : Type 0 where
  pub id : String
  pub name : String
  pub key_hash : String
  pub key_prefix : String
  pub role : ApiKeyRole
  pub allowed_ips : Option (List String)
  pub allowed_sessions : Option (List String)
  pub is_active : Bool
  pub expires_at : Option ℕ
  pub last_used_at : Option ℕ
  pub usage_count : ℕ
  pub created_at : ℕ

pub data AuthError : Type 0 where
  not_found invalid_key revoked expired ip_unknown ip_rejected session_rejected : AuthError

pub record AuthState : Type 0 where
  pub keys : List ApiKey
  pub pending_usage : Map ℕ

-- `findOne({ where: { id } })` and `findOne({ where: { keyHash } })`
abbrev pub find_by_id : String → List ApiKey → Option ApiKey
find_by_id id = find (λ k. k.id == id)

abbrev pub find_by_hash : String → List ApiKey → Option ApiKey
find_by_hash h = find (λ k. k.key_hash == h)

-- `save` of an entity: the row with its id is replaced, and a new id is a new row.
unfoldable pub save : ApiKey → List ApiKey → List ApiKey
save k [] = k ∷ []
save k (row ∷ rows) = if row.id == k.id then k ∷ rows else row ∷ save k rows

unfoldable pub remove : String → List ApiKey → List ApiKey
remove id [] = []
remove id (row ∷ rows) = if row.id == id then rows else row ∷ remove id rows

abbrev level : ApiKeyRole → ℕ
level viewer = 1
level operator = 2
level admin = 3

unfoldable pub has_permission : ApiKeyRole → ApiKeyRole → Bool
has_permission role required = leb (level required) (level role)

abbrev pub stat_flush_interval_ms : ℕ
stat_flush_interval_ms = 60_000

unfoldable pub check_expiry : Option ℕ → ℕ → Result AuthError (Unit {0})
check_expiry none now = ok tt
check_expiry (some at) now = throw_if (ltb at now) expired

unfoldable pub check_ip : Option (List String) → Option String → Result AuthError (Unit {0})
check_ip none client_ip = ok tt
check_ip (some []) client_ip = ok tt
check_ip (some (entry ∷ entries)) none = err ip_unknown
check_ip (some (entry ∷ entries)) (some ip) = do
  throw_if (is_empty ip) ip_unknown
  throw_if (not (is_ip_allowed ip (entry ∷ entries))) ip_rejected

unfoldable pub check_session : Option (List String) → Option String → Result AuthError (Unit {0})
check_session none session_id = ok tt
check_session (some []) session_id = ok tt
check_session (some (s ∷ ss)) none = ok tt
check_session (some (s ∷ ss)) (some id) =
    throw_if (not (is_empty id) && not (includes id (s ∷ ss))) session_rejected

-- `!previousLastUsedAt || now - previousLastUsedAt >= STAT_FLUSH_INTERVAL_MS`
abbrev is_due : Option ℕ → ℕ → Bool
is_due none now = true
is_due (some last) now = leb (last + stat_flush_interval_ms) now

-- The last part of `validateApiKey`: the count in the answer, and the write when it is due.
unfoldable pub record_usage : ℕ → ApiKey → AuthState → AuthState × ApiKey
record_usage now k s =
    let pending = or_default (get k.id s.pending_usage) 0 + 1 in
    let used = record k { last_used_at = some now; usage_count = k.usage_count + pending } in
    if is_due k.last_used_at now
    then (record { keys = save used s.keys; pending_usage = delete k.id s.pending_usage }, used)
    else (record s { pending_usage = put k.id pending s.pending_usage }, used)

pub record CreateApiKeyDto : Type 0 where
  pub name : String
  pub role : Option ApiKeyRole
  pub allowed_ips : Option (List String)
  pub allowed_sessions : Option (List String)
  pub expires_at : Option String

pub record UpdateApiKeyDto : Type 0 where
  pub name : Option String
  pub role : Option ApiKeyRole
  pub allowed_ips : Option (List String)
  pub allowed_sessions : Option (List String)
  pub expires_at : Option String

find_one : String → AuthState → Result AuthError ApiKey
find_one id s = or_throw (find_by_id id s.keys) not_found

delete_key : ApiKey → AuthState → AuthState
delete_key k s = record { keys = remove k.id s.keys; pending_usage = delete k.id s.pending_usage }

unfoldable pub delete_api_key : String → AuthState → Result AuthError AuthState
unfolding find_one delete_key
delete_api_key id s = do k ← find_one id s; ok (delete_key k s)

unfoldable pub revoke : String → AuthState → Result AuthError (AuthState × ApiKey)
unfolding find_one
revoke id s = do
  k ← find_one id s
  let k' = record k { is_active = false }
  ok (record { keys = save k' s.keys; pending_usage = delete id s.pending_usage }, k')

check_key : ApiKey → Option String → Option String → ℕ → Result AuthError (Unit {0})
check_key k client_ip session_id now = do
  throw_if (not k.is_active) revoked
  check_expiry k.expires_at now
  check_ip k.allowed_ips client_ip
  check_session k.allowed_sessions session_id

abbrev date_of : (String → ℕ) → Option String → Option ℕ
date_of parse_date none = none
date_of parse_date (some text) = if is_empty text then none else some (parse_date text)

-- `undefined` leaves a field alone; an empty name does too, and an empty date clears the field.
abbrev apply_update : (String → ℕ) → UpdateApiKeyDto → ApiKey → ApiKey
apply_update parse_date dto k = record k {
  name = elim dto.name [ none ↦ k.name | some n ↦ if is_empty n then k.name else n ];
  role = or_default dto.role k.role;
  allowed_ips = elim dto.allowed_ips [ none ↦ k.allowed_ips | some l ↦ some l ];
  allowed_sessions = elim dto.allowed_sessions [ none ↦ k.allowed_sessions | some l ↦ some l ];
  expires_at = elim dto.expires_at [ none ↦ k.expires_at | some t ↦ date_of parse_date (some t) ];
}

unfoldable pub update_api_key :
    (String → ℕ) → String → UpdateApiKeyDto → AuthState → Result AuthError (AuthState × ApiKey)
unfolding find_one
update_api_key parse_date id dto s = do
  k ← find_one id s
  ok (
    record s { keys = save (apply_update parse_date dto k) s.keys },
    apply_update parse_date dto k,
  )

-- `hash` is the SHA-256 digest of the raw key, in hexadecimal.
module _ (hash : String → String) where
  unfoldable pub validate_api_key :
      String → Option String → Option String → ℕ → AuthState → AuthState × Result AuthError ApiKey
  unfolding check_key check_expiry check_ip check_session
  validate_api_key raw_key client_ip session_id now s = elim (find_by_hash (hash raw_key) s.keys) [
    | none ↦ (s, err invalid_key)
    | some k ↦ elim (check_key k client_ip session_id now) [
      | err e ↦ (s, err e)
      | ok _ ↦ let (s', used) = record_usage now k s in (s', ok used)
    ]
  ]

  -- `id`, `random` and `now` are what the database, the generator and the clock answer.
  unfoldable pub create_api_key :
      (String → ℕ)
      → String
      → String
      → ℕ
      → CreateApiKeyDto
      → AuthState
      → AuthState × (ApiKey × String)
  create_api_key parse_date id random now dto s =
      let raw_key = String.◌++◌ "owa_k1_" random in
      let k : ApiKey = record {
        id = id;
        name = dto.name;
        key_hash = hash raw_key;
        key_prefix = take_chars 12 raw_key;
        role = or_default dto.role operator;
        allowed_ips = dto.allowed_ips;
        allowed_sessions = dto.allowed_sessions;
        is_active = true;
        expires_at = date_of parse_date dto.expires_at;
        last_used_at = none;
        usage_count = 0;
        created_at = now;
      } in
      (record s { keys = save k s.keys }, (k, raw_key))
