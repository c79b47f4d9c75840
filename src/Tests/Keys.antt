-- ===== src/Tests/Keys.antt =====
-- Requests with a key of the table, and the table's operations.
use wp_open_aurora.Prelude.{
  ℕ, String, Bool, true, false, Option, none, some, List, [], ◌∷◌, ◌≡◌, ◌≢◌, ◌↔◌, ◌⊎◌, inl, inr,
  refl, arith, get, Map,
}
use wp_open_aurora.Prelude.Results.{ok, err}
use wp_open_aurora.Auth.Keys.{
  ApiKey, operator, AuthState, AuthError, invalid_key, revoked, find_by_id, find_by_hash,
  validate_api_key, record_usage, revoke, delete_api_key,
}
use wp_open_aurora.Auth.Keys.Table.{Call}
use wp_open_aurora.Auth.Keys.Checks.{Admits, validate_api_key_iff, revoke-validate_api_key}
use wp_open_aurora.Auth.Keys.Usage.{Counts, validate_api_key-Counts}
use wp_open_aurora.Auth.Guard.{Route, Request, Access, open_route, by_api_key, can_activate}
use wp_open_aurora.Auth.Guard.Grants.{Granted, can_activate-Granted}

abbrev hash : String → String
hash s = s

abbrev key : ApiKey
key = record {
  id = "k1";
  name = "bot";
  key_hash = "secret";
  key_prefix = "secret";
  role = operator;
  allowed_ips = none;
  allowed_sessions = none;
  is_active = true;
  expires_at = none;
  last_used_at = some 1000;
  usage_count = 4;
  created_at = 0;
}

abbrev table : AuthState
table = record { keys = key ∷ []; pending_usage = [] }

validate_api_key_iff_example :
    ((used : ApiKey) × ((validate_api_key hash "secret" none none 2000 table).1 ≡ ok used))
    ↔ ((k : ApiKey) × (find_by_hash "secret" (key ∷ []) ≡ some k) × Admits k none none 2000)
validate_api_key_iff_example = validate_api_key_iff hash "secret" none none 2000 table

revoke-validate_api_key_example :
    (validate_api_key hash "secret" none none 2000
        (record { keys = record key { is_active = false } ∷ []; pending_usage = [] })
      ≡ (record { keys = record key { is_active = false } ∷ []; pending_usage = [] }, err revoked))
    × (get {V = ℕ} "k1" [] ≡ none)
unfolding revoke wp_open_aurora.Auth.Keys.save wp_open_aurora.Prelude.delete
revoke-validate_api_key_example =
    revoke-validate_api_key hash "secret" none none 2000 table
      (record { keys = record key { is_active = false } ∷ []; pending_usage = [] }) key
      (record key { is_active = false }) (refl, tt) refl refl

validate_api_key-Counts_example :
    Counts table
      (record { keys = key ∷ []; pending_usage = ("k1", 1) ∷ [] })
      (record key { last_used_at = some 2000; usage_count = 5 })
unfolding validate_api_key record_usage wp_open_aurora.Prelude.put get
validate_api_key-Counts_example =
    validate_api_key-Counts hash "secret" none none 2000 table
      (record { keys = key ∷ []; pending_usage = ("k1", 1) ∷ [] })
      (record key { last_used_at = some 2000; usage_count = 5 }) (refl, tt) refl

abbrev guarded_route : Route
guarded_route = record { is_public = false; skip_api_key = false; required_role = some operator }

abbrev call : Request
call = record {
  authorization = none;
  x_api_key = some " secret ";
  session_param = none;
  id_param = none;
  url = "/api/sessions";
  client_ip = "10.0.0.1";
}

can_activate-Granted_example :
    Granted hash hash hash guarded_route call 2000
      (record { users = []; sessions = [] })
      table
      (by_api_key (record key { last_used_at = some 2000; usage_count = 5 }))
unfolding can_activate wp_open_aurora.Prelude.Text.trim wp_open_aurora.Auth.Guard.authorize_api_key
    validate_api_key wp_open_aurora.Auth.Keys.has_permission record_usage get
can_activate-Granted_example =
    can_activate-Granted hash hash hash guarded_route call 2000
      (record { users = []; sessions = [] }) table
      (by_api_key (record key { last_used_at = some 2000; usage_count = 5 })) refl

abbrev calls : List Call
calls = Call.validate "secret" none none 2000 ∷ Call.revoke_by_id "k1" ∷ Call.delete_by_id "k1" ∷ []
