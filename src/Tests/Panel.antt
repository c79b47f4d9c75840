-- ===== src/Tests/Panel.antt =====
-- Accounts of the panel: logins, tokens, passwords and API keys in their place.
use wp_open_aurora.Prelude.{ℕ, String, true, none, some, List, [], ◌∷◌, ◌≡◌, refl, arith, ◌+◌, ◌*◌}
use wp_open_aurora.Prelude.Results.{ok}
use wp_open_aurora.Prelude.Text.{split}
use wp_open_aurora.Omega.Users.{
  OmegaUser, OmegaUserRole, super_admin, OmegaUserStatus, active, OmegaAuthSession, OmegaState,
  session_expired, find_session, find_user, validate_session_token, logout, login, hash_password,
  verify_password, assert_password_change_satisfied, without_api,
}
use wp_open_aurora.Omega.Users.Tokens.{login-validate_session_token}
use wp_open_aurora.Omega.Guard.{PanelRequest}

abbrev same : String → String
same s = s

-- A digest of no bytes would not verify: the stand-in has one.
abbrev scrypt : String → String → List ℕ
scrypt password salt = 7 ∷ []

abbrev to_hex : List ℕ → String
to_hex bytes = "07"

abbrev from_hex : String → List ℕ
from_hex s = 7 ∷ []

abbrev user : OmegaUser
user = record {
  id = "u1";
  full_name = "Ana";
  email = "ana@x";
  password_hash = "salt:07";
  client_id = none;
  team_id = none;
  role = super_admin;
  status = active;
  is_on_duty = true;
  must_change_password = true;
  last_login_at = none;
}

abbrev session : OmegaAuthSession
session = record { user_id = "u1"; token_hash = "t1"; expires_at = 3600100 }

abbrev panel : OmegaState
panel = record { users = user ∷ []; sessions = session ∷ [] }

login-validate_session_token_example :
    (◌≡◌ {A = String} "t1" "t1")
    × (3600100 ≡ 100 + 1 * 3600000)
    × (found : OmegaAuthSession) × (validate_session_token same "t1" 200 (record {
      users = record user { last_login_at = some 100 } ∷ [];
      sessions = session ∷ [];
    })
        ≡ ok (record user { last_login_at = some 100 }, found))
unfolding login verify_password split wp_open_aurora.Omega.Users.save_user
login-validate_session_token_example =
    login-validate_session_token scrypt to_hex from_hex same same "ana@x" "pw" "t1" "t1" 1 100 200
      (record { users = user ∷ []; sessions = [] })
      (record { users = record user { last_login_at = some 100 } ∷ []; sessions = session ∷ [] })
      (record user { last_login_at = some 100 }) 3600100 refl refl (omega arith)

abbrev request : PanelRequest
request = record {
  authorization = some "Bearer t1";
  x_api_key = none;
  path = "/api/omega/auth/me";
  method = "GET";
  client_ip = "10.0.0.1";
}
