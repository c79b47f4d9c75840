-- ===== src/Omega/Guard.antt =====
-- src/modules/omega/guards: `OmegaAuthGuard` and `OmegaRolesGuard` of the panel's own routes.
pub mod Roles
use Prim.Native.String
use wp_open_aurora.Prelude.{
  ℕ, String, Bool, true, false, not, Option, none, some, List, [], ◌∷◌, any, if◌then◌else◌,
}
use wp_open_aurora.Prelude.Results.{Result, ok, err, ◌>>=◌, ◌>>◌, throw_if, or_throw}
use wp_open_aurora.Omega.Users.{
  OmegaUser, OmegaUserRole, super_admin, support_admin, client_admin, client_agent, active,
  OmegaState, OmegaError, validate_session_token, assert_password_change_satisfied,
}
use wp_open_aurora.Auth.Keys.{ApiKey, admin, AuthState, AuthError, has_permission, validate_api_key}
use wp_open_aurora.Auth.Guard.{trimmed, bearer_token}

pub record PanelRequest : Type 0 where
  pub authorization : Option String
  pub x_api_key : Option String
  pub path : String
  pub method : String
  pub client_ip : String

pub data PanelError : Type 0 where
  key_refused : AuthError → PanelError
  token_refused : OmegaError → PanelError
  admin_key_required no_credentials no_user role_refused : PanelError

-- The account as which an administrator's API key acts.
unfoldable pub user_of_key : ApiKey → OmegaUser
user_of_key k = record {
  id = String.◌++◌ "openwa:" k.id;
  full_name = k.name;
  email = "openwa-admin@local";
  password_hash = "";
  client_id = none;
  team_id = none;
  role = super_admin;
  status = active;
  is_on_duty = true;
  must_change_password = false;
  last_login_at = k.last_used_at;
}

abbrev answer_key : Result AuthError ApiKey → Result PanelError OmegaUser
answer_key (err e) = err (key_refused e)
answer_key (ok k) =
    if has_permission k.role admin then ok (user_of_key k) else err admin_key_required

abbrev of_token {ℓ} : {A : Type ℓ} → Result OmegaError A → Result PanelError A
of_token (ok a) = ok a
of_token (err e) = err (token_refused e)

module _ (hash hash_token to_upper : String → String) where
  unfoldable pub authenticate :
      PanelRequest → ℕ → OmegaState → AuthState → AuthState × Result PanelError OmegaUser
  authenticate req now o s = elim (bearer_token req.authorization) [
    | some token ↦ (
      s,
      do
        found ← of_token (validate_session_token hash_token token now o)
        of_token (assert_password_change_satisfied to_upper found.0 req.path req.method)
        ok found.0,
    )
    | none ↦ elim (trimmed req.x_api_key) [
      | none ↦ (s, err no_credentials)
      | some key ↦
          let (s', answer) = validate_api_key hash key (some req.client_ip) none now s in
          (s', answer_key answer)
    ]
  ]

abbrev pub same_role : OmegaUserRole → OmegaUserRole → Bool
same_role super_admin super_admin = true
same_role support_admin support_admin = true
same_role client_admin client_admin = true
same_role client_agent client_agent = true
same_role _ _ = false

-- `OmegaRolesGuard.canActivate`, on the roles that the route names and the account of the request.
unfoldable pub check_roles : List OmegaUserRole → Option OmegaUser → Result PanelError (Unit {0})
check_roles [] user = ok tt
check_roles (r ∷ rs) user = do
  u ← or_throw user no_user
  throw_if (not (any (same_role u.role) (r ∷ rs))) role_refused
