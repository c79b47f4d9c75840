-- ===== src/Auth/Guard.antt =====
-- src/modules/auth/guards/api-key.guard.ts: who may call an HTTP route. The decorators of the route
-- and the fields of the request are records; `client_ip` is the answer of `resolveClientIp`.
pub mod Grants
use wp_open_aurora.Prelude.{
  ℕ, String, Bool, true, false, not, ◌&&◌, ◌||◌, Option, none, some, ◌==◌, if◌then◌else◌, is_empty,
}
use wp_open_aurora.Prelude.Results.{Result, ok, err, ◌>>=◌, ◌>>◌, throw_if}
use wp_open_aurora.Prelude.Text.{trim, starts_with, strip_prefix}
use wp_open_aurora.Omega.Users.{
  OmegaUser, OmegaUserRole, super_admin, support_admin, client_admin, client_agent, OmegaState,
  OmegaError, validate_session_token,
}
use wp_open_aurora.Auth.Keys.{
  ApiKey, ApiKeyRole, admin, AuthState, AuthError, has_permission, validate_api_key,
}

pub record Route : Type 0 where
  pub is_public : Bool
  pub skip_api_key : Bool
  pub required_role : Option ApiKeyRole

pub record Request : Type 0 where
  pub authorization : Option String
  pub x_api_key : Option String
  pub session_param : Option String
  pub id_param : Option String
  pub url : String
  pub client_ip : String

pub data Access : Type 0 where
  open_route : Access
  by_api_key : ApiKey → Access
  by_session : OmegaUser → Access

pub data GuardError : Type 0 where
  key_refused : AuthError → GuardError
  token_refused : OmegaError → GuardError
  no_panel_access sensitive_controls insufficient_role no_credentials : GuardError

-- `x?.trim() || undefined`
abbrev pub trimmed : Option String → Option String
trimmed none = none
trimmed (some s) = let t = trim s in if is_empty t then none else some t

unfoldable pub bearer_token : Option String → Option String
bearer_token none = none
bearer_token (some header) = trimmed (strip_prefix "Bearer " header)

abbrev first_given : Option String → Option String → Option String
first_given none b = b
first_given (some a) b = if is_empty a then b else some a

unfoldable pub is_omega_admin : OmegaUserRole → Bool
is_omega_admin super_admin = true
is_omega_admin support_admin = true
is_omega_admin client_admin = true
is_omega_admin client_agent = false

unfoldable pub is_sensitive_path : String → Bool
is_sensitive_path path =
    starts_with path "/api/auth/api-keys"
    || starts_with path "/api/infra"
    || starts_with path "/api/plugins"

unfoldable pub assert_omega_route_access : OmegaUserRole → String → Result GuardError (Unit {0})
assert_omega_route_access super_admin path = ok tt
assert_omega_route_access role path = throw_if (is_sensitive_path path) sensitive_controls

abbrev check_role : ApiKeyRole → Option ApiKeyRole → Result GuardError (Unit {0})
check_role role none = ok tt
check_role role (some required) = throw_if (not (has_permission role required)) insufficient_role

abbrev answer_key : Option ApiKeyRole → Result AuthError ApiKey → Result GuardError Access
answer_key required (err e) = err (key_refused e)
answer_key required (ok k) = do check_role k.role required; ok (by_api_key k)

abbrev answer_token {ℓ} : {A : Type ℓ} → Result OmegaError A → Result GuardError A
answer_token (err e) = err (token_refused e)
answer_token (ok a) = ok a

module _ (hash hash_token to_lower : String → String) where
  unfoldable pub authorize_api_key :
      Option ApiKeyRole → Request → String → ℕ → AuthState → AuthState × Result GuardError Access
  authorize_api_key required req raw_key now s =
      let (s', answer) =
        (validate_api_key hash raw_key (some req.client_ip)
          (first_given req.session_param req.id_param) now s) in
      (s', answer_key required answer)

  -- An account acts with the synthetic key of an administrator.
  unfoldable pub authorize_session :
      Option ApiKeyRole → Request → String → ℕ → OmegaState → Result GuardError Access
  authorize_session required req token now o = do
    found ← answer_token (validate_session_token hash_token token now o)
    throw_if (not (is_omega_admin found.0.role)) no_panel_access
    assert_omega_route_access found.0.role (to_lower req.url)
    check_role admin required
    ok (by_session found.0)

  unfoldable pub can_activate :
      Route → Request → ℕ → OmegaState → AuthState → AuthState × Result GuardError Access
  can_activate route req now o s =
      if route.is_public || route.skip_api_key
      then (s, ok open_route)
      else elim (trimmed req.x_api_key) [
        | some raw_key ↦ authorize_api_key route.required_role req raw_key now s
        | none ↦ elim (bearer_token req.authorization) [
          | none ↦ (s, err no_credentials)
          | some token ↦
              if starts_with token "owa_"
              then authorize_api_key route.required_role req token now s
              else (s, authorize_session route.required_role req token now o)
        ]
      ]
