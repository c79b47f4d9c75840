-- ===== src/Auth/Guard/Grants.antt =====
-- What a request that the guard lets through has shown.
use wp_open_aurora.Prelude.{
  ℕ, ◌≤◌, String, true, false, ◌||◌, Option, none, some, ◌≡◌, ◌↔◌, ◌⊎◌, inl, inr, refl, arith,
  Option-cases, Bool-cases,
}
use wp_open_aurora.Prelude.Results.{Result, ok, err, Result-cases}
use wp_open_aurora.Prelude.Text.{starts_with}
use wp_open_aurora.Omega.Users.{
  OmegaUser, OmegaUserRole, super_admin, OmegaState, OmegaAuthSession, active, find_session,
  find_user, validate_session_token,
}
use wp_open_aurora.Omega.Users.Tokens.{validate_session_token_iff}
use wp_open_aurora.Auth.Keys.{
  ApiKey, ApiKeyRole, AuthState, AuthError, has_permission, validate_api_key,
}
use wp_open_aurora.Auth.Guard.{
  Route, Request, Access, open_route, by_api_key, by_session, trimmed, bearer_token, first_given,
  is_omega_admin, is_sensitive_path, assert_omega_route_access, authorize_api_key,
  authorize_session, can_activate, answer_key, check_role,
}

abbrev Suffices : ApiKeyRole → Option ApiKeyRole → Type 0
Suffices role none = Unit
Suffices role (some required) = has_permission role required ≡ true

route_access_iff :
    (role : OmegaUserRole) (path : String)
    → (assert_omega_route_access role path ≡ ok tt)
      ↔ (is_sensitive_path path ≡ true → role ≡ super_admin)
unfolding assert_omega_route_access
route_access_iff super_admin path = (λ _ _. refl, λ _. refl)
route_access_iff role path = (λ h k. ground arith, λ h. ground arith)

-- What an account of the panel has shown: the token of a stored session that has not expired, whose
-- account is active and has a role of the panel, that of the super administrator where the path is a
-- sensitive one. The session of the token acts as an administrator.
pub record SessionGrant (hash_token to_lower : String → String) (req : Request) (token : String)
    (now : ℕ) (o : OmegaState) (u : OmegaUser) : Type 0 where
  pub session : OmegaAuthSession
  pub is_stored : find_session (hash_token token) o.sessions ≡ some session
  pub not_expired : now ≤ session.expires_at
  pub is_owner : find_user session.user_id o.users ≡ some u
  pub is_panel_role : is_omega_admin u.role ≡ true
  pub is_available : u.status ≡ active
  pub only_super : is_sensitive_path (to_lower req.url) ≡ true → u.role ≡ super_admin

check_role-Suffices :
    (role : ApiKeyRole) (required : Option ApiKeyRole)
    → check_role role required ≡ ok tt
    → Suffices role required
check_role-Suffices role none h = tt
check_role-Suffices role (some required) h = ground arith

answer_key_granted :
    (required : Option ApiKeyRole) (answer : Result AuthError ApiKey) (a : Access)
    → answer_key required answer ≡ ok a
    → (k : ApiKey) × (answer ≡ ok k) × Suffices k.role required × (a ≡ by_api_key k)
answer_key_granted required (err e) a h = absurd (ground arith)
answer_key_granted required (ok k) a h =
    (k, refl, check_role-Suffices k.role required (ground arith), ground arith)

module _ (hash hash_token to_lower : String → String) where
  authorize_session-SessionGrant :
      (required : Option ApiKeyRole) (req : Request) (token : String) (now : ℕ) (o : OmegaState)
      (a : Access)
      → authorize_session hash hash_token to_lower required req token now o ≡ ok a
      → (u : OmegaUser) × (a ≡ by_session u) × SessionGrant hash_token to_lower req token now o u
  unfolding authorize_session
  authorize_session-SessionGrant required req token now o a h =
      elim (Result-cases (validate_session_token hash_token token now o)) [
        | inr (e, r) ↦ absurd (ground arith)
        | inl ((u, session), r) ↦
            let good = (validate_session_token_iff hash_token token now o u session).0 r in
            (
              u,
              ground arith,
              record {
                session = session;
                is_stored = good.0;
                not_expired = good.1;
                is_owner = good.2;
                is_panel_role = ground arith;
                is_available = good.3;
                only_super = (route_access_iff u.role (to_lower req.url)).0 (ground arith);
              },
            )
      ]

  -- What each way in has shown.
  pub data Granted (route : Route) (req : Request) (now : ℕ) (o : OmegaState) (s : AuthState)
      (a : Access) : Type 0 where
    as_public :
        route.is_public || route.skip_api_key ≡ true → a ≡ open_route → Granted route req now o s a
    with_key :
        (raw_key : String) (k : ApiKey)
        → (trimmed req.x_api_key ≡ some raw_key) ⊎ (bearer_token req.authorization ≡ some raw_key)
        → (validate_api_key hash raw_key
            (some req.client_ip)
            (first_given req.session_param req.id_param)
            now
            s).1
          ≡ ok k
        → Suffices k.role route.required_role
        → a ≡ by_api_key k
        → Granted route req now o s a
    with_token :
        (token : String) (u : OmegaUser)
        → bearer_token req.authorization ≡ some token
        → SessionGrant hash_token to_lower req token now o u
        → a ≡ by_session u
        → Granted route req now o s a

  authorize_api_key-granted :
      (required : Option ApiKeyRole) (req : Request) (raw_key : String) (now : ℕ) (s : AuthState)
      (a : Access)
      → (authorize_api_key hash hash_token to_lower required req raw_key now s).1 ≡ ok a
      → (k : ApiKey) × ((validate_api_key hash raw_key
            (some req.client_ip)
            (first_given req.session_param req.id_param)
            now
            s).1
          ≡ ok k)
        × Suffices k.role required
        × (a ≡ by_api_key k)
  unfolding authorize_api_key
  authorize_api_key-granted required req raw_key now s a h = answer_key_granted required _ a h

  -- Whoever passes the guard either calls a public route, or shows a key that the whitelist, the
  -- dates and the sessions admit and whose role suffices, or the token of a stored session that has not
  -- expired, of an active account with a role of the panel; an account other than a super administrator
  -- reaches no sensitive path.
  pub can_activate-Granted :
      (route : Route) (req : Request) (now : ℕ) (o : OmegaState) (s : AuthState) (a : Access)
      → (can_activate hash hash_token to_lower route req now o s).1 ≡ ok a
      → Granted route req now o s a
  unfolding can_activate
  can_activate-Granted route req now o s a h =
      elim (Bool-cases (route.is_public || route.skip_api_key)) [
        | inl e ↦ as_public e (ground arith)
        | inr e ↦
            guarded e (Option-cases (trimmed req.x_api_key))
              (Option-cases (bearer_token req.authorization))
      ]
    where
      by_key :
          (raw_key : String)
          → (trimmed req.x_api_key ≡ some raw_key) ⊎ (bearer_token req.authorization ≡ some raw_key)
          → (authorize_api_key hash hash_token to_lower route.required_role req raw_key now s).1
            ≡ ok a
          → Granted route req now o s a
      by_key raw_key given g =
          let (k, valid, role, e) =
            authorize_api_key-granted route.required_role req raw_key now s a g in
          with_key raw_key k given valid role e

      by_token :
          (token : String)
          → bearer_token req.authorization ≡ some token
          → authorize_session hash hash_token to_lower route.required_role req token now o ≡ ok a
          → Granted route req now o s a
      by_token token given g =
          let (u, e, shown) =
            authorize_session-SessionGrant route.required_role req token now o a g in
          with_token token u given shown e

      guarded :
          (route.is_public || route.skip_api_key) ≡ false
          → (trimmed req.x_api_key ≡ none) ⊎ ((x : String) × (trimmed req.x_api_key ≡ some x))
          → (bearer_token req.authorization ≡ none)
            ⊎ ((x : String) × (bearer_token req.authorization ≡ some x))
          → Granted route req now o s a
      guarded e (inr (x, given)) t = by_key x (inl given) (ground arith)
      guarded e (inl n) (inl t) = absurd (ground arith)
      guarded e (inl n) (inr (token, t)) = elim (Bool-cases (starts_with token "owa_")) [
        | inl key ↦ by_key token (inr t) (ground arith)
        | inr other ↦ by_token token t (ground arith)
      ]
