-- ===== src/Omega/Guard/Roles.antt =====
-- What a request to the panel's routes has shown.
use wp_open_aurora.Prelude.{
  ℕ, String, true, none, some, List, ◌∷◌, any, ◌≡◌, ◌↔◌, ◌⊎◌, inl, inr, refl, arith, Option-cases,
}
use wp_open_aurora.Prelude.Results.{Result, ok, err, Result-cases}
use wp_open_aurora.Omega.Users.{
  OmegaUser, OmegaUserRole, active, OmegaState, validate_session_token,
  assert_password_change_satisfied,
}
use wp_open_aurora.Omega.Users.Tokens.{validate_session_token_iff}
use wp_open_aurora.Auth.Keys.{ApiKey, admin, AuthState, AuthError, has_permission, validate_api_key}
use wp_open_aurora.Auth.Guard.{trimmed, bearer_token}
use wp_open_aurora.Omega.Guard.{
  PanelRequest, user_of_key, answer_key, authenticate, same_role, check_roles,
}

answer_key_ok :
    (r : Result AuthError ApiKey) (u : OmegaUser)
    → answer_key r ≡ ok u
    → (k : ApiKey) × (r ≡ ok k) × (has_permission k.role admin ≡ true) × (u ≡ user_of_key k)
answer_key_ok (ok k) u h = (k, refl, ground arith, ground arith)
answer_key_ok (err e) u h = absurd (ground arith)

module _ (hash hash_token to_upper : String → String) where
  -- A request is authenticated only as the active account of a good token that has no password
  -- change to make on this route, or, with no token, by an API key of an administrator, and then as
  -- a super administrator.
  pub authenticate_sound :
      (req : PanelRequest) (now : ℕ) (o : OmegaState) (s : AuthState) (u : OmegaUser)
      → (authenticate hash hash_token to_upper req now o s).1 ≡ ok u
      → ((token : String) × (bearer_token req.authorization ≡ some token)
          × (u.status ≡ active)
          × (assert_password_change_satisfied to_upper u req.path req.method ≡ ok tt))
        ⊎ ((bearer_token req.authorization ≡ none)
            × ((key : String) × (k : ApiKey) × (trimmed req.x_api_key ≡ some key)
                × ((validate_api_key hash key (some req.client_ip) none now s).1 ≡ ok k)
                × (has_permission k.role admin ≡ true)
                × (u ≡ user_of_key k)))
  unfolding authenticate
  authenticate_sound req now o s u h = elim (Option-cases (bearer_token req.authorization)) [
    | inr (token, t) ↦ elim (Result-cases (validate_session_token hash_token token now o)) [
      | inr (e, r) ↦ absurd (ground arith)
      | inl ((v, session), r) ↦
          let good = (validate_session_token_iff hash_token token now o v session).0 r in
          let same : v ≡ u = ground arith in inl (token, t, ground (arith, good.3), ground arith)
    ]
    | inl n ↦ elim (Option-cases (trimmed req.x_api_key)) [
      | inl none_given ↦ absurd (ground arith)
      | inr (key, given) ↦
          let (k, valid, role, e) =
            answer_key_ok (validate_api_key hash key (some req.client_ip) none now s).1 u
              (ground arith) in
          inr (n, (key, k, given, valid, role, e))
    ]
  ]

-- A route that names roles is open exactly to the accounts with one of these roles.
pub check_roles_iff :
    (r : OmegaUserRole) (rs : List OmegaUserRole) (u : OmegaUser)
    → (check_roles (r ∷ rs) (some u) ≡ ok tt) ↔ (any (λ x. same_role u.role x) (r ∷ rs) ≡ true)
unfolding check_roles
check_roles_iff r rs u = (λ h. ground arith, λ h. ground arith)
