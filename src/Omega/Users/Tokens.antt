-- ===== src/Omega/Users/Tokens.antt =====
-- Session tokens: what a login hands out is good until it expires or is logged out.
use wp_open_aurora.Prelude.{
  ℕ, ◌+◌, ◌*◌, ◌≤◌, String, not, none, some, List, [], ◌∷◌, ◌++◌, ◌==◌, eq_iff, eq_refl, ◌≡◌, ◌↔◌,
  refl, arith, filter, if◌then◌else◌,
}
use wp_open_aurora.Prelude.Results.{ok, err}
use wp_open_aurora.Omega.Users.{
  OmegaUser, OmegaAuthSession, OmegaState, session_expired, active, find_user, find_session,
  save_user, validate_session_token, logout, login,
}

find_user-save_user :
    (id : String) (u : OmegaUser) (us : List OmegaUser)
    → find_user id (save_user u us) ≡ (if u.id == id then some u else find_user id us)
unfolding save_user
find_user-save_user id u [] = refl
find_user-save_user id u (row ∷ rows) =
    ground
      (arith, eq_iff row.id u.id, eq_iff u.id id, eq_iff row.id id, find_user-save_user id u rows)

find_session-append_new :
    (h : String) (xs : List OmegaAuthSession) (x : OmegaAuthSession)
    → find_session h xs ≡ none
    → x.token_hash ≡ h
    → find_session h (xs ++ x ∷ []) ≡ some x
find_session-append_new h [] x n e = ground (arith, eq_iff x.token_hash h)
find_session-append_new h (y ∷ ys) x n e = ground (arith, find_session-append_new h ys x)

find_session-filter :
    (h : String) (xs : List OmegaAuthSession)
    → find_session h (filter (λ x. not (x.token_hash == h)) xs) ≡ none
find_session-filter h [] = refl
find_session-filter h (x ∷ xs) = ground (arith, find_session-filter h xs)

-- A token that was logged out is refused at any time.
pub logout-validate_session_token :
    (hash_token : String → String) (token : String) (now : ℕ) (s : OmegaState)
    → validate_session_token hash_token token now (logout hash_token token s) ≡ err session_expired
unfolding validate_session_token logout
logout-validate_session_token hash_token token now s =
    ground (arith, find_session-filter (hash_token token) s.sessions)

-- A token is accepted exactly when a session has its hash, has not expired, and belongs to an
-- account that is there and active; the answer is that account.
pub validate_session_token_iff :
    (hash_token : String → String) (token : String) (now : ℕ) (s : OmegaState) (user : OmegaUser)
    (session : OmegaAuthSession)
    → (validate_session_token hash_token token now s ≡ ok (user, session)) ↔ (
        (find_session (hash_token token) s.sessions ≡ some session)
        × (now ≤ session.expires_at)
        × (find_user session.user_id s.users ≡ some user)
        × (user.status ≡ active))
unfolding validate_session_token
validate_session_token_iff hash_token token now s user session =
    (λ h. ground arith, λ h. ground arith)

-- The token of a successful login is accepted until it expires, and stands for the account that
-- logged in, if no session had its hash before.
pub login-validate_session_token :
    (scrypt : String → String → List ℕ) (to_hex : List ℕ → String) (from_hex : String → List ℕ)
    (hash_token to_lower : String → String) (email password token answer : String)
    (ttl_hours now later : ℕ) (s s' : OmegaState) (user : OmegaUser) (expires_at : ℕ)
    → find_session (hash_token token) s.sessions ≡ none
    → login scrypt to_hex from_hex hash_token to_lower email password token ttl_hours now s
      ≡ (s', ok (answer, user, expires_at))
    → later ≤ expires_at
    → (answer ≡ token)
      × (expires_at ≡ now + ttl_hours * 3600000)
      × (session : OmegaAuthSession) × (validate_session_token hash_token answer later s'
          ≡ ok (user, session))
unfolding login
login-validate_session_token scrypt to_hex from_hex hash_token to_lower email password token answer
      ttl_hours now later s s' user expires_at fresh h l =
    let session : OmegaAuthSession = record {
      user_id = user.id;
      token_hash = hash_token token;
      expires_at = expires_at;
    } in
    let stored = find_session-append_new (hash_token token) s.sessions session fresh refl in
    let saved = find_user-save_user user.id user s.users in
    (
      ground arith,
      ground arith,
      session,
      (validate_session_token_iff hash_token answer later s' user session).1
          (ground (arith, stored), l, ground (arith, saved, eq_refl user.id), ground arith),
    )
