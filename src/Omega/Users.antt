-- ===== src/Omega/Users.antt =====
-- src/modules/omega/omega-auth.service.ts: logins, session tokens, passwords and the forced change
-- of a default password. Tables are lists of rows and a call is one step. The digests, the hex
-- coding, the case mapping, the clock and the random bytes are parameters.
pub mod Tokens
pub mod Passwords
use Prim.Native.String
use wp_open_aurora.Prelude.{
  ℕ, ◌+◌, ◌*◌, String, Bool, true, false, not, ◌&&◌, ◌||◌, Option, none, some, List, [], ◌∷◌, ◌++◌,
  ◌==◌, eqb, ltb, if◌then◌else◌, or_default, is_empty, find, filter,
}
use wp_open_aurora.Prelude.Results.{Result, ok, err, ◌>>=◌, ◌>>◌, throw_if, or_throw}
use wp_open_aurora.Prelude.Text.{split, part, strip_prefix}

pub data OmegaUserRole : Type 0 where
  super_admin support_admin client_admin client_agent : OmegaUserRole

pub data OmegaUserStatus : Type 0 where
  active inactive : OmegaUserStatus

pub record OmegaUser : Type 0 where
  pub id : String
  pub full_name : String
  pub email : String
  pub password_hash : String
  pub client_id : Option String
  pub team_id : Option String
  pub role : OmegaUserRole
  pub status : OmegaUserStatus
  pub is_on_duty : Bool
  pub must_change_password : Bool
  pub last_login_at : Option ℕ

pub record OmegaAuthSession : Type 0 where
  pub user_id : String
  pub token_hash : String
  pub expires_at : ℕ

pub record OmegaState : Type 0 where
  pub users : List OmegaUser
  pub sessions : List OmegaAuthSession

pub data OmegaError : Type 0 where
  invalid_credentials user_inactive session_expired user_unavailable : OmegaError
  password_change_required : OmegaError

abbrev pub is_active : OmegaUser → Bool
is_active u = elim u.status [ active ↦ true | inactive ↦ false ]

abbrev pub find_user : String → List OmegaUser → Option OmegaUser
find_user id = find (λ u. u.id == id)

abbrev pub find_session : String → List OmegaAuthSession → Option OmegaAuthSession
find_session h = find (λ x. x.token_hash == h)

unfoldable pub save_user : OmegaUser → List OmegaUser → List OmegaUser
save_user u [] = u ∷ []
save_user u (row ∷ rows) = if row.id == u.id then u ∷ rows else row ∷ save_user u rows

pub record ProfileUpdates : Type 0 where
  pub full_name : Option String
  pub password : Option String
  pub is_on_duty : Option Bool

-- `hash_token` is SHA-256 in hexadecimal, and `scrypt` the derived key of a password and a salt.
module _ (hash_token : String → String) where
  unfoldable pub validate_session_token :
      String → ℕ → OmegaState → Result OmegaError (OmegaUser × OmegaAuthSession)
  validate_session_token token now s = do
    session ← or_throw (find_session (hash_token token) s.sessions) session_expired
    throw_if (ltb session.expires_at now) session_expired
    user ← or_throw (find_user session.user_id s.users) user_unavailable
    throw_if (not (is_active user)) user_unavailable
    ok (user, session)

  unfoldable pub logout : String → OmegaState → OmegaState
  logout token s = record s {
    sessions = filter (λ x. not (x.token_hash == hash_token token)) s.sessions;
  }

-- `stored.length === candidate.length && timingSafeEqual(stored, candidate)`
same_bytes : List ℕ → List ℕ → Bool
same_bytes [] [] = true
same_bytes (x ∷ xs) (y ∷ ys) = eqb x y && same_bytes xs ys
same_bytes _ _ = false

module _ (scrypt : String → String → List ℕ) (to_hex : List ℕ → String)
    (from_hex : String → List ℕ) where
  -- `salt` is the hexadecimal text of sixteen random bytes.
  unfoldable pub hash_password : String → String → String
  hash_password salt password = String.◌++◌ salt (String.◌++◌ ":" (to_hex (scrypt password salt)))

  unfoldable pub verify_password : String → String → Bool
  unfolding same_bytes
  verify_password password stored_hash =
      let parts = split b':' stored_hash in
      let salt = part parts 0 in
      let hash = part parts 1 in
      if is_empty salt || is_empty hash
      then false
      else same_bytes (from_hex hash) (scrypt password salt)

  module _ (hash_token : String → String) (to_lower : String → String) where
    unfoldable pub login :
        String
        → String
        → String
        → ℕ
        → ℕ
        → OmegaState
        → OmegaState × Result OmegaError (String × OmegaUser × ℕ)
    login email password token ttl_hours now s =
        elim (find (λ u. u.email == to_lower email) s.users) [
          | none ↦ (s, err invalid_credentials)
          | some user ↦
              if not (verify_password password user.password_hash)
              then (s, err invalid_credentials)
              else if not (is_active user)
              then (s, err user_inactive)
              else let expires_at = now + ttl_hours * 60 * 60 * 1000 in
                let session : OmegaAuthSession = record {
                  user_id = user.id;
                  token_hash = hash_token token;
                  expires_at = expires_at;
                } in
                let user' = record user { last_login_at = some now } in
                (
                  record { users = save_user user' s.users; sessions = s.sessions ++ session ∷ [] },
                  ok (token, user', expires_at),
                )
        ]

  -- The default accounts of `onModuleInit`: created once, and told to change a default password.
  unfoldable pub ensure_default_user :
      (String → String)
      → String
      → String
      → String
      → String
      → String
      → OmegaUserRole
      → OmegaState
      → OmegaState
  ensure_default_user to_lower id salt full_name email password role s =
      elim (find (λ u. u.email == to_lower email) s.users) [
        | some existing ↦
            if not existing.must_change_password && verify_password password existing.password_hash
            then record s {
              users = save_user (record existing { must_change_password = true }) s.users;
            }
            else s
        | none ↦
            let user : OmegaUser = record {
              id = id;
              full_name = full_name;
              email = to_lower email;
              password_hash = hash_password salt password;
              client_id = none;
              team_id = none;
              role = role;
              status = active;
              is_on_duty = true;
              must_change_password = true;
              last_login_at = none;
            } in
            record s { users = save_user user s.users }
      ]

  -- An empty password is no change.
  abbrev new_password : String → Option String → OmegaUser → OmegaUser
  new_password salt none user = user
  new_password salt (some password) user =
      if is_empty password
      then user
      else record user { password_hash = hash_password salt password; must_change_password = false }

  unfoldable pub update_profile :
      String → String → ProfileUpdates → OmegaState → Result OmegaError (OmegaState × OmegaUser)
  update_profile salt user_id updates s = do
    user ← or_throw (find_user user_id s.users) user_unavailable
    let named = record user { full_name = or_default updates.full_name user.full_name }
    let rekeyed = new_password salt updates.password named
    let user' = record rekeyed { is_on_duty = or_default updates.is_on_duty rekeyed.is_on_duty }
    ok (record s { users = save_user user' s.users }, user')

abbrev pub without_api : String → String
without_api path = elim (strip_prefix "/api" path) [ none ↦ path | some rest ↦ rest ]

-- `assertPasswordChangeSatisfied`
unfoldable pub assert_password_change_satisfied :
    (String → String) → OmegaUser → String → String → Result OmegaError (Unit {0})
assert_password_change_satisfied to_upper user request_path method =
    let path = without_api (part (split b'?' request_path) 0) in
    let verb = to_upper method in
    if not user.must_change_password
    then ok tt
    else if path == "/omega/auth/me" && verb == "PATCH"
        || path == "/omega/auth/me" && verb == "GET"
        || path == "/omega/auth/logout" && verb == "POST"
    then ok tt
    else err password_change_required
