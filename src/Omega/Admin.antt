-- ===== src/Omega/Admin.antt =====
-- src/modules/omega/omega-admin.service.ts: who may manage which users and sessions of the panel.
-- Tables are lists of rows; a call is one step. The hash of a password, the case mapping and new ids
-- are parameters. An actor is always given, as by the controllers.
pub mod Accounts
pub mod Escalation
pub mod Assignment
use wp_open_aurora.Prelude.{
  ℕ, ◌+◌, String, Bool, true, false, not, ◌&&◌, ◌||◌, Option, none, some, List, [], ◌∷◌, ◌==◌, leb,
  if◌then◌else◌, or_default, is_empty, is_some, find, filter, length, any,
}
use wp_open_aurora.Prelude.Results.{Result, ok, err, ◌>>=◌, ◌>>◌, throw_if, or_throw}
use wp_open_aurora.Omega.Users.{
  OmegaUserRole, super_admin, support_admin, client_admin, client_agent, OmegaUserStatus, active,
  OmegaUser, find_user, save_user,
}

pub record OmegaClient : Type 0 where
  pub id : String
  pub company_name : String
  pub monthly_message_limit : ℕ
  pub whatsapp_account_limit : ℕ

pub record OmegaWhatsappSession : Type 0 where
  pub id : String
  pub openwa_session_id : String
  pub client_id : Option String
  pub assigned_to_client : Bool
  pub replacement_requested : Bool

pub record OmegaTeam : Type 0 where
  pub id : String
  pub client_id : String

pub record AdminState : Type 0 where
  pub clients : List OmegaClient
  pub sessions : List OmegaWhatsappSession
  pub teams : List OmegaTeam
  pub users : List OmegaUser

pub data AdminError : Type 0 where
  session_not_found client_not_found user_not_found team_not_found : AdminError
  client_id_required other_workspace override_refused limit_reached : AdminError
  role_refused user_refused workspace_required team_elsewhere no_access : AdminError

abbrev pub same_role : OmegaUserRole → OmegaUserRole → Bool
same_role super_admin super_admin = true
same_role support_admin support_admin = true
same_role client_admin client_admin = true
same_role client_agent client_agent = true
same_role a b = false

abbrev pub same_id : Option String → Option String → Bool
same_id none none = true
same_id (some a) (some b) = a == b
same_id a b = false

-- A value that is null, or an empty text, is falsy.
abbrev pub truthy : Option String → Option String
truthy none = none
truthy (some s) = if is_empty s then none else some s

abbrev pub is_sub_admin : OmegaUser → Bool
is_sub_admin u = same_role u.role client_admin

unfoldable pub get_client_entity : String → OmegaUser → AdminState → Result AdminError OmegaClient
get_client_entity id actor s = do
  client ← or_throw (find (λ c. c.id == id) s.clients) client_not_found
  throw_if (is_sub_admin actor && not (same_id actor.client_id (some client.id))) other_workspace
  ok client

unfoldable pub assert_session_access :
    OmegaWhatsappSession → OmegaUser → Result AdminError (Unit {0})
assert_session_access session actor =
    throw_if (is_sub_admin actor && not (same_id actor.client_id session.client_id)) other_workspace

unfoldable pub save_session :
    OmegaWhatsappSession → List OmegaWhatsappSession → List OmegaWhatsappSession
save_session x [] = x ∷ []
save_session x (row ∷ rows) = if row.id == x.id then x ∷ rows else row ∷ save_session x rows

abbrev pub find_session : String → List OmegaWhatsappSession → Option OmegaWhatsappSession
find_session id = find (λ x. x.id == id)

abbrev pub sessions_of : String → List OmegaWhatsappSession → List OmegaWhatsappSession
sessions_of client_id = filter (λ x. same_id x.client_id (some client_id))

-- The test of the limit in `assignSession`.
unfoldable pub check_limit :
    OmegaWhatsappSession
    → OmegaClient
    → Bool
    → OmegaUser
    → AdminState
    → Result AdminError (Unit {0})
check_limit session client override_limit actor s =
    if leb client.whatsapp_account_limit (length (sessions_of client.id s.sessions))
      && not (same_id session.client_id (some client.id))
    then (do
      throw_if (override_limit && not (same_role actor.role super_admin)) override_refused
      throw_if (not override_limit) limit_reached)
    else ok tt

unfoldable pub assign_session :
    String → Option String → Bool → OmegaUser → AdminState → Result AdminError AdminState
unfolding get_client_entity check_limit save_session
assign_session id client_id override_limit actor s = do
  session ← or_throw (find_session id s.sessions) session_not_found
  wanted ← or_throw (truthy client_id) client_id_required
  client ← get_client_entity wanted actor s
  throw_if (is_sub_admin actor && not (same_id actor.client_id (some client.id))) other_workspace
  check_limit session client override_limit actor s
  let session' = record session {
    client_id = some client.id;
    assigned_to_client = true;
    replacement_requested = false;
  }
  ok (record s { sessions = save_session session' s.sessions })

unfoldable pub unassign_session : String → OmegaUser → AdminState → Result AdminError AdminState
unfolding assert_session_access save_session
unassign_session id actor s = do
  session ← or_throw (find_session id s.sessions) session_not_found
  assert_session_access session actor
  let session' = record session { client_id = none; assigned_to_client = false }
  ok (record s { sessions = save_session session' s.sessions })

unfoldable pub update_replacement_flag :
    String → Bool → OmegaUser → AdminState → Result AdminError AdminState
unfolding assert_session_access save_session
update_replacement_flag id requested actor s = do
  session ← or_throw (find_session id s.sessions) session_not_found
  assert_session_access session actor
  ok (record s {
    sessions = save_session (record session { replacement_requested = requested }) s.sessions;
  })

unfoldable pub scope_clients_for_actor : List OmegaClient → OmegaUser → List OmegaClient
scope_clients_for_actor clients actor =
    if is_sub_admin actor
    then filter (λ c. same_id actor.client_id (some c.id)) clients
    else clients

unfoldable pub scope_users_for_actor : List OmegaUser → OmegaUser → List OmegaUser
scope_users_for_actor users actor = elim actor.role [
  | super_admin ↦ users
  | support_admin ↦ filter (λ u. not (same_role u.role super_admin)) users
  | client_admin ↦
      filter
        (λ u.
          same_id u.client_id actor.client_id
          && not (same_role u.role super_admin)
          && not (same_role u.role support_admin))
        users
  | client_agent ↦ []
]

unfoldable pub get_workspace_session_for_user :
    OmegaUser → String → AdminState → Result AdminError OmegaWhatsappSession
get_workspace_session_for_user user workspace_session_id s = do
  session ← or_throw (find_session workspace_session_id s.sessions) session_not_found
  throw_if
      (not (same_role user.role super_admin || same_role user.role support_admin)
        && (not (is_some (truthy user.client_id))
            || not (same_id session.client_id user.client_id)))
      no_access
  ok session
