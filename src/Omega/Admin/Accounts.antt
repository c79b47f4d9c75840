-- ===== src/Omega/Admin/Accounts.antt =====
-- The users of the panel: which roles an actor may give, and whom it may manage.
use wp_open_aurora.Prelude.{
  String, Bool, true, not, ◌||◌, Option, none, some, ◌==◌, if◌then◌else◌, or_default, find,
}
use wp_open_aurora.Prelude.Results.{Result, ok, err, ◌>>=◌, ◌>>◌, throw_if, or_throw}
use wp_open_aurora.Omega.Users.{
  OmegaUserRole, super_admin, support_admin, client_admin, client_agent, OmegaUserStatus, active,
  OmegaUser, find_user, save_user,
}
use wp_open_aurora.Omega.Admin.{
  AdminState, AdminError, user_not_found, team_not_found, other_workspace, role_refused,
  user_refused, workspace_required, team_elsewhere, same_role, same_id, truthy, is_sub_admin,
  get_client_entity,
}

abbrev is_client_role : OmegaUserRole → Bool
is_client_role r = same_role r client_admin || same_role r client_agent

unfoldable pub assert_user_role_assignment :
    OmegaUser → OmegaUserRole → Result AdminError (Unit {0})
assert_user_role_assignment actor target_role = elim actor.role [
  | super_admin ↦ ok tt
  | support_admin ↦ throw_if (same_role target_role super_admin) role_refused
  | client_admin ↦ throw_if (not (is_client_role target_role)) role_refused
  | client_agent ↦ err role_refused
]

unfoldable pub assert_manageable_user : OmegaUser → OmegaUser → Result AdminError (Unit {0})
assert_manageable_user actor target = elim actor.role [
  | super_admin ↦ ok tt
  | support_admin ↦ throw_if (same_role target.role super_admin) user_refused
  | client_admin ↦
      throw_if (not (same_id target.client_id actor.client_id)) other_workspace
      >> throw_if (not (is_client_role target.role)) user_refused
  | client_agent ↦ err user_refused
]

unfoldable pub resolve_team_assignment :
    Option String → Option String → OmegaUser → AdminState → Result AdminError (Option String)
unfolding get_client_entity
resolve_team_assignment team_id client_id actor s = elim (truthy team_id) [
  | none ↦ ok none
  | some id ↦ do
    workspace ← or_throw (truthy client_id) workspace_required
    team ← or_throw (find (λ t. t.id == id) s.teams) team_not_found
    throw_if (not (team.client_id == workspace)) team_elsewhere
    client ← get_client_entity team.client_id actor s
    ok (some team.id)
]

-- `undefined` is `none`; a null client or team is `some none`.
pub record CreateUser : Type 0 where
  pub full_name : String
  pub email : String
  pub password : String
  pub role : OmegaUserRole
  pub client_id : Option String
  pub team_id : Option String
  pub is_on_duty : Option Bool

pub record UpdateUser : Type 0 where
  pub full_name : Option String
  pub email : Option String
  pub password : Option String
  pub role : Option OmegaUserRole
  pub status : Option OmegaUserStatus
  pub client_id : Option (Option String)
  pub team_id : Option (Option String)
  pub is_on_duty : Option Bool

-- A client that is named is there, and the actor may reach it.
unfoldable pub check_client : Option String → OmegaUser → AdminState → Result AdminError (Unit {0})
unfolding get_client_entity
check_client client_id actor s = elim (truthy client_id) [
  | none ↦ ok tt
  | some id ↦ get_client_entity id actor s >>= λ c. ok tt
]

-- A new role, if one is given, is one that the actor may assign.
abbrev pub check_role : OmegaUser → Option OmegaUserRole → Result AdminError (Unit {0})
check_role actor none = ok tt
check_role actor (some r) = assert_user_role_assignment actor r

module _ (hash_password : String → String) (to_lower : String → String) where
  abbrev pub created : String → CreateUser → Option String → Option String → OmegaUser
  created new_id dto client_id team_id = record {
    id = new_id;
    full_name = dto.full_name;
    email = to_lower dto.email;
    password_hash = hash_password dto.password;
    client_id = client_id;
    team_id = team_id;
    role = dto.role;
    status = active;
    is_on_duty = or_default dto.is_on_duty true;
    must_change_password = true;
    last_login_at = none;
  }

  unfoldable pub create_user :
      String → CreateUser → OmegaUser → AdminState → Result AdminError AdminState
  unfolding assert_user_role_assignment check_client resolve_team_assignment
  create_user new_id dto actor s = do
    assert_user_role_assignment actor dto.role
    let client_id = if is_sub_admin actor then actor.client_id else dto.client_id
    check_client client_id actor s
    team_id ← resolve_team_assignment dto.team_id client_id actor s
    ok (record s { users = save_user (created new_id dto client_id team_id) s.users })

  abbrev pub updated : UpdateUser → Option String → Option String → OmegaUser → OmegaUser
  updated dto client_id team_id user = record user {
    full_name = or_default dto.full_name user.full_name;
    email = elim (truthy dto.email) [ none ↦ user.email | some e ↦ to_lower e ];
    role = or_default dto.role user.role;
    status = or_default dto.status user.status;
    client_id = client_id;
    team_id = team_id;
    is_on_duty = or_default dto.is_on_duty user.is_on_duty;
    password_hash = elim (truthy dto.password) [
      | none ↦ user.password_hash
      | some p ↦ hash_password p
    ];
  }

  unfoldable pub update_user :
      String → UpdateUser → OmegaUser → AdminState → Result AdminError AdminState
  unfolding assert_user_role_assignment assert_manageable_user check_client resolve_team_assignment
  update_user id dto actor s = do
    user ← or_throw (find_user id s.users) user_not_found
    assert_manageable_user actor user
    check_role actor dto.role
    let client_id =
        if is_sub_admin actor then actor.client_id else or_default dto.client_id user.client_id
    check_client client_id actor s
    team_id ← resolve_team_assignment (or_default dto.team_id user.team_id) client_id actor s
    ok (record s { users = save_user (updated dto client_id team_id user) s.users })
