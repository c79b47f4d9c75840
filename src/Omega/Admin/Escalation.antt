-- ===== src/Omega/Admin/Escalation.antt =====
-- Nobody but a super admin makes, changes or unmakes a super admin.
use wp_open_aurora.Prelude.{
  String, Bool, false, none, some, List, [], ◌∷◌, ◌==◌, eq_iff, ◌≡◌, ap, ◌∙◌, arith, if◌then◌else◌,
  or_default, find-holds, filter, inl, inr, Option-cases, Bool-cases,
}
use wp_open_aurora.Prelude.Results.{Result, ok, err, Result-cases}
use wp_open_aurora.Omega.Users.{OmegaUserRole, super_admin, OmegaUser, save_user, find_user}
use wp_open_aurora.Omega.Admin.{AdminState, AdminError, same_role, is_sub_admin}
use wp_open_aurora.Omega.Admin.Accounts.{
  CreateUser, UpdateUser, assert_user_role_assignment, assert_manageable_user, check_client,
  resolve_team_assignment, create_user, update_user, created, updated, check_role,
}

abbrev pub is_super : OmegaUser → Bool
is_super u = same_role u.role super_admin

-- The rows of the super admins, in their order.
abbrev pub super_admins : List OmegaUser → List OmegaUser
super_admins = filter (λ u. is_super u)

save_user-super_admins :
    (u old : OmegaUser) (rows : List OmegaUser)
    → find_user u.id rows ≡ some old
    → is_super old ≡ false
    → is_super u ≡ false
    → super_admins (save_user u rows) ≡ super_admins rows
unfolding save_user
save_user-super_admins u old [] f o n = ground (arith, f)
save_user-super_admins u old (row ∷ rows) f o n = elim (Bool-cases (row.id == u.id)) [
  | inl e ↦ let same : is_super row ≡ false = ground (arith, e, f, o) in ground (arith, e, n, same)
  | inr e ↦ ground (arith, e, f, save_user-super_admins u old rows, o, n)
]

save_user_new :
    (u : OmegaUser) (rows : List OmegaUser)
    → find_user u.id rows ≡ none
    → is_super u ≡ false
    → super_admins (save_user u rows) ≡ super_admins rows
unfolding save_user
save_user_new u [] f n = ground (arith, n)
save_user_new u (row ∷ rows) f n = ground (arith, f, n, save_user_new u rows)

role_assigned :
    (actor : OmegaUser) (r : OmegaUserRole)
    → is_super actor ≡ false
    → assert_user_role_assignment actor r ≡ ok tt
    → same_role r super_admin ≡ false
unfolding assert_user_role_assignment
role_assigned actor r n h = ground (arith, n, h)

target_managed :
    (actor target : OmegaUser)
    → is_super actor ≡ false
    → assert_manageable_user actor target ≡ ok tt
    → is_super target ≡ false
unfolding assert_manageable_user
target_managed actor target n h = ground (arith, n, h)

-- A call that succeeds keeps the rows of the super admins.
abbrev pub KeepsSuperAdmins : AdminState → Result AdminError AdminState → Type 0
KeepsSuperAdmins s (ok s') = super_admins s'.users ≡ super_admins s.users
KeepsSuperAdmins s (err e) = Unit

find_user-id :
    (id : String) (rows : List OmegaUser) (u : OmegaUser) → find_user id rows ≡ some u → u.id ≡ id
find_user-id id rows u h = (eq_iff u.id id).0 (find-holds (λ r. r.id == id) rows {a = u} h)

module _ (hash_password : String → String) (to_lower : String → String) (actor : OmegaUser)
    (s : AdminState) (n : is_super actor ≡ false) where
  -- A user who is created by an actor who is no super admin leaves the super admins as they are. The id
  -- is new.
  create_user-KeepsSuperAdmins :
      (new_id : String) (dto : CreateUser)
      → find_user new_id s.users ≡ none
      → KeepsSuperAdmins s (create_user hash_password to_lower new_id dto actor s)
  unfolding create_user
  create_user-KeepsSuperAdmins new_id dto f =
      let client_id = if is_sub_admin actor then actor.client_id else dto.client_id in
      elim (Result-cases (assert_user_role_assignment actor dto.role)) [
        | inr (x, e) ↦ ground (arith, e)
        | inl (u, e) ↦ elim (Result-cases (check_client client_id actor s)) [
          | inr (x, g) ↦ ground (arith, e, g)
          | inl (v, g) ↦
              elim (Result-cases (resolve_team_assignment dto.team_id client_id actor s)) [
                | inr (x, h) ↦ ground (arith, e, g, h)
                | inl (team, h) ↦ ground (
                  arith,
                  e,
                  g,
                  h,
                  save_user_new (created hash_password to_lower new_id dto client_id team) s.users f
                      (role_assigned actor dto.role n e),
                )
              ]
        ]
      ]

  role_updated :
      (dto : UpdateUser) (user : OmegaUser)
      → is_super user ≡ false
      → check_role actor dto.role ≡ ok tt
      → same_role (or_default dto.role user.role) super_admin ≡ false
  role_updated dto user k h = elim (Option-cases dto.role) [
    | inl e ↦ ground (arith, e, k)
    | inr (r, e) ↦ ground (arith, e, h, role_assigned actor r n)
  ]

  update_managed :
      (id : String) (dto : UpdateUser) (user : OmegaUser)
      → find_user id s.users ≡ some user
      → assert_manageable_user actor user ≡ ok tt
      → KeepsSuperAdmins s (update_user hash_password to_lower id dto actor s)
  unfolding update_user
  update_managed id dto user e f =
      let client_id =
        if is_sub_admin actor then actor.client_id else or_default dto.client_id user.client_id in
      let team_id = or_default dto.team_id user.team_id in
      let plain = target_managed actor user n f in
      let own : find_user user.id s.users ≡ some user =
        ap (λ i. find_user i s.users) (find_user-id id s.users user e) ∙ e in
      elim (Result-cases (check_role actor dto.role)) [
        | inr (x, r) ↦ ground (arith, e, f, r)
        | inl (w, r) ↦ elim (Result-cases (check_client client_id actor s)) [
          | inr (x, g) ↦ ground (arith, e, f, r, g)
          | inl (v, g) ↦ elim (Result-cases (resolve_team_assignment team_id client_id actor s)) [
            | inr (x, h) ↦ ground (arith, e, f, r, g, h)
            | inl (team, h) ↦ ground (
              arith,
              e,
              f,
              r,
              g,
              h,
              save_user-super_admins (updated hash_password to_lower dto client_id team user) user
                  s.users own plain (role_updated dto user plain r),
            )
          ]
        ]
      ]

  update_user-KeepsSuperAdmins :
      (id : String) (dto : UpdateUser)
      → KeepsSuperAdmins s (update_user hash_password to_lower id dto actor s)
  unfolding update_user
  update_user-KeepsSuperAdmins id dto = elim (Option-cases (find_user id s.users)) [
    | inl e ↦ ground (arith, e)
    | inr (user, e) ↦ elim (Result-cases (assert_manageable_user actor user)) [
      | inr (x, f) ↦ ground (arith, e, f)
      | inl (u, f) ↦ update_managed id dto user e f
    ]
  ]

pub data UserCall : Type 0 where
  creates : String → CreateUser → UserCall
  updates : String → UpdateUser → UserCall

module _ (hash_password : String → String) (to_lower : String → String) where
  abbrev pub manage_users : UserCall → OmegaUser → AdminState → Result AdminError AdminState
  manage_users (creates new_id dto) = create_user hash_password to_lower new_id dto
  manage_users (updates id dto) = update_user hash_password to_lower id dto

  -- The id of a new user is in no row; random ids are.
  abbrev pub IsFresh : UserCall → AdminState → Type 0
  IsFresh (creates new_id dto) s = find_user new_id s.users ≡ none
  IsFresh (updates id dto) s = Unit

  -- Whatever user a call creates or changes, if the actor is no super admin, the rows of the super
  -- admins stay exactly as they are: none is added, taken away or changed.
  pub manage_users-KeepsSuperAdmins :
      (call : UserCall) (actor : OmegaUser) (s : AdminState)
      → is_super actor ≡ false
      → IsFresh call s
      → KeepsSuperAdmins s (manage_users call actor s)
  manage_users-KeepsSuperAdmins (creates new_id dto) actor s n f =
      create_user-KeepsSuperAdmins hash_password to_lower actor s n new_id dto f
  manage_users-KeepsSuperAdmins (updates id dto) actor s n f =
      update_user-KeepsSuperAdmins hash_password to_lower actor s n id dto
