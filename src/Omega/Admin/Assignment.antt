-- ===== src/Omega/Admin/Assignment.antt =====
-- The sessions of a client: their limit, and who may move them.
use wp_open_aurora.Prelude.{
  ℕ, ◌+◌, ◌≤◌, max, String, Bool, true, false, not, ◌&&◌, ◌||◌, some, List, [], ◌∷◌, ◌==◌, eq_iff,
  eq_refl, ◌≡◌, ap, ◌∙◌, arith, if◌then◌else◌, find-holds, length, leb, is_empty, inl, inr,
  Option-cases, Bool-cases,
}
use wp_open_aurora.Prelude.Results.{Result, ok, err, Result-cases}
use wp_open_aurora.Omega.Users.{super_admin, OmegaUser}
use wp_open_aurora.Omega.Admin.{
  AdminState, AdminError, OmegaClient, OmegaWhatsappSession, same_id, same_role, is_sub_admin,
  find_session, save_session, sessions_of, check_limit, assign_session, get_client_entity,
}

abbrev belongs : String → OmegaWhatsappSession → Bool
belongs c x = same_id x.client_id (some c)

abbrev one_if : Bool → ℕ
one_if b = if b then 1 else 0

length-save_session :
    (c : String) (x old : OmegaWhatsappSession) (rows : List OmegaWhatsappSession)
    → find_session x.id rows ≡ some old
    → length (sessions_of c (save_session x rows)) + one_if (belongs c old)
      ≡ length (sessions_of c rows) + one_if (belongs c x)
unfolding save_session
length-save_session c x old [] h = ground (arith, h)
length-save_session c x old (row ∷ rows) h = elim (Bool-cases (row.id == x.id)) [
  | inl e ↦
      let same : row ≡ old = ground (arith, e, h) in
      let own = ap (λ r. one_if (belongs c r)) same in ground (arith, e, own)
  | inr e ↦ ground (arith, e, h, length-save_session c x old rows)
]

find_session-id :
    (id : String) (rows : List OmegaWhatsappSession) (x : OmegaWhatsappSession)
    → find_session id rows ≡ some x
    → find_session x.id rows ≡ some x
find_session-id id rows x h =
    ap (λ i. find_session i rows) ((eq_iff x.id id).0 (find-holds (λ r. r.id == id) rows {a = x} h))
    ∙ h

abbrev pub moved : String → OmegaWhatsappSession → OmegaWhatsappSession
moved c x = record x {
  client_id = some c;
  assigned_to_client = true;
  replacement_requested = false;
}

within_limit :
    (session : OmegaWhatsappSession) (client : OmegaClient) (actor : OmegaUser) (s : AdminState)
    (override_limit : Bool)
    → (override_limit && same_role actor.role super_admin) ≡ false
    → check_limit session client override_limit actor s ≡ ok tt
    → (belongs client.id session
        || not (leb client.whatsapp_account_limit (length (sessions_of client.id s.sessions))))
      ≡ true
unfolding check_limit
within_limit session client actor s override_limit h k = ground (arith, h, k)

-- The sessions of the client afterwards are at most as many as its limit, or as it had.
abbrev pub IsWithin : OmegaClient → AdminState → Result AdminError AdminState → Type 0
IsWithin client s (ok s') =
    length (sessions_of client.id s'.sessions)
    ≤ max client.whatsapp_account_limit (length (sessions_of client.id s.sessions))
IsWithin client s (err e) = Unit

move_within :
    (session : OmegaWhatsappSession) (client : OmegaClient) (s : AdminState)
    → find_session session.id s.sessions ≡ some session
    → (belongs client.id session
        || not (leb client.whatsapp_account_limit (length (sessions_of client.id s.sessions))))
      ≡ true
    → length (sessions_of client.id (save_session (moved client.id session) s.sessions))
      ≤ max client.whatsapp_account_limit (length (sessions_of client.id s.sessions))
move_within session client s f h = ground (
  arith,
  h,
  eq_refl client.id,
  length-save_session client.id (moved client.id session) session s.sessions f,
)

-- An assignment without a super admin's override leaves the client with no more sessions than its
-- limit allows, or than it had before.
pub assign_session-IsWithin :
    (id c : String) (override_limit : Bool) (actor : OmegaUser) (client : OmegaClient)
    (s : AdminState)
    → get_client_entity c actor s ≡ ok client
    → (override_limit && same_role actor.role super_admin) ≡ false
    → IsWithin client s (assign_session id (some c) override_limit actor s)
unfolding assign_session
assign_session-IsWithin id c override_limit actor client s g h =
    elim (Option-cases (find_session id s.sessions)) [
      | inl e ↦ ground (arith, e)
      | inr (session, e) ↦ elim (Bool-cases (is_empty c)) [
        | inl k ↦ ground (arith, e, k)
        | inr k ↦
            elim (Bool-cases
              (is_sub_admin actor && not (same_id actor.client_id (some client.id)))) [
                | inl m ↦ ground (arith, e, k, g, m)
                | inr m ↦ elim (Result-cases (check_limit session client override_limit actor s)) [
                  | inr (x, l) ↦ ground (arith, e, k, g, m, l)
                  | inl (u, l) ↦ ground (
                    arith,
                    e,
                    k,
                    g,
                    m,
                    l,
                    move_within session client s (find_session-id id s.sessions session e)
                        (within_limit session client actor s override_limit h l),
                  )
                ]
              ]
      ]
    ]

-- There is room for the session: the client has it already, or is below its limit.
abbrev pub has_room : OmegaClient → OmegaWhatsappSession → AdminState → Bool
has_room client x s =
    belongs client.id x
    || not (leb client.whatsapp_account_limit (length (sessions_of client.id s.sessions)))
