-- ===== src/Events/Allowed.antt =====
-- A client hears of a session only if its key was allowed to when the client asked.
use mathlib.Core.Path.{subst}
use wp_open_aurora.Prelude.{
  ℕ, ◌≤◌, String, true, false, Option, none, some, List, [], ◌∷◌, ◌≡◌, ◌⊎◌, refl, sym, ◌∙◌, arith,
  inl, inr, includes, All, Bool-cases, Option-cases,
}
use wp_open_aurora.Prelude.Text.{contains}
use wp_open_aurora.Auth.Keys.{ApiKey, AuthState}
use wp_open_aurora.Events.{
  Client, build_room_name, subscribable_events, is_session_subscription_allowed, subscriber_key,
  handle_connection, emit_to_rooms,
}
use wp_open_aurora.Events.Rooms.{build_room_name_eq}
use wp_open_aurora.Events.Asked.{
  Step, Elem, includes-All, is_event_plain, allowed_all, run, MayHear, RoomAsked, IsAsked,
  nothing-IsAsked, run-IsAsked,
}

module _ (hash : String → String) (steps : List Step) (raw : Option String) where
  -- A room of an event leads back to a request for its session, or for all sessions.
  room-MayHear :
      (c : Client) (session_id room_session event : String)
      → contains b':' event ≡ false
      → IsAsked hash steps raw c
      → includes (build_room_name room_session event) c.rooms ≡ true
      → (room_session ≡ session_id) ⊎ (room_session ≡ "*")
      → MayHear hash steps raw session_id
  room-MayHear c session_id room_session event plain i member which =
      let (s, e, same, plain', a) =
        includes-All (RoomAsked hash steps raw) (build_room_name room_session event) c.rooms member
          i.asked in
      let at = (build_room_name_eq room_session s event e plain plain' same).0 in
      let (step, events, k, here, m, valid, allowed) = a in
      elim which [
        | inl w ↦ (
          s,
          inl (sym at ∙ w),
          step,
          events,
          k,
          here,
          m,
          valid,
          subst (λ x. is_session_subscription_allowed k.allowed_sessions x ≡ true) (sym at ∙ w)
              allowed,
        )
        | inr w ↦ (
          s,
          inr (sym at ∙ w),
          step,
          events,
          k,
          here,
          m,
          valid,
          allowed_all k.allowed_sessions session_id (
              subst (λ x. is_session_subscription_allowed k.allowed_sessions x ≡ true) (sym at ∙ w)
                allowed),
        )
      ]

  emit_to_rooms-MayHear :
      (c : Client) (session_id event : String)
      → contains b':' event ≡ false
      → IsAsked hash steps raw c
      → 1 ≤ emit_to_rooms session_id event c
      → MayHear hash steps raw session_id
  unfolding emit_to_rooms contains
  emit_to_rooms-MayHear c session_id event plain i heard =
      elim (Bool-cases (includes (build_room_name session_id event) c.rooms)) [
        | inl a ↦ room-MayHear c session_id session_id event plain i a (inl refl)
        | inr a ↦ elim (Bool-cases (includes (build_room_name session_id "*") c.rooms)) [
          | inl b ↦ room-MayHear c session_id session_id "*" refl i b (inl refl)
          | inr b ↦ elim (Bool-cases (includes (build_room_name "*" event) c.rooms)) [
            | inl d ↦ room-MayHear c session_id "*" event plain i d (inr refl)
            | inr d ↦ room-MayHear c session_id "*" "*" refl i (ground (arith, a, b, d)) (inr refl)
          ]
        ]
      ]

-- Every step of a sequence is one of it.
All-Elem :
    (more steps : List Step)
    → ((s : Step) → Elem s more → Elem s steps)
    → All (λ s. Elem s steps) more
All-Elem [] steps f = tt
All-Elem (s ∷ more) steps f = (f s (inl refl), All-Elem more steps (λ x h. f x (inr h)))

-- A socket without a valid key has none.
connected_as :
    (hash : String → String) (raw : Option String) (now : ℕ) (keys : AuthState)
    → (((handle_connection hash raw now keys).1.raw_api_key ≡ raw)
        × ((handle_connection hash raw now keys).1.rooms ≡ []))
      ⊎ (((handle_connection hash raw now keys).1.raw_api_key ≡ none)
          × ((handle_connection hash raw now keys).1.rooms ≡ []))
unfolding handle_connection
connected_as hash raw now keys = elim (Option-cases ((subscriber_key hash raw now keys).1)) [
  | inl e ↦ inr (rw (handle_connection, e) refl, rw (handle_connection, e) refl)
  | inr (k, e) ↦ inl (rw (handle_connection, e) refl, rw (handle_connection, e) refl)
]

no_key :
    (hash : String → String) (now : ℕ) (keys : AuthState) (k : ApiKey)
    → ¬ ((subscriber_key hash none now keys).1 ≡ some k)
unfolding subscriber_key
no_key hash now keys k h = cc

-- If an event of a session reaches a client that has connected and sent any messages, with the keys as
-- they were at each, then one of the messages asked for the session or for all sessions, the key of the
-- client was valid at that moment, and it is allowed for this session.
pub emit_to_rooms_allowed :
    (hash : String → String) (raw : Option String) (now : ℕ) (keys : AuthState) (steps : List Step)
    (session_id event : String)
    → includes event subscribable_events ≡ true
    → 1 ≤ emit_to_rooms session_id event (run hash steps (handle_connection hash raw now keys).1)
    → MayHear hash steps raw session_id
emit_to_rooms_allowed hash raw now keys steps session_id event known heard =
    elim (connected_as hash raw now keys) [
      | inl e ↦
          emit_to_rooms-MayHear hash steps raw _ session_id event plain
            (run-IsAsked hash steps raw steps _ every (nothing-IsAsked hash steps raw _ e.0 e.1))
            heard
      | inr e ↦
          let (wanted, w, step, events, k, here, m, valid, allowed) =
            emit_to_rooms-MayHear hash steps none _ session_id event plain
              (run-IsAsked hash steps none steps _ every
                (nothing-IsAsked hash steps none _ e.0 e.1))
              heard in
          absurd (no_key hash step.now step.keys k valid)
    ]
  where
    plain : contains b':' event ≡ false
    plain = is_event_plain event (ground (arith, known))

    every : All (λ s. Elem s steps) steps
    every = All-Elem steps steps (λ s h. h)
