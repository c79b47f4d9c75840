-- ===== src/Events/Asked.antt =====
-- What the messages of a client leave in its rooms.
use mathlib.Core.Path.{subst}
use wp_open_aurora.Prelude.{
  ℕ, String, true, false, Option, none, some, List, [], ◌∷◌, ◌++◌, ◌≡◌, ◌⊎◌, refl, sym, ap, arith,
  inl, inr, filter, includes, All, All-append, All-filter, ◌==◌, eq_iff, is_empty, Bool-cases,
  Option-cases,
}
use wp_open_aurora.Prelude.Text.{contains}
use wp_open_aurora.Auth.Keys.{ApiKey, AuthState}
use wp_open_aurora.Events.{
  Client, ClientMessage, subscribe, unsubscribe, ping, unknown, build_room_name,
  subscribable_events, is_event, is_session_subscription_allowed, join_room, join_rooms,
  subscriber_key, subscribe_to, subscribe_with, subscribe_as, handle_subscribe, handle_unsubscribe,
  handle_message,
}

-- A message of the client with the time and the keys when it is handled.
pub record Step : Type 0 where
  pub message : ClientMessage
  pub now : ℕ
  pub keys : AuthState

abbrev pub Elem : {A : Type 0} → A → List A → Type 0
Elem x [] = ⊥
Elem x (y ∷ ys) = (x ≡ y) ⊎ Elem x ys

pub includes-All {ℓ} :
    (P : String → Type ℓ) (x : String) (xs : List String) → includes x xs ≡ true → All P xs → P x
includes-All P x [] h a = cc
includes-All P x (y ∷ ys) h (p, a) = elim (Bool-cases (y == x)) [
  | inl e ↦ subst P ((eq_iff y x).0 e) p
  | inr e ↦ includes-All P x ys (ground (arith, e)) a
]

pub is_event_plain : (e : String) → is_event e ≡ true → contains b':' e ≡ false
unfolding contains
is_event_plain e h = elim (Bool-cases (e == "*")) [
  | inl star ↦ ap (contains b':') ((eq_iff e "*").0 star)
  | inr other ↦
      includes-All (λ x. contains b':' x ≡ false) e subscribable_events (ground (arith, other))
        (
          refl,
          (
            refl,
            (
              refl,
              (refl, (refl, (refl, (refl, (refl, (refl, (refl, (refl, (refl, (refl, tt)))))))))),
            ),
          ),
        )
]

-- A key that may hear of all sessions may hear of each.
pub allowed_all :
    (allowed : Option (List String)) (session_id : String)
    → is_session_subscription_allowed allowed "*" ≡ true
    → is_session_subscription_allowed allowed session_id ≡ true
unfolding is_session_subscription_allowed
allowed_all none session_id h = refl
allowed_all (some []) session_id h = refl
allowed_all (some (s ∷ ss)) session_id h = cc

filter-holds : (es : List String) → All (λ e. is_event e ≡ true) (filter is_event es)
filter-holds [] = tt
filter-holds (e ∷ es) = elim (Bool-cases (is_event e)) [
  | inl h ↦ rw h (h, filter-holds es)
  | inr h ↦ rw h (filter-holds es)
]

module _ (hash : String → String) where
  -- The messages of a client, one after the other.
  unfoldable pub run : List Step → Client → Client
  unfolding handle_message
  run [] c = c
  run (s ∷ steps) c = run steps (handle_message hash s.message s.now s.keys c).1.0

  -- One of the steps asked for the session with a key that was valid then and allowed it.
  abbrev pub Asked : List Step → Option String → String → Type 0
  Asked steps raw session_id =
      (step : Step) × (events : List String) × (k : ApiKey) × Elem step steps
      × (step.message ≡ subscribe session_id events)
      × ((subscriber_key hash raw step.now step.keys).1 ≡ some k)
      × (is_session_subscription_allowed k.allowed_sessions session_id ≡ true)

  -- The same, asked for the session or for all sessions.
  abbrev pub MayHear : List Step → Option String → String → Type 0
  MayHear steps raw session_id =
      (wanted : String) × ((wanted ≡ session_id) ⊎ (wanted ≡ "*"))
      × (step : Step) × (events : List String) × (k : ApiKey) × Elem step steps
      × (step.message ≡ subscribe wanted events)
      × ((subscriber_key hash raw step.now step.keys).1 ≡ some k)
      × (is_session_subscription_allowed k.allowed_sessions session_id ≡ true)

  module _ (steps : List Step) (raw : Option String) where
    abbrev pub RoomAsked : String → Type 0
    RoomAsked room =
        (session_id : String) × (event : String) × (room ≡ build_room_name session_id event)
        × (contains b':' event ≡ false)
        × Asked steps raw session_id

    pub record IsAsked (c : Client) : Type 0 where
      pub same_key : c.raw_api_key ≡ raw
      pub asked : All RoomAsked c.rooms

    pub nothing-IsAsked : (c : Client) → c.raw_api_key ≡ raw → c.rooms ≡ [] → IsAsked c
    nothing-IsAsked c k e = record { same_key = k; asked = subst (All RoomAsked) (sym e) tt }

    join_rooms-Asked :
        (session_id : String) (events rooms : List String)
        → Asked steps raw session_id
        → All (λ e. is_event e ≡ true) events
        → All RoomAsked rooms
        → All RoomAsked (join_rooms session_id events rooms)
    unfolding join_rooms join_room
    join_rooms-Asked session_id [] rooms a h r = r
    join_rooms-Asked session_id (e ∷ events) rooms a (p, h) r =
        let room = build_room_name session_id e in
        let new : RoomAsked room = (session_id, e, refl, is_event_plain e p, a) in
        elim (Bool-cases (includes room rooms)) [
          | inl old ↦
              rw (join_rooms, join_room, old) (join_rooms-Asked session_id events rooms a h r)
          | inr fresh ↦
              rw (join_rooms, join_room, fresh)
                (join_rooms-Asked session_id events (rooms ++ room ∷ []) a h
                  (All-append RoomAsked rooms (room ∷ []) r (new, tt)))
        ]

    subscribe_to-IsAsked :
        (session_id : String) (events : List String) (c : Client)
        → All (λ e. is_event e ≡ true) events
        → Asked steps raw session_id
        → IsAsked c
        → IsAsked (subscribe_to session_id events c).0
    unfolding subscribe_to
    subscribe_to-IsAsked session_id [] c h a i = i
    subscribe_to-IsAsked session_id (e ∷ es) c h a i = record {
      same_key = i.same_key;
      asked = join_rooms-Asked session_id (e ∷ es) c.rooms a h i.asked;
    }

    subscribe_with-IsAsked :
        (k : ApiKey) (session_id : String) (events : List String) (c : Client)
        → (is_session_subscription_allowed k.allowed_sessions session_id ≡ true
            → Asked steps raw session_id)
        → IsAsked c
        → IsAsked (subscribe_with k session_id events c).0
    unfolding subscribe_with
    subscribe_with-IsAsked k session_id events c a i =
        elim (Bool-cases (is_session_subscription_allowed k.allowed_sessions session_id)) [
          | inr refused ↦ rw (subscribe_with, refused) i
          | inl allowed ↦
              rw (subscribe_with, allowed)
                (subscribe_to-IsAsked session_id (filter is_event events) c (filter-holds events)
                  (a allowed) i)
        ]

    handle_subscribe-IsAsked :
        (step : Step) (session_id : String) (events : List String) (c : Client)
        → Elem step steps
        → step.message ≡ subscribe session_id events
        → IsAsked c
        → IsAsked (handle_subscribe hash session_id events step.now step.keys c).1.0
    unfolding handle_subscribe subscribe_as
    handle_subscribe-IsAsked step session_id events c here e i =
        elim (Bool-cases (is_empty session_id)) [
          | inl blank ↦ rw (handle_subscribe, blank) i
          | inr named ↦
              elim (Option-cases ((subscriber_key hash c.raw_api_key step.now step.keys).1)) [
                | inl f ↦
                    rw (handle_subscribe, named, subscribe_as, f)
                      (record { same_key = i.same_key; asked = tt })
                | inr (k, f) ↦
                    rw (handle_subscribe, named, subscribe_as, f)
                      (subscribe_with-IsAsked k session_id events c
                        (λ allowed. (
                          step,
                          events,
                          k,
                          here,
                          e,
                          subst (λ r. (subscriber_key hash r step.now step.keys).1 ≡ some k)
                              i.same_key f,
                          allowed,
                        ))
                        i)
              ]
        ]

    handle_message-IsAsked :
        (step : Step) (c : Client) (message : ClientMessage)
        → Elem step steps
        → step.message ≡ message
        → IsAsked c
        → IsAsked (handle_message hash message step.now step.keys c).1.0
    unfolding handle_message handle_unsubscribe
    handle_message-IsAsked step c (subscribe session_id events) here e i =
        handle_subscribe-IsAsked step session_id events c here e i
    handle_message-IsAsked step c (unsubscribe session_id) here e i = record {
      same_key = i.same_key;
      asked = All-filter RoomAsked _ c.rooms i.asked;
    }
    handle_message-IsAsked step c ping here e i = i
    handle_message-IsAsked step c unknown here e i = i

    pub run-IsAsked :
        (more : List Step) (c : Client)
        → All (λ s. Elem s steps) more
        → IsAsked c
        → IsAsked (run more c)
    unfolding run
    run-IsAsked [] c h i = i
    run-IsAsked (s ∷ more) c (p, h) i =
        run-IsAsked more _ h (handle_message-IsAsked s c s.message p refl i)
