-- ===== src/Events.antt =====
-- src/modules/events/events.gateway.ts and src/modules/events/dto/ws-messages.dto.ts: the socket of one
-- client, its rooms, and the events that reach it. A socket that is disconnected has left its rooms.
-- The digest of a key is a parameter.
pub mod Rooms
pub mod Asked
pub mod Allowed
use Prim.Native.String
use wp_open_aurora.Prelude.{
  ℕ, ◌+◌, String, Bool, true, false, not, ◌&&◌, ◌||◌, Option, none, some, List, [], ◌∷◌, ◌++◌, map,
  filter, includes, ◌==◌, if◌then◌else◌, is_empty, or_default,
}
use wp_open_aurora.Prelude.Results.{Result, ok, err}
use wp_open_aurora.Prelude.Text.{starts_with}
use wp_open_aurora.Auth.Keys.{ApiKey, AuthState, AuthError, validate_api_key}

abbrev pub subscribable_events : List String
subscribable_events =
    "message.received" ∷ "message.sent" ∷ "message.ack" ∷ "message.revoked" ∷ "message.reaction"
    ∷ "message.edited" ∷ "session.status" ∷ "session.qr" ∷ "session.authenticated"
    ∷ "session.disconnected" ∷ "group.join" ∷ "group.leave" ∷ "group.update" ∷ []

abbrev pub build_room_name : String → String → String
build_room_name session_id event =
    String.◌++◌ "session:" (String.◌++◌ session_id (String.◌++◌ ":" event))

pub record Client : Type 0 where
  pub raw_api_key : Option String
  pub rooms : List String
  pub connected : Bool

pub data ServerMessage : Type 0 where
  subscribed : String → List String → ServerMessage
  unsubscribed : String → ServerMessage
  pong : ServerMessage
  error : String → String → ServerMessage

pub data ClientMessage : Type 0 where
  subscribe : String → List String → ClientMessage
  unsubscribe : String → ClientMessage
  ping : ClientMessage
  unknown : ClientMessage

abbrev pub is_restricted : Option (List String) → Bool
is_restricted none = false
is_restricted (some []) = false
is_restricted (some (s ∷ ss)) = true

-- `isSessionSubscriptionAllowed`
unfoldable pub is_session_subscription_allowed : Option (List String) → String → Bool
is_session_subscription_allowed allowed session_id =
    if is_restricted allowed
    then not (session_id == "*") && includes session_id (or_default allowed [])
    else true

unfoldable pub join_room : String → List String → List String
join_room room rooms = if includes room rooms then rooms else rooms ++ room ∷ []

unfoldable pub join_rooms : String → List String → List String → List String
unfolding join_room
join_rooms session_id [] rooms = rooms
join_rooms session_id (e ∷ events) rooms =
    join_rooms session_id events (join_room (build_room_name session_id e) rooms)

abbrev pub is_event : String → Bool
is_event e = e == "*" || includes e subscribable_events

abbrev pub disconnect : Client → Client
disconnect c = record c { rooms = []; connected = false }

-- The rooms of the events that are valid. An empty list and one with no valid event get the same code.
unfoldable pub subscribe_to : String → List String → Client → Client × ServerMessage
unfolding join_rooms
subscribe_to session_id [] c = (c, error "INVALID_EVENTS" "No valid events")
subscribe_to session_id (e ∷ es) c =
    (record c { rooms = join_rooms session_id (e ∷ es) c.rooms }, subscribed session_id (e ∷ es))

-- The checks after the key, and the rooms.
unfoldable pub subscribe_with : ApiKey → String → List String → Client → Client × ServerMessage
unfolding is_session_subscription_allowed subscribe_to
subscribe_with k session_id events c =
    if is_session_subscription_allowed k.allowed_sessions session_id
    then subscribe_to session_id (filter is_event events) c
    else (c, error "FORBIDDEN_SESSION" "API key is not authorized for this session")

-- The rooms with an invalid key or without one.
unfoldable pub subscribe_as : Option ApiKey → String → List String → Client → Client × ServerMessage
unfolding subscribe_with
subscribe_as none session_id events c =
    (disconnect c, error "UNAUTHORIZED" "API key is no longer valid")
subscribe_as (some k) session_id events c = subscribe_with k session_id events c

unfoldable pub handle_unsubscribe : String → Client → Client × ServerMessage
handle_unsubscribe session_id c = (
  record c {
    rooms =
        filter
          (λ room. not (
            starts_with room (build_room_name session_id "")
            || (session_id == "*") && starts_with room "session:"))
          c.rooms;
  },
  unsubscribed session_id,
)

module _ (hash : String → String) where
  -- `validateApiKey`, with what it throws as none.
  unfoldable pub subscriber_key : Option String → ℕ → AuthState → AuthState × Option ApiKey
  unfolding validate_api_key
  subscriber_key none now s = (s, none)
  subscriber_key (some raw) now s =
      if is_empty raw
      then (s, none)
      else (let (s', result) = validate_api_key hash raw none none now s in
          (s', elim result [ ok k ↦ some k | err _ ↦ none ]))

  -- `raw` is the key of the handshake, from its field, its header or its query.
  unfoldable pub handle_connection : Option String → ℕ → AuthState → AuthState × Client
  unfolding subscriber_key
  handle_connection raw now s =
      let (s', found) = subscriber_key raw now s in
      (
        s',
        elim found [
          | none ↦ record { raw_api_key = none; rooms = []; connected = false }
          | some k ↦ record { raw_api_key = raw; rooms = []; connected = true }
        ],
      )

  unfoldable pub handle_subscribe :
      String → List String → ℕ → AuthState → Client → AuthState × (Client × ServerMessage)
  unfolding subscriber_key subscribe_as
  handle_subscribe session_id events now s c =
      if is_empty session_id
      then (s, (c, error "INVALID_SESSION" "sessionId is required"))
      else (let found = subscriber_key c.raw_api_key now s in
          (found.0, subscribe_as found.1 session_id events c))

  unfoldable pub handle_message :
      ClientMessage → ℕ → AuthState → Client → AuthState × (Client × ServerMessage)
  unfolding handle_subscribe handle_unsubscribe
  handle_message (subscribe session_id events) now s c = handle_subscribe session_id events now s c
  handle_message (unsubscribe session_id) now s c = (s, handle_unsubscribe session_id c)
  handle_message ping now s c = (s, (c, pong))
  handle_message unknown now s c = (s, (c, error "INVALID_MESSAGE" "Unknown message type"))

-- The copies of an event that reach a client: one for each of the four rooms that it is in.
unfoldable pub emit_to_rooms : String → String → Client → ℕ
emit_to_rooms session_id event c =
    (if includes (build_room_name session_id event) c.rooms then 1 else 0)
    + (if includes (build_room_name session_id "*") c.rooms then 1 else 0)
    + (if includes (build_room_name "*" event) c.rooms then 1 else 0)
    + (if includes (build_room_name "*" "*") c.rooms then 1 else 0)
