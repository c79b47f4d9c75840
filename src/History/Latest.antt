-- ===== src/History/Latest.antt =====
-- The newest message and the number of unread ones that a batch gives a chat.
use wp_open_aurora.Prelude.{
  ℕ, ◌+◌, max, String, Bool, true, false, not, ◌&&◌, ◌||◌, Option, none, some, List, [], ◌∷◌, ◌≡◌,
  refl, ap, arith, inl, inr, ◌==◌, or_default, if◌then◌else◌, is_empty, is_some, any, filter,
  length, Map, get, put, has, get-put, eq_iff, Bool-cases, Option-cases,
}
use wp_open_aurora.History.{IncomingMessage}
use wp_open_aurora.History.Snapshots.{note_latest, note_unread, latest_by_chat, unread_by_chat}

abbrev pub is_in : String → IncomingMessage → Bool
is_in chat m = m.chat_id == chat

-- The time of the newest message of a chat, or 0.
abbrev pub newest_time : String → List IncomingMessage → ℕ
newest_time chat [] = 0
newest_time chat (m ∷ ms) = max (if is_in chat m then m.timestamp else 0) (newest_time chat ms)

-- How many messages of a chat come from others.
abbrev pub received : String → List IncomingMessage → ℕ
received chat ms = length (filter (λ m. is_in chat m && not m.from_me) ms)

abbrev pub time_of : Option IncomingMessage → ℕ
time_of none = 0
time_of (some m) = m.timestamp

module _ (chat : String) (named : is_empty chat ≡ false) where
  get-note_latest_here :
      (m : IncomingMessage) (latest : Map IncomingMessage)
      → m.chat_id ≡ chat
      → (time_of (get chat (note_latest m latest)) ≡ max (time_of (get chat latest)) m.timestamp)
        × (is_some (get chat (note_latest m latest)) ≡ true)
  unfolding note_latest
  get-note_latest_here m latest here = elim (Option-cases (get m.chat_id latest)) [
    | inl e ↦
        let f : get chat latest ≡ none = cc in
        let filled : is_empty m.chat_id ≡ false = cc in
        let written = get-put m.chat_id chat m latest in
        (
          ground (arith, e, f, written, eq_iff m.chat_id chat),
          ground (arith, e, f, written, eq_iff m.chat_id chat),
        )
    | inr (current, e) ↦
        let f : get chat latest ≡ some current = cc in
        let filled : is_empty m.chat_id ≡ false = cc in
        let written = get-put m.chat_id chat m latest in
        (
          ground (arith, e, f, written, eq_iff m.chat_id chat),
          ground (arith, e, f, written, eq_iff m.chat_id chat),
        )
  ]

  get-note_latest_other :
      (m : IncomingMessage) (latest : Map IncomingMessage)
      → is_in chat m ≡ false
      → get chat (note_latest m latest) ≡ get chat latest
  unfolding note_latest
  get-note_latest_other m latest e = ground (arith, get-put m.chat_id chat m latest)

  get-note_latest :
      (m : IncomingMessage) (latest : Map IncomingMessage)
      → (time_of (get chat (note_latest m latest))
          ≡ max (time_of (get chat latest)) (if is_in chat m then m.timestamp else 0))
        × (is_some (get chat (note_latest m latest)) ≡ (is_some (get chat latest) || is_in chat m))
  get-note_latest m latest = elim (Bool-cases (is_in chat m)) [
    | inr e ↦ (
      ground (arith, e, get-note_latest_other m latest),
      ground (arith, e, get-note_latest_other m latest),
    )
    | inl e ↦
        let (t, p) = get-note_latest_here m latest ((eq_iff m.chat_id chat).0 e) in
        (ground (arith, e, t), ground (arith, e, p))
  ]

  pub latest_by_chat_time :
      (ms : List IncomingMessage) (latest : Map IncomingMessage)
      → (time_of (get chat (latest_by_chat ms latest))
          ≡ max (time_of (get chat latest)) (newest_time chat ms))
        × (is_some (get chat (latest_by_chat ms latest))
            ≡ (is_some (get chat latest) || any (is_in chat) ms))
  unfolding latest_by_chat
  latest_by_chat_time [] latest = (omega arith, ground arith)
  latest_by_chat_time (m ∷ ms) latest =
      let (t, p) = get-note_latest m latest in
      let (t', p') = latest_by_chat_time ms (note_latest m latest) in
      (omega (arith, t, t'), ground (arith, p, p'))

  get-note_unread :
      (increment : Bool) (m : IncomingMessage) (unread : Map ℕ)
      → or_default (get chat (note_unread increment m unread)) 0
        ≡ or_default (get chat unread) 0
          + (if increment && is_in chat m && not m.from_me then 1 else 0)
  unfolding note_unread
  get-note_unread increment m unread = ground (
    arith,
    get-put m.chat_id chat (or_default (get m.chat_id unread) 0 + 1) unread,
    eq_iff m.chat_id chat,
  )

  pub unread_by_chat_lem :
      (increment : Bool) (ms : List IncomingMessage) (unread : Map ℕ)
      → or_default (get chat (unread_by_chat increment ms unread)) 0
        ≡ or_default (get chat unread) 0 + (if increment then received chat ms else 0)
  unfolding unread_by_chat
  unread_by_chat_lem increment [] unread = ground arith
  unread_by_chat_lem increment (m ∷ ms) unread = ground (
    arith,
    get-note_unread increment m unread,
    unread_by_chat_lem increment ms (note_unread increment m unread),
  )

-- No key of a map twice.
abbrev pub Unique {ℓ} : {V : Type ℓ} → Map V → Type 0
Unique [] = Unit
Unique ((k, v) ∷ m) = (has k m ≡ false) × Unique m

put-Unique {ℓ} : {V : Type ℓ} (k : String) (v : V) (m : Map V) → Unique m → Unique (put k v m)
unfolding put get
put-Unique k v [] h = (refl, tt)
put-Unique k v ((j, w) ∷ m) (a, h) = elim (Bool-cases (j == k)) [
  | inl e ↦
      let same : j ≡ k = (eq_iff j k).0 e in
      rw (put, e) (ground (arith, ap (λ (i : String). has i m) same), h)
  | inr e ↦
      rw (put, e) (ground (arith, e, eq_iff j k, eq_iff k j, get-put k j v m), put-Unique k v m h)
]

note_latest-Unique :
    (m : IncomingMessage) (latest : Map IncomingMessage)
    → Unique latest
    → Unique (note_latest m latest)
unfolding note_latest
note_latest-Unique m latest h = ground (arith, put-Unique m.chat_id m latest h)

pub latest_by_chat-Unique :
    (ms : List IncomingMessage) (latest : Map IncomingMessage)
    → Unique latest
    → Unique (latest_by_chat ms latest)
unfolding latest_by_chat
latest_by_chat-Unique [] latest h = h
latest_by_chat-Unique (m ∷ ms) latest h =
    latest_by_chat-Unique ms (note_latest m latest) (note_latest-Unique m latest h)
