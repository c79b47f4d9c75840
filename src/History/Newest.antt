-- ===== src/History/Newest.antt =====
-- What new messages make of the summary of a chat.
use wp_open_aurora.Prelude.{
  ℕ, ◌+◌, max, String, Bool, true, false, Option, none, some, List, [], ◌∷◌, ◌≡◌, refl, ap, ◌∙◌,
  arith, inl, inr, ◌==◌, or_default, if◌then◌else◌, is_empty, any, Map, get, put, has, get-put,
  eq_iff, Bool-cases, Option-cases,
}
use wp_open_aurora.History.{IncomingMessage}
use wp_open_aurora.History.Snapshots.{
  ChatSnapshot, create_snapshot, update_snapshot, latest_by_chat, unread_by_chat, update_snapshots,
  persist_message_chat_snapshots,
}
use wp_open_aurora.History.Latest.{
  is_in, newest_time, received, latest_by_chat_time, unread_by_chat_lem, Unique,
  latest_by_chat-Unique,
}

abbrev pub snapshot_time : Option ChatSnapshot → ℕ
snapshot_time none = 0
snapshot_time (some s) = s.timestamp

abbrev pub snapshot_unread : Option ChatSnapshot → ℕ
snapshot_unread none = 0
snapshot_unread (some s) = s.unread_count

abbrev updated : Map ℕ → String → IncomingMessage → Option ChatSnapshot → ChatSnapshot
updated unread chat m old =
    update_snapshot m (or_default (get chat unread) 0) (or_default old (create_snapshot m))

update_snapshots_other :
    (chat : String) (unread : Map ℕ) (latest : Map IncomingMessage) (snapshots : Map ChatSnapshot)
    → has chat latest ≡ false
    → get chat (update_snapshots unread latest snapshots) ≡ get chat snapshots
unfolding update_snapshots get
update_snapshots_other chat unread [] snapshots h = refl
update_snapshots_other chat unread ((k, m) ∷ latest) snapshots h = ground (
  arith,
  update_snapshots_other chat unread latest
      (put k (updated unread k m (get k snapshots)) snapshots),
  get-put k chat (updated unread k m (get k snapshots)) snapshots,
)

update_snapshots_lem :
    (chat : String) (unread : Map ℕ) (latest : Map IncomingMessage) (snapshots : Map ChatSnapshot)
    (m : IncomingMessage)
    → Unique latest
    → get chat latest ≡ some m
    → get chat (update_snapshots unread latest snapshots)
      ≡ some (updated unread chat m (get chat snapshots))
unfolding update_snapshots get
update_snapshots_lem chat unread [] snapshots m h e = cc
update_snapshots_lem chat unread ((k, x) ∷ latest) snapshots m (once, h) e =
    elim (Bool-cases (k == chat)) [
      | inr other ↦
          update_snapshots_lem chat unread latest
            (put k (updated unread k x (get k snapshots)) snapshots) m h (ground (arith, other))
          ∙ ground (arith, other, get-put k chat (updated unread k x (get k snapshots)) snapshots)
      | inl here ↦
          let same : k ≡ chat = (eq_iff k chat).0 here in
          let found : x ≡ m = ground (arith, here) in
          let new = updated unread k x (get k snapshots) in
          update_snapshots_other chat unread latest (put k new snapshots)
            (ground (arith, ap (λ (i : String). has i latest) same))
          ∙ rw (get-put k chat new snapshots, here, same, found) refl
    ]

updated_lem :
    (unread : Map ℕ) (chat : String) (m : IncomingMessage) (old : Option ChatSnapshot)
    → ((updated unread chat m old).timestamp ≡ max (snapshot_time old) m.timestamp)
      × ((updated unread chat m old).unread_count
          ≡ snapshot_unread old + or_default (get chat unread) 0)
unfolding update_snapshot create_snapshot
updated_lem unread chat m none = (ground arith, omega arith)
updated_lem unread chat m (some s) = (ground arith, omega arith)

-- After a batch of messages with one in a chat, the summary of the chat has the time of the newest of
-- them, or an even later one from before; and if unread messages are counted, one more for each message
-- of the batch that comes from others.
pub persist_message_chat_snapshots_lem :
    (increment : Bool) (ms : List IncomingMessage) (snapshots : Map ChatSnapshot) (chat : String)
    → is_empty chat ≡ false
    → any (is_in chat) ms ≡ true
    → (s : ChatSnapshot) × (get chat (persist_message_chat_snapshots increment ms snapshots)
        ≡ some s)
      × (s.timestamp ≡ max (snapshot_time (get chat snapshots)) (newest_time chat ms))
      × (s.unread_count
          ≡ snapshot_unread (get chat snapshots) + (if increment then received chat ms else 0))
unfolding persist_message_chat_snapshots get
persist_message_chat_snapshots_lem increment ms snapshots chat named h =
    let (t, p) = latest_by_chat_time chat named ms [] in
    let u = unread_by_chat_lem chat named increment ms [] in
    let unread = unread_by_chat increment ms [] in
    elim (Option-cases (get chat (latest_by_chat ms []))) [
      | inl e ↦ absurd (ground (arith, e, p, h))
      | inr (m, e) ↦
          let (time, count) = updated_lem unread chat m (get chat snapshots) in
          (
            updated unread chat m (get chat snapshots),
            update_snapshots_lem chat unread (latest_by_chat ms []) snapshots m
                (latest_by_chat-Unique ms [] tt) e,
            ground (arith, time, t, e),
            omega (arith, count, u),
          )
    ]

-- The summary of a chat without a message in the batch stays as it is.
pub persist_message_chat_snapshots_other :
    (increment : Bool) (ms : List IncomingMessage) (snapshots : Map ChatSnapshot) (chat : String)
    → is_empty chat ≡ false
    → any (is_in chat) ms ≡ false
    → get chat (persist_message_chat_snapshots increment ms snapshots) ≡ get chat snapshots
unfolding persist_message_chat_snapshots get
persist_message_chat_snapshots_other increment ms snapshots chat named h =
    let (t, p) = latest_by_chat_time chat named ms [] in
    update_snapshots_other chat (unread_by_chat increment ms []) (latest_by_chat ms []) snapshots
      (ground (arith, p, h))
