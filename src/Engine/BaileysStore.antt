-- ===== src/Engine/BaileysStore.antt =====
-- src/engine/adapters/baileys-session-store.ts: what the events of a Baileys socket leave of contacts,
-- chats and last messages. A field that a record does not have is none; a timestamp is a number.
pub mod Newest
use wp_open_aurora.Prelude.{
  ℕ, max, String, Bool, true, false, not, ◌&&◌, ◌||◌, Option, none, some, List, [], ◌∷◌, ◌≡◌, refl,
  ap, ◌∙◌, arith, inl, inr, map, ◌==◌, leb, or_default, if◌then◌else◌, is_empty, is_some, any, Map,
  get, put, get-put, eq_iff, Bool-cases, Option-cases,
}
use wp_open_aurora.Prelude.Text.{split, part, ends_with}

pub record BaileysContact : Type 0 where
  pub id : String
  pub name : Option String
  pub verified_name : Option String
  pub notify : Option String
  pub phone_number : Option String
  pub lid : Option String
  pub img_url : Option String

pub record Chat : Type 0 where
  pub id : String
  pub name : Option String
  pub unread_count : Option ℕ
  pub conversation_timestamp : Option ℕ

pub record LastMessage : Type 0 where
  pub key : String
  pub timestamp : ℕ
  pub text : String

pub record WaMessage : Type 0 where
  pub remote_jid : Option String
  pub key : String
  pub message_timestamp : Option ℕ
  pub conversation : Option String
  pub extended_text : Option String

pub record BaileysSessionStore : Type 0 where
  pub contacts : Map BaileysContact
  pub chats : Map Chat
  pub last_messages : Map LastMessage
  pub lid_to_pn : Map String

pub record Contact : Type 0 where
  pub id : String
  pub name : Option String
  pub push_name : Option String
  pub number : String
  pub is_my_contact : Bool
  pub is_blocked : Bool
  pub profile_pic_url : Option String

pub record ChatSummary : Type 0 where
  pub id : String
  pub name : String
  pub is_group : Bool
  pub unread_count : ℕ
  pub timestamp : ℕ
  pub last_message : Option String

abbrev or_old {ℓ} : {A : Type ℓ} → Option A → Option A → Option A
or_old none old = old
or_old (some new) old = some new

abbrev or_text : Option String → String
or_text t = or_default t ""

-- `{ ...existing, ...r }`
unfoldable pub merge_contact : Option BaileysContact → BaileysContact → BaileysContact
merge_contact none r = r
merge_contact (some c) r = record {
  id = r.id;
  name = or_old r.name c.name;
  verified_name = or_old r.verified_name c.verified_name;
  notify = or_old r.notify c.notify;
  phone_number = or_old r.phone_number c.phone_number;
  lid = or_old r.lid c.lid;
  img_url = or_old r.img_url c.img_url;
}

unfoldable pub merge_chat : Option Chat → Chat → Chat
merge_chat none r = r
merge_chat (some c) r = record {
  id = r.id;
  name = or_old r.name c.name;
  unread_count = or_old r.unread_count c.unread_count;
  conversation_timestamp = or_old r.conversation_timestamp c.conversation_timestamp;
}

unfoldable pub add_lid_mapping : Option String → Option String → Map String → Map String
unfolding put
add_lid_mapping lid pn m =
    if is_empty (or_text lid) || is_empty (or_text pn) then m else put (or_text lid) (or_text pn) m

unfoldable pub upsert_contact : BaileysContact → BaileysSessionStore → BaileysSessionStore
unfolding merge_contact add_lid_mapping get put
upsert_contact r s = if is_empty r.id then s else record s {
  contacts = put r.id (merge_contact (get r.id s.contacts) r) s.contacts;
  lid_to_pn = add_lid_mapping r.lid r.phone_number s.lid_to_pn;
}

unfoldable pub upsert_chat : Chat → BaileysSessionStore → BaileysSessionStore
unfolding merge_chat get put
upsert_chat r s =
    if is_empty r.id
    then s
    else record s { chats = put r.id (merge_chat (get r.id s.chats) r) s.chats }

abbrev pub text_of : WaMessage → String
text_of m = or_default (or_old m.conversation m.extended_text) ""

abbrev pub time_of : WaMessage → ℕ
time_of m = or_default m.message_timestamp 0

abbrev pub chat_of : WaMessage → String
chat_of m = or_text m.remote_jid

abbrev pub is_at_least : Option LastMessage → ℕ → Bool
is_at_least none t = false
is_at_least (some m) t = leb t m.timestamp

unfoldable pub record_message : WaMessage → Map LastMessage → Map LastMessage
unfolding get put
record_message m last =
    if is_empty (chat_of m) || is_at_least (get (chat_of m) last) (time_of m)
    then last
    else put (chat_of m) (record { key = m.key; timestamp = time_of m; text = text_of m }) last

unfoldable pub record_messages : List WaMessage → Map LastMessage → Map LastMessage
unfolding record_message
record_messages [] last = last
record_messages (m ∷ ms) last = record_messages ms (record_message m last)

unfoldable pub user_part : String → String
unfolding split
user_part jid = part (split b':' (part (split b'@' jid) 0)) 0

unfoldable pub to_neutral_contact : BaileysContact → Contact
unfolding user_part ends_with
to_neutral_contact c = record {
  id = c.id;
  name = or_old c.name c.verified_name;
  push_name = c.notify;
  number =
      if not (is_empty (or_text c.phone_number))
      then user_part (or_text c.phone_number)
      else if ends_with c.id "@s.whatsapp.net"
      then user_part c.id
      else "";
  is_my_contact = true;
  is_blocked = false;
  profile_pic_url = c.img_url;
}

module _ (s : BaileysSessionStore) where
  unfoldable pub to_neutral_chat : Chat → ChatSummary
  unfolding user_part ends_with get
  to_neutral_chat c =
      let last = get c.id s.last_messages in
      record {
        id = c.id;
        name = or_default c.name (user_part c.id);
        is_group = ends_with c.id "@g.us";
        unread_count = or_default c.unread_count 0;
        timestamp = elim last [
          | none ↦ or_default c.conversation_timestamp 0
          | some m ↦ m.timestamp
        ];
        last_message = elim last [ none ↦ none | some m ↦ some m.text ];
      }

  unfoldable pub list_contacts : List Contact
  unfolding to_neutral_contact
  list_contacts = map (λ e. to_neutral_contact e.1) s.contacts

  unfoldable pub find_contact : String → Option Contact
  unfolding to_neutral_contact get
  find_contact id = elim (get id s.contacts) [ none ↦ none | some c ↦ some (to_neutral_contact c) ]

  unfoldable pub list_chats : List ChatSummary
  unfolding to_neutral_chat
  list_chats = map (λ e. to_neutral_chat e.1) s.chats

  unfoldable pub last_message : String → Option (String × ℕ)
  unfolding get
  last_message chat = elim (get chat s.last_messages) [
    | none ↦ none
    | some m ↦ some (m.key, m.timestamp)
  ]

  abbrev contact_phone : Option BaileysContact → Option String
  contact_phone none = none
  contact_phone (some c) =
      if is_empty (or_text c.phone_number) then none else some (user_part (or_text c.phone_number))

  unfoldable pub resolve_phone : String → Option String
  unfolding user_part ends_with get
  resolve_phone id =
      if ends_with id "@s.whatsapp.net"
      then some (user_part id)
      else if ends_with id "@lid"
      then elim (get id s.lid_to_pn) [
        | some pn ↦ if is_empty pn then contact_phone (get id s.contacts) else some (user_part pn)
        | none ↦ contact_phone (get id s.contacts)
      ]
      else none
