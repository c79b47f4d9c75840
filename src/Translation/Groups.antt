-- ===== src/Translation/Groups.antt =====
-- The state of a group in translation.coordinator.ts of the translation bot: languages, learning, and
-- who is meant.
use Prim.Native.String
use wp_open_aurora.Prelude.{
  ◌+◌, String, Bool, true, false, not, ◌&&◌, ◌||◌, Option, none, some, List, [], ◌∷◌, ◌++◌, map,
  ◌==◌, if◌then◌else◌, is_empty, is_some, or_default, filter, includes, Map, get, put,
}
use wp_open_aurora.Prelude.Text.{split, part}
use wp_open_aurora.Translation.{
  CommandTarget, me, mention, number, learned, pinned, ParticipantState, GroupState, InboundMessage,
}

-- The user part of an id: what stands before `@`, and in that before `:`.
unfoldable pub user_part : String → String
user_part w = part (split b':' (part (split b'@' w) 0)) 0

unfoldable pub wid_equals : String → String → Bool
unfolding user_part
wid_equals a b = a == b || user_part a == user_part b

abbrev pub same_text : Option String → Option String → Bool
same_text none none = true
same_text (some a) (some b) = a == b
same_text a b = false

-- `set.add` on the elements in insertion order
abbrev pub add_to_set : String → List String → List String
add_to_set x xs = if includes x xs then xs else xs ++ x ∷ []

-- `[...new Set(xs)]`, from the elements that the set holds already
unfoldable pub to_set : List String → List String → List String
to_set acc [] = acc
to_set acc (x ∷ xs) = to_set (add_to_set x acc) xs

-- The languages of the participants that pass a test, each once.
unfoldable pub languages_where : (String → Bool) → List String → Map ParticipantState → List String
languages_where q acc [] = acc
languages_where q acc ((wid, p) ∷ ps) =
    languages_where q
      (elim p.lang [
        | none ↦ acc
        | some l ↦ if p.enabled && not (is_empty l) && q l then add_to_set l acc else acc
      ])
      ps

unfoldable pub known_languages : GroupState → List String
unfolding languages_where
known_languages s = languages_where (λ l. true) [] s.participants

unfoldable pub target_languages : GroupState → String → Option String → List String
unfolding languages_where
target_languages s source sender_lang =
    languages_where (λ l. not (l == source) && not (same_text (some l) sender_lang)) []
      s.participants

-- `now` is the text of the clock.
unfoldable pub apply_learning : String → String → ParticipantState → ParticipantState
apply_learning now detected p =
    let q = record p { samples = p.samples + 1 } in
    elim p.source [
      | pinned ↦ q
      | learned ↦
          if same_text p.lang (some detected)
          then record q { pending_lang = none }
          else (if same_text p.pending_lang (some detected)
              then record q { lang = some detected; pending_lang = none; updated_at = now }
              else record q {
                pending_lang = some detected;
                lang = elim p.lang [ none ↦ some detected | some l ↦ some l ];
                updated_at = now;
              })
    ]

abbrev pub push_name_of : String → GroupState → Option String
push_name_of wid s = elim (get wid s.participants) [ none ↦ none | some p ↦ p.push_name ]

unfoldable pub resolve_sender_key : GroupState → InboundMessage → String
resolve_sender_key s msg =
    let push_name = or_default msg.push_name "" in
    let owners : List String =
      map (λ e. e.0)
        (filter (λ e. not (e.0 == msg.author) && same_text (push_name_of e.0 s) (some push_name))
          s.participants) in
    if is_empty push_name || same_text (push_name_of msg.author s) (some push_name)
    then msg.author
    else elim owners [ [] ↦ msg.author | k ∷ ks ↦ elim ks [ [] ↦ k | j ∷ js ↦ msg.author ] ]

abbrev pub new_participant : ParticipantState
new_participant = record {
  lang = none;
  source = learned;
  enabled = true;
  samples = 0;
  pending_lang = none;
  updated_at = "";
  push_name = none;
}

-- `ensureParticipant`: the participant with the id, a new one if there is none. The callers write it
-- back to the group.
unfoldable pub ensure_participant : GroupState → String → ParticipantState
ensure_participant s wid = or_default (get wid s.participants) new_participant

unfoldable pub set_participant : String → ParticipantState → GroupState → GroupState
set_participant wid p s = record s { participants = put wid p s.participants }

-- A missing mention is no target; a text that is empty is none either.
unfoldable pub resolve_target : InboundMessage → Option CommandTarget → Option String
resolve_target msg target =
    let wid : Option String = elim target [
      | none ↦ some msg.author
      | some t ↦ elim t [
        | me ↦ some msg.author
        | mention ↦ elim msg.mentioned_ids [ [] ↦ none | w ∷ ws ↦ some w ]
        | number n ↦ some (String.◌++◌ n "@c.us")
      ]
    ] in
    elim wid [ none ↦ none | some w ↦ if is_empty w then none else some w ]

-- The language that a message is taken to be in, from what was detected.
unfoldable pub source_language : GroupState → Option String → String → String
unfolding known_languages
source_language s sender_lang detected =
    if includes detected (known_languages s) then detected else or_default sender_lang detected

-- The languages that a message goes out in, with the backstop.
unfoldable pub choose_targets : GroupState → String → Option String → List String
unfolding known_languages target_languages
choose_targets s source sender_lang = elim (target_languages s source sender_lang) [
  | [] ↦ filter (λ l. not (l == source)) (known_languages s)
  | l ∷ ls ↦ l ∷ ls
]

abbrev pub note_push_name : InboundMessage → ParticipantState → ParticipantState
note_push_name msg p =
    let push_name = or_default msg.push_name "" in
    if not (is_empty push_name)
      && (not (is_some p.push_name) || same_text p.push_name (some push_name))
    then record p { push_name = some push_name }
    else p
