-- ===== src/Translation/Coordinator.antt =====
-- The handlers of translation.coordinator.ts of the translation bot. A run answers whether the message
-- is swallowed, what is sent, in order, and the group as it was saved last, if it was. The translator,
-- the gateway's list of admins, JavaScript's text functions and the clock are parameters; storing and
-- sending succeed.
use wp_open_aurora.Prelude.{
  String, Bool, true, false, not, ◌||◌, Option, none, some, List, [], ◌∷◌, ◌++◌, ltb, if◌then◌else◌,
  is_empty,
}
use wp_open_aurora.Prelude.Text.{trim}
use wp_open_aurora.Translation.{GroupState, InboundMessage}
use wp_open_aurora.Translation.Parser.{parse_command}
use wp_open_aurora.Translation.Replies.{build_help_text, format_combined_reply}
use wp_open_aurora.Translation.Groups.{
  apply_learning, resolve_sender_key, ensure_participant, set_participant, source_language,
  choose_targets, note_push_name,
}
use wp_open_aurora.Translation.Commands.{
  Sent, text, combined_reply, Outside, Effects, handle_command,
}

pub record Handled : Type 0 where
  pub swallow : Bool
  pub sent : List Sent
  pub saved : Option GroupState

module _ (out : Outside) where
  open out use {
    prefix, min_length, max_length, detect, translate, to_lower_case, to_upper_case, text_length,
    is_noise, now,
  }

  -- The calls of the translator for each target; those that throw are left out.
  unfoldable pub translations : String → String → List String → List (String × String)
  translations t source [] = []
  translations t source (l ∷ ls) =
      let rest = translations t source ls in
      elim (translate t source l) [ none ↦ rest | some s ↦ (l, s) ∷ rest ]

  -- The part of `translateMessage` after the detection, for the sender with what was learned.
  unfoldable pub reply_translated :
      GroupState → InboundMessage → String → Option String → String → Effects
  unfolding source_language choose_targets translations
  reply_translated s msg t sender_lang detected =
      let source = source_language s sender_lang detected in
      elim (translations t source (choose_targets s source sender_lang)) [
        | [] ↦ ([], some s)
        | r ∷ rs ↦
            (combined_reply msg.id (format_combined_reply to_upper_case (r ∷ rs)) ∷ [], some s)
      ]

  unfoldable pub translate_message : GroupState → InboundMessage → Effects
  unfolding reply_translated apply_learning ensure_participant set_participant resolve_sender_key
  translate_message s msg =
      let t = trim msg.body in
      let key = resolve_sender_key s msg in
      let sender = note_push_name msg (ensure_participant s key) in
      if ltb (text_length t) min_length
        || ltb max_length (text_length t)
        || is_noise t
        || not sender.enabled
      then ([], none)
      else elim (detect t) [
        | none ↦ ([], none)
        | some detected ↦
            let learnt = apply_learning now detected sender in
            reply_translated (set_participant key learnt s) msg t learnt.lang detected
      ]

  -- The greeting of a group that the bot has not met.
  unfoldable pub announce : GroupState → GroupState × Effects
  announce s =
      if s.announced
      then (s, ([], none))
      else (let s' = record s { announced = true } in
          (s', (text (build_help_text prefix) ∷ [], some s')))

  abbrev pub both : Effects → Effects → Effects
  both (a, s) (b, none) = (a ++ b, s)
  both (a, s) (b, some s') = (a ++ b, some s')

  abbrev pub handled : Bool → Effects → Handled
  handled swallow (sent, saved) = record { swallow = swallow; sent = sent; saved = saved }

  -- The handling of a message of a group whose state was loaded.
  unfoldable pub handle_message : GroupState → InboundMessage → Handled
  unfolding announce handle_command translate_message
  handle_message s msg =
      if not msg.is_group || msg.from_me || is_empty msg.author
      then record { swallow = false; sent = []; saved = none }
      else (let (s', first) = announce s in
          elim (parse_command to_lower_case msg.body prefix) [
            | some cmd ↦ handled true (both first (handle_command out s' msg cmd))
            | none ↦
                handled false (if s'.active then both first (translate_message s' msg) else first)
          ])
