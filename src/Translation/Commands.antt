-- ===== src/Translation/Commands.antt =====
-- The commands of translation.coordinator.ts of the translation bot. The translator, the gateway's
-- list of admins, JavaScript's text functions and the clock are parameters.
use wp_open_aurora.Prelude.{
  ℕ, String, Bool, true, false, not, ◌&&◌, ◌||◌, Option, none, some, List, [], ◌∷◌, ◌==◌,
  if◌then◌else◌, or_default, any, filter, includes,
}
use wp_open_aurora.Prelude.Text.{join}
use wp_open_aurora.Translation.{
  CommandName, help, status, on, off, setlang, auto, ignore, unignore, grant, revoke, CommandTarget,
  me, ParsedCommand, learned, pinned, GroupState, InboundMessage,
}
use wp_open_aurora.Translation.Replies.{build_help_text, format_status}
use wp_open_aurora.Translation.Groups.{
  wid_equals, to_set, add_to_set, ensure_participant, set_participant, resolve_target,
}

pub data Sent : Type 0 where
  text : String → Sent
  combined_reply : (quoted_message_id : String) → String → Sent

-- A call of the translator that throws is `none`. `is_noise` is the test of `URL_OR_EMOJI_ONLY`.
pub record Outside : Type 0 where
  pub prefix : String
  pub min_length : ℕ
  pub max_length : ℕ
  pub detect : String → Option String
  pub translate : String → String → String → Option String
  pub languages : Option (List String)
  pub is_healthy : Bool
  pub group_admins : List String
  pub to_lower_case : String → String
  pub to_upper_case : String → String
  pub text_length : String → ℕ
  pub is_noise : String → Bool
  pub now : String

abbrev pub Effects : Type 0
Effects = List Sent × Option GroupState

abbrev pub is_me : Option CommandTarget → Bool
is_me (some me) = true
is_me t = false

-- `setlang` and `auto` for oneself need no rights.
unfoldable pub is_self_serve : ParsedCommand → Bool
is_self_serve cmd = elim cmd.name [
  | setlang ↦ is_me cmd.target
  | auto ↦ is_me cmd.target
  | _ ↦ false
]

unfoldable pub is_admin_only : CommandName → Bool
is_admin_only grant = true
is_admin_only revoke = true
is_admin_only n = false

abbrev denial : Bool → String
denial true = "⛔ Only group admins can use that command."
denial false = "⛔ Only group admins or delegated users can use that command."

-- The source has a variation selector behind the sign.
abbrev target_help : String
target_help =
    "⚠ Couldn't identify that user. Target them by @mention, by phone number, or use 'me' for yourself."

module _ (out : Outside) where
  open out use {
    prefix, min_length, max_length, detect, translate, languages, is_healthy, group_admins,
    to_lower_case, to_upper_case, text_length, is_noise, now,
  }

  unfoldable pub is_admin : InboundMessage → Bool
  is_admin msg = any (λ a. wid_equals a msg.author) group_admins

  unfoldable pub is_controller : GroupState → InboundMessage → Bool
  unfolding is_admin
  is_controller s msg = is_admin msg || any (λ c. wid_equals c msg.author) s.delegated_controllers

  unfoldable pub is_denied : GroupState → InboundMessage → ParsedCommand → Bool
  unfolding is_self_serve is_admin_only is_controller is_admin
  is_denied s msg cmd =
      not (is_self_serve cmd)
      && (if is_admin_only cmd.name then not (is_admin msg) else not (is_controller s msg))

  abbrev confirm : String → GroupState → Effects
  confirm t s = (text t ∷ [], some s)

  abbrev reply_error : String → Effects
  reply_error t = (text t ∷ [], none)

  unfoldable pub set_language : GroupState → String → Option String → Effects
  unfolding ensure_participant set_participant
  set_language s wid none =
      reply_error (join "" ("Usage: " ∷ prefix ∷ " setlang <code> [me|@user|number]" ∷ []))
  set_language s wid (some lang) =
      let supported : Bool = elim languages [ none ↦ true | some ls ↦ includes lang ls ] in
      let p = record (ensure_participant s wid) {
        lang = some lang;
        source = pinned;
        pending_lang = none;
        updated_at = now;
      } in
      if supported
      then confirm (join "" ("✅ Set " ∷ wid ∷ " to " ∷ lang ∷ "." ∷ [])) (set_participant wid p s)
      else reply_error (
          join "" (
            "Unsupported language \""
            ∷ lang
            ∷ "\". Supported: "
            ∷ join ", " (or_default languages [])
            ∷ []))

  abbrev verb_text : CommandName → String
  verb_text ignore = "Ignoring"
  verb_text unignore = "Including"
  verb_text grant = "Granted"
  verb_text n = "Revoked"

  unfoldable pub set_enabled : GroupState → String → CommandName → Bool → Effects
  unfolding ensure_participant set_participant
  set_enabled s wid name enabled =
      confirm (join "" ("✅ " ∷ verb_text name ∷ " " ∷ wid ∷ "." ∷ []))
        (set_participant wid (record (ensure_participant s wid) { enabled = enabled }) s)

  unfoldable pub set_controllers : GroupState → String → CommandName → List String → Effects
  set_controllers s wid name controllers =
      confirm (join "" ("✅ " ∷ verb_text name ∷ " control for " ∷ wid ∷ "." ∷ []))
        (record s { delegated_controllers = controllers })

  -- The `switch` on a command that is let through and has a target.
  unfoldable pub run_targeted : GroupState → String → ParsedCommand → Effects
  unfolding set_language set_enabled set_controllers ensure_participant set_participant to_set
  run_targeted s wid cmd = elim cmd.name [
    | help ↦ ([], none)
    | status ↦ ([], none)
    | on ↦ confirm "✅ Translation activated." (record s { active = true })
    | off ↦ confirm "✅ Translation deactivated." (record s { active = false })
    | setlang ↦ set_language s wid cmd.lang
    | auto ↦ confirm (join "" ("✅ " ∷ wid ∷ " set to auto-detect." ∷ [])) (
        set_participant wid
          (record (ensure_participant s wid) { source = learned; pending_lang = none }) s)
    | ignore ↦ set_enabled s wid ignore false
    | unignore ↦ set_enabled s wid unignore true
    | grant ↦ set_controllers s wid grant (add_to_set wid (to_set [] s.delegated_controllers))
    | revoke ↦
        set_controllers s wid revoke
          (filter (λ c. not (c == wid)) (to_set [] s.delegated_controllers))
  ]

  -- And on one whose target is missing.
  unfoldable pub run_untargeted : GroupState → ParsedCommand → Effects
  unfolding set_language
  run_untargeted s cmd = elim cmd.name [
    | help ↦ ([], none)
    | status ↦ ([], none)
    | on ↦ confirm "✅ Translation activated." (record s { active = true })
    | off ↦ confirm "✅ Translation deactivated." (record s { active = false })
    | setlang ↦ set_language s "" none
    | _ ↦ reply_error target_help
  ]

  unfoldable pub run_command : GroupState → InboundMessage → ParsedCommand → Effects
  unfolding is_denied run_targeted run_untargeted resolve_target
  run_command s msg cmd =
      if is_denied s msg cmd
      then reply_error (denial (is_admin_only cmd.name))
      else elim (resolve_target msg cmd.target) [
        | none ↦ run_untargeted s cmd
        | some wid ↦ run_targeted s wid cmd
      ]

  unfoldable pub handle_command : GroupState → InboundMessage → ParsedCommand → Effects
  unfolding run_command
  handle_command s msg cmd = elim cmd.name [
    | help ↦ reply_error (build_help_text prefix)
    | status ↦ reply_error (format_status s is_healthy)
    | _ ↦ run_command s msg cmd
  ]
