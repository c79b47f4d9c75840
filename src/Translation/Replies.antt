-- ===== src/Translation/Replies.antt =====
-- reply.formatter.ts of the translation bot: the texts of its answers.
use Prim.Native.String.{◌++◌}
use wp_open_aurora.Prelude.{
  String, Bool, Option, none, some, List, [], ◌∷◌, map, if◌then◌else◌, or_default, is_empty, Map,
  get,
}
use wp_open_aurora.Prelude as Prelude
use wp_open_aurora.Prelude.Text.{join}
use wp_open_aurora.Translation.{Source, learned, pinned, ParticipantState, GroupState}

abbrev flags : Map String
flags =
    ("en", "🇬🇧")
    ∷ ("es", "🇪🇸")
    ∷ ("fr", "🇫🇷")
    ∷ ("de", "🇩🇪")
    ∷ ("pt", "🇵🇹")
    ∷ ("it", "🇮🇹")
    ∷ ("nl", "🇳🇱")
    ∷ ("ru", "🇷🇺")
    ∷ ("ar", "🇸🇦")
    ∷ ("zh", "🇨🇳")
    ∷ ("ja", "🇯🇵")
    ∷ []

module _ (to_upper_case : String → String) where
  unfoldable pub label : String → String
  label lang = elim (get lang flags) [
    | none ↦ to_upper_case lang
    | some flag ↦ flag ++ " " ++ to_upper_case lang
  ]

  -- A translation is a language and a text.
  unfoldable pub format_combined_reply : List (String × String) → String
  unfolding label
  format_combined_reply ts = join "\n" (map (λ t. label t.0 ++ ": " ++ t.1) ts)

unfoldable pub build_help_text : String → String
build_help_text prefix = join "\n" (
    ("👋 Translation bot. I am OFF in this group until an admin runs `" ++ prefix ++ " on`.")
    ∷ "Commands:"
    ∷ (prefix ++ " on / " ++ prefix ++ " off — enable/disable translation here")
    ∷ (prefix ++ " setlang <code> [me|@user|number] — pin a language (default: you)")
    ∷ (prefix ++ " auto [me|@user|number] — go back to auto-detect")
    ∷ (prefix ++ " ignore <@user|number> / " ++ prefix ++ " unignore <@user|number>")
    ∷ (prefix ++ " grant <@user|number> / " ++ prefix
        ++ " revoke <@user|number> — delegate control (admins)")
    ∷ (prefix ++ " status — show settings")
    ∷ (prefix ++ " help — this message")
    ∷ [])

abbrev source_text : Source → String
source_text learned = "learned"
source_text pinned = "pinned"

unfoldable pub participant_line : String × ParticipantState → String
participant_line (wid, p) =
    "• "
    ++ wid
    ++ ": "
    ++ or_default p.lang "unknown"
    ++ " ("
    ++ source_text p.source
    ++ (if p.enabled then "" else ", ignored")
    ++ ")"

unfoldable pub format_status : GroupState → Bool → String
unfolding participant_line
format_status s healthy = join "\n" (
    ("Translation: " ++ (if s.active then "ACTIVE" else "inactive"))
    ∷ ("Translator: " ++ (if healthy then "ok" else "unreachable"))
    ∷ Prelude.◌++◌
        (elim s.participants [
          | [] ↦ "No participants learned yet." ∷ []
          | e ∷ es ↦ "Participants:" ∷ map participant_line (e ∷ es)
        ])
        (elim s.delegated_controllers [
          | [] ↦ []
          | c ∷ cs ↦ ("Delegated controllers: " ++ join ", " (c ∷ cs)) ∷ []
        ]))
