-- ===== src/Translation/Parser.antt =====
-- command.parser.ts of the translation bot: control commands in chat messages.
use wp_open_aurora.Prelude.{
  String, ◌||◌, Option, none, some, List, [], ◌∷◌, ◌==◌, if◌then◌else◌, is_empty,
}
use wp_open_aurora.Prelude.Text.{trim, starts_with, count, drop_chars, split_spaces, digits_only}
use wp_open_aurora.Translation.{
  CommandName, help, status, on, off, setlang, auto, ignore, unignore, grant, revoke, CommandTarget,
  me, mention, number, ParsedCommand,
}

-- The members of `COMMANDS`.
unfoldable pub command_of : String → Option CommandName
command_of verb =
    if verb == "help"
    then some help
    else (if verb == "status"
        then some status
        else (if verb == "on"
            then some on
            else (if verb == "off"
                then some off
                else (if verb == "setlang"
                    then some setlang
                    else (if verb == "auto"
                        then some auto
                        else (if verb == "ignore"
                            then some ignore
                            else (if verb == "unignore"
                                then some unignore
                                else (if verb == "grant"
                                    then some grant
                                    else (if verb == "revoke" then some revoke else none)))))))))

module _ (to_lower_case : String → String) where
  unfoldable pub parse_target : List String → CommandTarget
  parse_target [] = me
  parse_target (raw ∷ args) =
      if is_empty raw || to_lower_case raw == "me"
      then me
      else (if starts_with raw "@" then mention else number (digits_only raw))

  abbrev plain : CommandName → ParsedCommand
  plain name = record { name = name; lang = none; target = none }

  abbrev targeted : CommandName → List String → ParsedCommand
  targeted name args = record { name = name; lang = none; target = some (parse_target args) }

  -- The command of a name and the words behind it.
  unfoldable pub with_arguments : CommandName → List String → Option ParsedCommand
  unfolding parse_target
  with_arguments help args = some (plain help)
  with_arguments status args = some (plain status)
  with_arguments on args = some (plain on)
  with_arguments off args = some (plain off)
  with_arguments setlang [] = none
  with_arguments setlang (l ∷ args) =
      if is_empty (to_lower_case l)
      then none
      else some (record {
        name = setlang;
        lang = some (to_lower_case l);
        target = some (parse_target args);
      })
  with_arguments auto args = some (targeted auto args)
  with_arguments ignore args = some (targeted ignore args)
  with_arguments unignore args = some (targeted unignore args)
  with_arguments grant args = some (targeted grant args)
  with_arguments revoke args = some (targeted revoke args)

  unfoldable pub parse_tokens : List String → Option ParsedCommand
  unfolding with_arguments command_of
  parse_tokens [] = none
  parse_tokens (verb ∷ args) = elim (command_of (to_lower_case verb)) [
    | none ↦ none
    | some name ↦ with_arguments name args
  ]

  -- What the message starts with: the alias, or the prefix.
  unfoldable pub matched_prefix : String → String → Option String
  matched_prefix lower prefix =
      if starts_with lower "/translate"
      then some "/translate"
      else (if starts_with lower (to_lower_case prefix) then some prefix else none)

  unfoldable pub parse_command : String → String → Option ParsedCommand
  unfolding matched_prefix parse_tokens
  parse_command body prefix = elim (matched_prefix (to_lower_case (trim body)) prefix) [
    | none ↦ none
    | some matched ↦
        let rest = trim (drop_chars (count matched) (trim body)) in
        if is_empty matched || is_empty rest then none else parse_tokens (split_spaces rest)
  ]
