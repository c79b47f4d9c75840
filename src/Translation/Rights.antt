-- ===== src/Translation/Rights.antt =====
-- Who may change what in a group.
use wp_open_aurora.Prelude.{
  String, Bool, true, false, not, ◌&&◌, ◌||◌, Option, none, some, List, [], ◌∷◌, ◌==◌, ◌≡◌, ap, ◌∙◌,
  arith, any, includes, inl, inr, Bool-cases, Option-cases,
}
use wp_open_aurora.Translation.{
  CommandName, grant, revoke, CommandTarget, ParsedCommand, GroupState, InboundMessage,
}
use wp_open_aurora.Translation.Parser.{parse_command}
use wp_open_aurora.Translation.Groups.{
  wid_equals, to_set, add_to_set, resolve_target, set_participant,
}
use wp_open_aurora.Translation.Targets.{includes-add_to_set, includes-filter, test_eq}
use wp_open_aurora.Translation.Commands.{
  Outside, Effects, is_admin, is_controller, is_denied, is_self_serve, is_admin_only, set_language,
  set_controllers, run_targeted, run_untargeted, run_command, handle_command,
}
use wp_open_aurora.Translation.Coordinator.{
  reply_translated, translate_message, announce, handle_message, both,
}

-- What is saved, if anything, has the group's activation and its delegated controllers as before.
abbrev pub KeepsRights : GroupState → Option GroupState → Type 0
KeepsRights s none = Unit
KeepsRights s (some s') =
    (s'.active ≡ s.active) × (s'.delegated_controllers ≡ s.delegated_controllers)

module _ (out : Outside) (s : GroupState) (msg : InboundMessage) where
  set_language-KeepsRights :
      (wid : String) (lang : Option String) → KeepsRights s (set_language out s wid lang).1
  unfolding set_language set_participant
  set_language-KeepsRights wid none = tt
  set_language-KeepsRights wid (some lang) = ground arith

  self_serve-KeepsRights :
      (wid : String) (cmd : ParsedCommand)
      → is_self_serve cmd ≡ true
      → KeepsRights s (run_targeted out s wid cmd).1
  unfolding run_targeted is_self_serve set_participant
  self_serve-KeepsRights wid cmd h = ground (arith, h, set_language-KeepsRights wid cmd.lang)

  self_serve_untargeted :
      (cmd : ParsedCommand) → is_self_serve cmd ≡ true → KeepsRights s (run_untargeted out s cmd).1
  unfolding run_untargeted is_self_serve
  self_serve_untargeted cmd h = ground (arith, h, set_language-KeepsRights "" none)

  translate_message-KeepsRights : KeepsRights s (translate_message out s msg).1
  unfolding translate_message reply_translated set_participant
  translate_message-KeepsRights = ground arith

  run_command-KeepsRights :
      (cmd : ParsedCommand)
      → is_controller out s msg ≡ false
      → KeepsRights s (run_command out s msg cmd).1
  unfolding run_command is_denied is_controller
  run_command-KeepsRights cmd h = elim (Bool-cases (is_self_serve cmd)) [
    | inr e ↦ ground (arith, h, e)
    | inl e ↦ elim (Option-cases (resolve_target msg cmd.target)) [
      | inl f ↦ ground (arith, e, f, self_serve_untargeted cmd e)
      | inr (wid, f) ↦ ground (arith, e, f, self_serve-KeepsRights wid cmd e)
    ]
  ]

  handle_command-KeepsRights :
      (cmd : ParsedCommand)
      → is_controller out s msg ≡ false
      → KeepsRights s (handle_command out s msg cmd).1
  unfolding handle_command
  handle_command-KeepsRights cmd h = ground (arith, run_command-KeepsRights cmd h)

module _ (out : Outside) (s : GroupState) (msg : InboundMessage) where
  announce-KeepsRights :
      (KeepsRights s (announce out s).1.1)
      × ((announce out s).0.active ≡ s.active)
      × ((announce out s).0.delegated_controllers ≡ s.delegated_controllers)
  unfolding announce
  announce-KeepsRights = ground arith

  KeepsRights-trans :
      (s' : GroupState) (saved : Option GroupState)
      → s'.active ≡ s.active
      → s'.delegated_controllers ≡ s.delegated_controllers
      → KeepsRights s' saved
      → KeepsRights s saved
  KeepsRights-trans s' none a d k = tt
  KeepsRights-trans s' (some x) a d (b, e) = (b ∙ a, e ∙ d)

  both-KeepsRights :
      (a b : Effects) → KeepsRights s a.1 → KeepsRights s b.1 → KeepsRights s (both out a b).1
  both-KeepsRights a (sent, none) h k = h
  both-KeepsRights a (sent, some x) h k = k

  is_controller-announce : is_controller out (announce out s).0 msg ≡ is_controller out s msg
  unfolding is_controller
  is_controller-announce =
      ap (λ cs. is_admin out msg || any (λ c. wid_equals c msg.author) cs) announce-KeepsRights.2

  -- Whatever a message says, if its author is neither an admin of the group nor a delegated
  -- controller, what is saved has the group's activation and its controllers as before.
  pub handle_message-KeepsRights :
      is_controller out s msg ≡ false → KeepsRights s (handle_message out s msg).saved
  unfolding handle_message
  handle_message-KeepsRights h =
      let s' = (announce out s).0 in
      let first = (announce out s).1 in
      let kept = announce-KeepsRights in
      let denied : is_controller out s' msg ≡ false = is_controller-announce ∙ h in
      let after = λ (e : Effects) (k : KeepsRights s' e.1).
        both-KeepsRights first e kept.0 (KeepsRights-trans s' e.1 kept.1 kept.2 k) in
      elim (Option-cases (parse_command out.to_lower_case msg.body out.prefix)) [
        | inl e ↦ ground (
          arith,
          e,
          after (translate_message out s' msg) (translate_message-KeepsRights out s' msg),
          kept,
        )
        | inr (cmd, e) ↦ ground (
          arith,
          e,
          after (handle_command out s' msg cmd) (handle_command-KeepsRights out s' msg cmd denied),
        )
      ]

includes-to_set :
    (acc xs : List String) (y : String)
    → includes y (to_set acc xs) ≡ (includes y acc || includes y xs)
unfolding to_set
includes-to_set acc [] y = ground arith
includes-to_set acc (x ∷ xs) y =
    ground (arith, includes-to_set (add_to_set x acc) xs y, includes-add_to_set x y acc)

-- The controllers that a `grant` or `revoke` leaves.
abbrev pub controllers_after : GroupState → Effects → List String
controllers_after s (sent, none) = s.delegated_controllers
controllers_after s (sent, some s') = s'.delegated_controllers

abbrev pub order : CommandName → CommandTarget → ParsedCommand
order name target = record { name = name; lang = none; target = some target }

includes-any :
    (p : String → Bool) (x : String) (xs : List String)
    → includes x xs ≡ true
    → p x ≡ true
    → any p xs ≡ true
includes-any p x [] h k = ground (arith, h)
includes-any p x (y ∷ ys) h k = ground (arith, h, k, includes-any p x ys, test_eq p y x)

module _ (out : Outside) (s : GroupState) (msg : InboundMessage) (wid : String) where
  -- A `grant` or `revoke` by an admin adds, or removes, exactly the id that it names; by anybody else,
  -- delegated controllers included, it changes no controller.
  pub grant-revoke :
      (target : CommandTarget) (c : String)
      → resolve_target msg (some target) ≡ some wid
      → (includes c (controllers_after s (handle_command out s msg (order grant target)))
          ≡ (includes c s.delegated_controllers || is_admin out msg && wid == c))
        × (includes c (controllers_after s (handle_command out s msg (order revoke target)))
            ≡ (includes c s.delegated_controllers && not (is_admin out msg && c == wid)))
  unfolding handle_command run_command run_targeted set_controllers is_denied is_self_serve
      is_admin_only
  grant-revoke target c h =
      let cs = to_set [] s.delegated_controllers in
      let members = includes-to_set [] s.delegated_controllers c in
      (
        ground (arith, h, members, includes-add_to_set wid c cs),
        ground (arith, h, members, includes-filter (λ x. not (x == wid)) cs c),
      )

-- A `revoke` does not see that two ids are of one user: a user who controls the group by another id,
-- such as that of a device, still does after a `revoke` that names the user by `wid`.
pub revoke_other_id :
    (out : Outside) (s : GroupState) (msg : InboundMessage) (wid other : String)
    (target : CommandTarget) (author : InboundMessage)
    → resolve_target msg (some target) ≡ some wid
    → includes other s.delegated_controllers ≡ true
    → (other == wid) ≡ false
    → wid_equals other author.author ≡ true
    → any
        (λ c. wid_equals c author.author)
        (controllers_after s (handle_command out s msg (order revoke target)))
      ≡ true
revoke_other_id out s msg wid other target author h k n e =
    let after = (grant-revoke out s msg wid target other h).1 in
    includes-any (λ c. wid_equals c author.author) other
      (controllers_after s (handle_command out s msg (order revoke target)))
      (ground (arith, after, k, n)) e
