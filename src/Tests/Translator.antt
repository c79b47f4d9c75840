-- ===== src/Tests/Translator.antt =====
-- A group of three with a delegated controller who writes from a second device.
use wp_open_aurora.Prelude.{
  ℕ, String, Bool, true, false, not, ◌&&◌, ◌||◌, none, some, Option, List, [], ◌∷◌, ◌≡◌, ◌⊎◌, refl,
  inr, any, includes, ◌==◌,
}
use wp_open_aurora.Translation.{
  learned, number, grant, revoke, ParticipantState, GroupState, InboundMessage,
}
use wp_open_aurora.Translation.Groups.{
  apply_learning, same_text, choose_targets, resolve_target, wid_equals,
}
use wp_open_aurora.Translation.Commands.{Outside, is_admin, is_controller, handle_command}
use wp_open_aurora.Translation.Coordinator.{handle_message}
use wp_open_aurora.Translation.Learning.{learn_all, has_pair, remembered, learn_all_switches}
use wp_open_aurora.Translation.Targets.{speaks, has_listener, choose_targets_lem}
use wp_open_aurora.Translation.Rights.{
  KeepsRights, handle_message-KeepsRights, controllers_after, order, grant-revoke,
}

abbrev speaker : String → ParticipantState
speaker lang = record {
  lang = some lang;
  source = learned;
  enabled = true;
  samples = 1;
  pending_lang = none;
  updated_at = "";
  push_name = none;
}

abbrev group : GroupState
group = record {
  session_id = "s";
  chat_id = "g";
  active = true;
  participants =
      ("1@c.us", speaker "en") ∷ ("2@c.us", speaker "es") ∷ ("3@c.us", speaker "de") ∷ [];
  delegated_controllers = "2:7@c.us" ∷ [];
  announced = true;
}

abbrev message : String → String → InboundMessage
message author body = record {
  id = "m";
  chat_id = "g";
  body = body;
  author = author;
  is_group = true;
  from_me = false;
  mentioned_ids = [];
  push_name = none;
}

abbrev outside : Outside
outside = record {
  prefix = "/tr";
  min_length = 2;
  max_length = 2000;
  detect = λ t. some "en";
  translate = λ t source target. some t;
  languages = none;
  is_healthy = true;
  group_admins = "1@c.us" ∷ [];
  to_lower_case = λ t. t;
  to_upper_case = λ t. t;
  text_length = λ t. 5;
  is_noise = λ t. false;
  now = "now";
}

learn_all_switches_example :
    (◌≡◌ {A = String} "es" "en")
    ⊎ ((learned ≡ learned) × (has_pair "es" (remembered (speaker "en") ("es" ∷ "es" ∷ [])) ≡ true))
unfolding learn_all apply_learning
learn_all_switches_example =
    learn_all_switches "now" ("es" ∷ "es" ∷ []) (speaker "en") "en" "es" refl refl

choose_targets_lem_example : includes "de" (choose_targets group "en" (some "en")) ≡ (
    any (speaks "de") group.participants
    && not ("de" == "en")
    && (not (same_text (some "de") (some "en")) || not (has_listener group "en" (some "en"))))
choose_targets_lem_example = choose_targets_lem group "en" (some "en") "de"

handle_message-KeepsRights_example :
    KeepsRights group (handle_message outside group (message "3@c.us" "/tr setlang fr")).saved
unfolding is_controller wid_equals wp_open_aurora.Prelude.Text.split
handle_message-KeepsRights_example =
    handle_message-KeepsRights outside group (message "3@c.us" "/tr setlang fr") refl

grant-revoke_example :
    (includes "3@c.us" (
        controllers_after group
          (handle_command outside group (message "1@c.us" "") (order grant (number "3"))))
      ≡ (includes "3@c.us" group.delegated_controllers
          || is_admin outside (message "1@c.us" "") && "3@c.us" == "3@c.us"))
    × (includes "3@c.us" (
          controllers_after group
            (handle_command outside group (message "1@c.us" "") (order revoke (number "3"))))
        ≡ (includes "3@c.us" group.delegated_controllers
            && not (is_admin outside (message "1@c.us" "") && "3@c.us" == "3@c.us")))
unfolding resolve_target
grant-revoke_example =
    grant-revoke outside group (message "1@c.us" "") "3@c.us" (number "3") "3@c.us" refl
