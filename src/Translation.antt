-- ===== src/Translation.antt =====
-- src/plugins/extensions/translation/core/: the translation bot. The types are those of ports.ts; the
-- children model the other files. A text has code points here, and the case functions of JavaScript
-- are parameters.
pub mod Parser
pub mod Replies
pub mod Groups
pub mod Commands
pub mod Coordinator
pub mod Learning
pub mod Targets
pub mod Rights
use wp_open_aurora.Prelude.{ℕ, String, Bool, Option, List, Map}

pub data CommandName : Type 0 where
  help status on off setlang auto ignore unignore grant revoke : CommandName

pub data CommandTarget : Type 0 where
  me mention : CommandTarget
  number : String → CommandTarget

pub record ParsedCommand : Type 0 where
  pub name : CommandName
  pub lang : Option String
  pub target : Option CommandTarget

pub data Source : Type 0 where
  learned pinned : Source

pub record ParticipantState : Type 0 where
  pub lang : Option String
  pub source : Source
  pub enabled : Bool
  pub samples : ℕ
  pub pending_lang : Option String
  pub updated_at : String
  pub push_name : Option String

pub record GroupState : Type 0 where
  pub session_id : String
  pub chat_id : String
  pub active : Bool
  pub participants : Map ParticipantState
  pub delegated_controllers : List String
  pub announced : Bool

pub record InboundMessage : Type 0 where
  pub id : String
  pub chat_id : String
  pub body : String
  pub author : String
  pub is_group : Bool
  pub from_me : Bool
  pub mentioned_ids : List String
  pub push_name : Option String
