-- ===== src/Tests/Office.antt =====
-- A client with one session, its sub admin, and the messages that the client has sent.
use wp_open_aurora.Prelude.{
  ℕ, String, true, false, none, some, List, [], ◌∷◌, ◌≡◌, refl, leb, if◌then◌else◌, get, put,
}
use wp_open_aurora.Messages.Status.{MessageStatus}
use wp_open_aurora.Omega.Users.{OmegaUser, OmegaUserRole, super_admin, client_admin, active}
use wp_open_aurora.Omega.Admin.{
  OmegaClient, OmegaWhatsappSession, AdminState, assign_session, get_client_entity,
}
use wp_open_aurora.Omega.Admin.Accounts.{UpdateUser}
use wp_open_aurora.Omega.Admin.Escalation.{
  KeepsSuperAdmins, updates, manage_users, manage_users-KeepsSuperAdmins,
}
use wp_open_aurora.Omega.Admin.Assignment.{IsWithin, assign_session-IsWithin}
use wp_open_aurora.Omega.Usage.{UsageMessage, Calendar, compose_usage, sessions_by_openwa_id}
use wp_open_aurora.Omega.Usage.Totals.{compose_usage_lem}

abbrev user : String → OmegaUserRole → OmegaUser
user id role = record {
  id = id;
  full_name = id;
  email = id;
  password_hash = "";
  client_id = some "c1";
  team_id = none;
  role = role;
  status = active;
  is_on_duty = true;
  must_change_password = false;
  last_login_at = none;
}

abbrev sub_admin : OmegaUser
sub_admin = user "u1" client_admin

abbrev client : OmegaClient
client = record {
  id = "c1";
  company_name = "One";
  monthly_message_limit = 100;
  whatsapp_account_limit = 2;
}

abbrev session : String → String → OmegaWhatsappSession
session id c = record {
  id = id;
  openwa_session_id = id;
  client_id = some c;
  assigned_to_client = true;
  replacement_requested = false;
}

abbrev office : AdminState
office = record {
  clients = client ∷ [];
  sessions = session "x" "c1" ∷ session "y" "c2" ∷ [];
  teams = [];
  users = user "root" super_admin ∷ sub_admin ∷ [];
}

abbrev promotion : UpdateUser
promotion = record {
  full_name = none;
  email = none;
  password = none;
  role = some client_admin;
  status = none;
  client_id = none;
  team_id = none;
  is_on_duty = some false;
}

abbrev same : String → String
same s = s

manage_users-KeepsSuperAdmins_example :
    KeepsSuperAdmins office (manage_users same same (updates "u1" promotion) sub_admin office)
manage_users-KeepsSuperAdmins_example =
    manage_users-KeepsSuperAdmins same same (updates "u1" promotion) sub_admin office refl tt

assign_session-IsWithin_example :
    IsWithin client office (assign_session "y" (some "c1") false sub_admin office)
unfolding get_client_entity
assign_session-IsWithin_example =
    assign_session-IsWithin "y" "c1" false sub_admin client office refl refl

abbrev calendar : Calendar
calendar = record {
  day_start = 20;
  month_start = 10;
  six_months_ago = 0;
  months = "old" ∷ "new" ∷ [];
  month_key = λ t. if leb 10 t then "new" else "old";
}

abbrev sent : ℕ → UsageMessage
sent t = record {
  session_id = "x";
  is_outgoing = true;
  status = MessageStatus.sent;
  created_at = t;
}

abbrev messages : List UsageMessage
messages = sent 5 ∷ sent 15 ∷ sent 25 ∷ []

compose_usage_lem_example : compose_usage calendar (client ∷ []) office.sessions messages ≡ record {
  messages_today = 1;
  messages_this_month = 2;
  trend = ("old", 1) ∷ ("new", 2) ∷ [];
  per_client = ("c1", 1, 2, 1) ∷ [];
  by_session = ("x", 2) ∷ ("y", 0) ∷ [];
}
unfolding get sessions_by_openwa_id put
compose_usage_lem_example = compose_usage_lem calendar (client ∷ []) office.sessions messages
