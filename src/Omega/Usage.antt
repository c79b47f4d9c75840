-- ===== src/Omega/Usage.antt =====
-- src/modules/omega/omega-usage.service.ts: how many messages the clients of the panel have sent. The
-- calendar is a parameter: the starts of the day, of the month and of the six months, the months'
-- keys and the key of a time. Times are milliseconds.
pub mod Tallies
pub mod Totals
use wp_open_aurora.Prelude.{
  ℕ, ◌+◌, String, Bool, true, false, not, ◌&&◌, Option, none, some, List, [], ◌∷◌, map, ◌==◌, leb,
  if◌then◌else◌, or_default, is_empty, is_some, filter, includes, length, Map, get, put,
}
use wp_open_aurora.Messages.Status.{MessageStatus, same_status}
use wp_open_aurora.Omega.Admin.{OmegaClient, OmegaWhatsappSession, same_id, truthy}

pub record UsageMessage : Type 0 where
  pub session_id : String
  pub is_outgoing : Bool
  pub status : MessageStatus
  pub created_at : ℕ

pub record Calendar : Type 0 where
  pub day_start : ℕ
  pub month_start : ℕ
  pub six_months_ago : ℕ
  pub months : List String
  pub month_key : ℕ → String

-- `map.set(key, (map.get(key) ?? 0) + 1)`
abbrev pub bump : String → Map ℕ → Map ℕ
bump k m = put k (or_default (get k m) 0 + 1) m

abbrev pub add_if : Bool → ℕ → ℕ
add_if b n = if b then n + 1 else n

abbrev pub is_sent_message : UsageMessage → Bool
is_sent_message m = m.is_outgoing && not (same_status m.status MessageStatus.failed)

-- `new Map(months.map(month => [month, 0]))`
abbrev pub zeros : List String → Map ℕ
zeros months = map (λ k. (k, 0)) months

pub record ClientUsage : Type 0 where
  pub messages_today : ℕ
  pub messages_this_month : ℕ
  pub trend : List (String × ℕ)
  pub by_session : List (String × ℕ)

pub record ClientTally : Type 0 where
  pub today : ℕ
  pub month : ℕ
  pub trend_map : Map ℕ
  pub by_session_map : Map ℕ

pub record Entry : Type 0 where
  pub today : ℕ
  pub month : ℕ
  pub by_session : Map ℕ

pub record Overview : Type 0 where
  pub messages_today : ℕ
  pub messages_this_month : ℕ
  pub trend : List (String × ℕ)
  pub per_client : List (String × ℕ × ℕ × ℕ)
  pub by_session : List (String × ℕ)

pub record Tally : Type 0 where
  pub today : ℕ
  pub month : ℕ
  pub monthly_map : Map ℕ
  pub per_client_map : Map Entry

abbrev pub no_entry : Entry
no_entry = record { today = 0; month = 0; by_session = [] }

-- `new Map(omegaSessions.map(session => [session.openwaSessionId, session]))`, from what it holds
unfoldable pub sessions_by_openwa_id :
    Map OmegaWhatsappSession → List OmegaWhatsappSession → Map OmegaWhatsappSession
sessions_by_openwa_id m [] = m
sessions_by_openwa_id m (x ∷ xs) = sessions_by_openwa_id (put x.openwa_session_id x m) xs

module _ (cal : Calendar) where
  open cal use {day_start, month_start, six_months_ago, months, month_key}

  abbrev pub in_day : UsageMessage → Bool
  in_day m = leb day_start m.created_at

  abbrev pub in_month : UsageMessage → Bool
  in_month m = leb month_start m.created_at

  -- The loop of `composeClientUsage`.
  unfoldable pub tally_client : ClientTally → List UsageMessage → ClientTally
  tally_client t [] = t
  tally_client t (m ∷ ms) =
      tally_client
        (record {
          today = add_if (in_day m) t.today;
          month = add_if (in_month m) t.month;
          trend_map = bump (month_key m.created_at) t.trend_map;
          by_session_map = bump m.session_id t.by_session_map;
        })
        ms

  unfoldable pub compose_client_usage : List OmegaWhatsappSession → List UsageMessage → ClientUsage
  unfolding tally_client
  compose_client_usage sessions messages =
      let t =
        tally_client
          (record { today = 0; month = 0; trend_map = zeros months; by_session_map = [] })
          messages in
      record {
        messages_today = t.today;
        messages_this_month = t.month;
        trend = map (λ k. (k, or_default (get k t.trend_map) 0)) months;
        by_session =
            map
              (λ x. (x.openwa_session_id, or_default (get x.openwa_session_id t.by_session_map) 0))
              sessions;
      }

  abbrev queried : UsageMessage → Bool
  queried m = is_sent_message m && leb six_months_ago m.created_at

  -- `stored` is the table of messages.
  unfoldable pub build_client_usage :
      String → List OmegaWhatsappSession → List UsageMessage → ClientUsage
  unfolding compose_client_usage
  build_client_usage client_id omega_sessions stored =
      let sessions = filter (λ x. same_id x.client_id (some client_id)) omega_sessions in
      let ids = map (λ x. x.openwa_session_id) sessions in
      compose_client_usage sessions (filter (λ m. queried m && includes m.session_id ids) stored)

  -- The client that a message counts for.
  abbrev pub client_of : Map OmegaWhatsappSession → UsageMessage → Option String
  client_of by_openwa_id m = elim (get m.session_id by_openwa_id) [
    | none ↦ none
    | some x ↦ truthy x.client_id
  ]

  abbrev pub session_id_of : Map OmegaWhatsappSession → UsageMessage → String
  session_id_of by_openwa_id m = elim (get m.session_id by_openwa_id) [ none ↦ "" | some x ↦ x.id ]

  unfoldable pub count_for : UsageMessage → String → String → Map Entry → Map Entry
  count_for m client session entries =
      let e = or_default (get client entries) no_entry in
      put client
        (record {
          today = add_if (in_day m) e.today;
          month = add_if (in_month m) e.month;
          by_session = bump session e.by_session;
        })
        entries

  -- The loop of `composeUsage`.
  unfoldable pub tally : Map OmegaWhatsappSession → Tally → List UsageMessage → Tally
  unfolding count_for
  tally by_openwa_id t [] = t
  tally by_openwa_id t (m ∷ ms) =
      tally by_openwa_id
        (record {
          today = add_if (in_day m) t.today;
          month = add_if (in_month m) t.month;
          monthly_map = bump (month_key m.created_at) t.monthly_map;
          per_client_map = elim (client_of by_openwa_id m) [
            | none ↦ t.per_client_map
            | some c ↦ count_for m c (session_id_of by_openwa_id m) t.per_client_map
          ];
        })
        ms

  unfoldable pub compose_usage :
      List OmegaClient → List OmegaWhatsappSession → List UsageMessage → Overview
  unfolding tally sessions_by_openwa_id
  compose_usage clients omega_sessions messages =
      let t =
        tally (sessions_by_openwa_id [] omega_sessions)
          (record { today = 0; month = 0; monthly_map = zeros months; per_client_map = [] })
          messages in
      record {
        messages_today = t.today;
        messages_this_month = t.month;
        trend = map (λ k. (k, or_default (get k t.monthly_map) 0)) months;
        per_client =
            map
              (λ c.
                let e = or_default (get c.id t.per_client_map) no_entry in
                (
                  c.id,
                  e.today,
                  e.month,
                  length (filter (λ x. same_id x.client_id (some c.id)) omega_sessions),
                ))
              clients;
        by_session =
            map
              (λ x. (
                x.openwa_session_id,
                length (
                    filter
                      (λ m. m.session_id == x.openwa_session_id && in_month m && is_sent_message m)
                      messages),
              ))
              omega_sessions;
      }

  unfoldable pub build_usage_overview :
      List OmegaClient → List OmegaWhatsappSession → List UsageMessage → Overview
  unfolding compose_usage
  build_usage_overview clients omega_sessions stored =
      compose_usage clients omega_sessions (filter (λ m. queried m) stored)
