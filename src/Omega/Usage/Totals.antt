-- ===== src/Omega/Usage/Totals.antt =====
-- The overview of the usage service counts what it is named for.
use wp_open_aurora.Prelude.{
  ◌+◌, String, Bool, true, ◌&&◌, none, some, List, [], ◌∷◌, map, ◌==◌, eq_iff, ◌≡◌, refl, ap, arith,
  or_default, filter, length, Map, get, get-put, inl, inr, Option-cases,
}
use wp_open_aurora.Omega.Admin.{OmegaClient, OmegaWhatsappSession, same_id}
use wp_open_aurora.Omega.Usage.{
  UsageMessage, Calendar, Tally, Entry, bump, add_if, zeros, no_entry, in_day, in_month,
  session_id_of, client_of, count_for, tally, compose_usage, sessions_by_openwa_id, is_sent_message,
}
use wp_open_aurora.Omega.Usage.Tallies.{count_where, tallied, tallied-bump, tallied-zeros}

module _ (cal : Calendar) where
  -- A message counts for a client.
  abbrev pub counts_for : Map OmegaWhatsappSession → String → UsageMessage → Bool
  counts_for by_openwa_id c m = same_id (client_of cal by_openwa_id m) (some c)

  abbrev entry_of : String → Map Entry → Entry
  entry_of c entries = or_default (get c entries) no_entry

  entry_of-count_for :
      (m : UsageMessage) (c d session : String) (entries : Map Entry)
      → ((entry_of d (count_for cal m c session entries)).today
          ≡ add_if (c == d && in_day cal m) (entry_of d entries).today)
        × ((entry_of d (count_for cal m c session entries)).month
            ≡ add_if (c == d && in_month cal m) (entry_of d entries).month)
  unfolding count_for
  entry_of-count_for m c d session entries =
      let e = entry_of c entries in
      let e' : Entry = record {
        today = add_if (in_day cal m) e.today;
        month = add_if (in_month cal m) e.month;
        by_session = bump session e.by_session;
      } in
      let same : (c == d) ≡ true → entry_of c entries ≡ entry_of d entries =
        λ h. ap (λ i. entry_of i entries) ((eq_iff c d).0 h) in
      (ground (arith, get-put c d e' entries, same), ground (arith, get-put c d e' entries, same))

  module _ (owners : Map OmegaWhatsappSession) where
    entry_step :
        (t : Tally) (m : UsageMessage) (k : String)
        → ((entry_of k (elim (client_of cal owners m) as (λ x. Map Entry) [
          | none ↦ t.per_client_map
          | some c ↦ count_for cal m c (session_id_of cal owners m) t.per_client_map
        ])).today
            ≡ add_if (counts_for owners k m && in_day cal m) (entry_of k t.per_client_map).today)
          × ((entry_of k (elim (client_of cal owners m) as (λ x. Map Entry) [
            | none ↦ t.per_client_map
            | some c ↦ count_for cal m c (session_id_of cal owners m) t.per_client_map
          ])).month
              ≡ add_if
                  (counts_for owners k m && in_month cal m)
                  (entry_of k t.per_client_map).month)
    entry_step t m k = elim (Option-cases (client_of cal owners m)) [
      | inl e ↦ rw e (refl, refl)
      | inr (c, e) ↦ rw e (entry_of-count_for m c k (session_id_of cal owners m) t.per_client_map)
    ]

    tally-counts :
        (t : Tally) (ms : List UsageMessage) (k : String)
        → ((tally cal owners t ms).today ≡ t.today + count_where (in_day cal) ms)
          × ((tally cal owners t ms).month ≡ t.month + count_where (in_month cal) ms)
          × (tallied k (tally cal owners t ms).monthly_map
              ≡ tallied k t.monthly_map + count_where (λ m. cal.month_key m.created_at == k) ms)
          × ((entry_of k (tally cal owners t ms).per_client_map).today
              ≡ (entry_of k t.per_client_map).today
                + count_where (λ m. counts_for owners k m && in_day cal m) ms)
          × ((entry_of k (tally cal owners t ms).per_client_map).month
              ≡ (entry_of k t.per_client_map).month
                + count_where (λ m. counts_for owners k m && in_month cal m) ms)
    unfolding tally
    tally-counts t [] k = (omega arith, omega arith, omega arith, omega arith, omega arith)
    tally-counts t (m ∷ ms) k =
        let session = session_id_of cal owners m in
        let entries : Map Entry = elim (client_of cal owners m) [
          | none ↦ t.per_client_map
          | some c ↦ count_for cal m c session t.per_client_map
        ] in
        let t' : Tally = record {
          today = add_if (in_day cal m) t.today;
          month = add_if (in_month cal m) t.month;
          monthly_map = bump (cal.month_key m.created_at) t.monthly_map;
          per_client_map = entries;
        } in
        let (a, b, c, d, e) = tally-counts t' ms k in
        let (f, g) = entry_step t m k in
        (
          ground (arith, a),
          ground (arith, b),
          ground (arith, c, tallied-bump (cal.month_key m.created_at) k t.monthly_map),
          ground (arith, d, f),
          ground (arith, e, g),
        )

  -- The overview counts, for each client, the messages of the day and of the month whose session is
  -- the client's, and its sessions; and overall the messages of the day, of the month and of each
  -- month of the trend.
  pub compose_usage_lem :
      (clients : List OmegaClient) (sessions : List OmegaWhatsappSession) (ms : List UsageMessage)
      → compose_usage cal clients sessions ms ≡ record {
        messages_today = count_where (in_day cal) ms;
        messages_this_month = count_where (in_month cal) ms;
        trend = map (λ k. (k, count_where (λ m. cal.month_key m.created_at == k) ms)) cal.months;
        per_client =
            map
              (λ c. (
                c.id,
                count_where
                    (λ m. counts_for (sessions_by_openwa_id [] sessions) c.id m && in_day cal m)
                    ms,
                count_where
                    (λ m. counts_for (sessions_by_openwa_id [] sessions) c.id m && in_month cal m)
                    ms,
                length (filter (λ x. same_id x.client_id (some c.id)) sessions),
              ))
              clients;
        by_session =
            map
              (λ x. (
                x.openwa_session_id,
                count_where
                    (λ m.
                      m.session_id == x.openwa_session_id && in_month cal m && is_sent_message m)
                    ms,
              ))
              sessions;
      }
  unfolding compose_usage get
  compose_usage_lem clients sessions ms =
      let owners = sessions_by_openwa_id [] sessions in
      let t : Tally = record {
        today = 0;
        month = 0;
        monthly_map = zeros cal.months;
        per_client_map = [];
      } in
      let u = tally cal owners t ms in
      let counts = tally-counts owners t ms in
      let today : u.today ≡ count_where (in_day cal) ms = omega (arith, (counts "").0) in
      let month : u.month ≡ count_where (in_month cal) ms = omega (arith, (counts "").1) in
      let trend_of : (k : String)
          → tallied k u.monthly_map ≡ count_where (λ m. cal.month_key m.created_at == k) ms =
        λ k. omega (arith, (counts k).2, tallied-zeros k cal.months) in
      let day_of : (k : String)
          → (entry_of k u.per_client_map).today
            ≡ count_where (λ m. counts_for owners k m && in_day cal m) ms =
        λ k. omega (arith, (counts k).3) in
      let month_of : (k : String)
          → (entry_of k u.per_client_map).month
            ≡ count_where (λ m. counts_for owners k m && in_month cal m) ms =
        λ k. omega (arith, (counts k).4) in
      λ i. record {
        messages_today = today i;
        messages_this_month = month i;
        trend = map (λ k. (k, trend_of k i)) cal.months;
        per_client =
            map
              (λ (c : OmegaClient). (
                c.id,
                day_of c.id i,
                month_of c.id i,
                length (filter (λ x. same_id x.client_id (some c.id)) sessions),
              ))
              clients;
        by_session =
            map
              (λ (x : OmegaWhatsappSession). (
                x.openwa_session_id,
                count_where
                    (λ m.
                      m.session_id == x.openwa_session_id && in_month cal m && is_sent_message m)
                    ms,
              ))
              sessions;
      }
