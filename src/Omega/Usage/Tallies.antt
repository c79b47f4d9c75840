-- ===== src/Omega/Usage/Tallies.antt =====
-- The tallies of the usage service count what they are named for.
use wp_open_aurora.Prelude.{
  ℕ, ◌+◌, String, Bool, List, [], ◌∷◌, map, ◌==◌, eq_iff, ◌≡◌, refl, ap, arith, or_default, filter,
  length, Map, get, get-put,
}
use wp_open_aurora.Omega.Admin.{OmegaWhatsappSession}
use wp_open_aurora.Omega.Usage.{
  UsageMessage, Calendar, ClientTally, bump, add_if, zeros, in_day, in_month, tally_client,
  compose_client_usage,
}

abbrev pub count_where : (UsageMessage → Bool) → List UsageMessage → ℕ
count_where q ms = length (filter q ms)

abbrev pub tallied : String → Map ℕ → ℕ
tallied k m = or_default (get k m) 0

pub tallied-bump : (k j : String) (m : Map ℕ) → tallied j (bump k m) ≡ add_if (k == j) (tallied j m)
tallied-bump k j m =
    ground (arith, get-put k j (tallied k m + 1) m, eq_iff k j, ap (λ i. tallied i m))

pub tallied-zeros : (k : String) (ks : List String) → tallied k (zeros ks) ≡ 0
unfolding get
tallied-zeros k [] = refl
tallied-zeros k (j ∷ ks) = ground (arith, tallied-zeros k ks)

module _ (cal : Calendar) where
  tally_client-counts :
      (t : ClientTally) (ms : List UsageMessage) (k : String)
      → ((tally_client cal t ms).today ≡ t.today + count_where (in_day cal) ms)
        × ((tally_client cal t ms).month ≡ t.month + count_where (in_month cal) ms)
        × (tallied k (tally_client cal t ms).trend_map
            ≡ tallied k t.trend_map + count_where (λ m. cal.month_key m.created_at == k) ms)
        × (tallied k (tally_client cal t ms).by_session_map
            ≡ tallied k t.by_session_map + count_where (λ m. m.session_id == k) ms)
  unfolding tally_client
  tally_client-counts t [] k = (omega arith, omega arith, omega arith, omega arith)
  tally_client-counts t (m ∷ ms) k =
      let t' : ClientTally = record {
        today = add_if (in_day cal m) t.today;
        month = add_if (in_month cal m) t.month;
        trend_map = bump (cal.month_key m.created_at) t.trend_map;
        by_session_map = bump m.session_id t.by_session_map;
      } in
      let (a, b, c, d) = tally_client-counts t' ms k in
      (
        ground (arith, a),
        ground (arith, b),
        ground (arith, c, tallied-bump (cal.month_key m.created_at) k t.trend_map),
        ground (arith, d, tallied-bump m.session_id k t.by_session_map),
      )

  -- The usage of a client counts its messages of the day and of the month, those of each month in the
  -- trend, and for each session all of its messages, whatever their month.
  pub compose_client_usage_lem :
      (sessions : List OmegaWhatsappSession) (ms : List UsageMessage)
      → compose_client_usage cal sessions ms ≡ record {
        messages_today = count_where (in_day cal) ms;
        messages_this_month = count_where (in_month cal) ms;
        trend = map (λ k. (k, count_where (λ m. cal.month_key m.created_at == k) ms)) cal.months;
        by_session =
            map
              (λ x.
                (x.openwa_session_id, count_where (λ m. m.session_id == x.openwa_session_id) ms))
              sessions;
      }
  unfolding compose_client_usage get
  compose_client_usage_lem sessions ms =
      let t : ClientTally = record {
        today = 0;
        month = 0;
        trend_map = zeros cal.months;
        by_session_map = [];
      } in
      let u = tally_client cal t ms in
      let counts = tally_client-counts t ms in
      let trend_of : (k : String)
          → tallied k u.trend_map ≡ count_where (λ m. cal.month_key m.created_at == k) ms =
        λ k. omega (arith, (counts k).2, tallied-zeros k cal.months) in
      let session_of : (k : String)
          → tallied k u.by_session_map ≡ count_where (λ m. m.session_id == k) ms =
        λ k. omega (arith, (counts k).3) in
      let today : u.today ≡ count_where (in_day cal) ms = omega (arith, (counts "").0) in
      let month : u.month ≡ count_where (in_month cal) ms = omega (arith, (counts "").1) in
      λ i. record {
        messages_today = today i;
        messages_this_month = month i;
        trend = map (λ k. (k, trend_of k i)) cal.months;
        by_session =
            map
              (λ (x : OmegaWhatsappSession).
                (x.openwa_session_id, session_of x.openwa_session_id i))
              sessions;
      }
