-- ===== src/Plugins/Facade.antt =====
-- Who may act on which session.
use wp_open_aurora.Prelude.{
  String, Bool, true, ◌||◌, none, some, ◌≡◌, arith, includes, if◌then◌else◌, Map, get,
}
use wp_open_aurora.Prelude.Results.{ok, err}
use wp_open_aurora.Plugins.{PluginManifest}
use wp_open_aurora.Plugins.Scope.{
  not_permitted, no_active_engine, assert_session_allowed, resolve_engine, message_verb,
  engine_verb,
}

-- The manifest names no sessions, all of them, or this one.
abbrev pub is_permitted : PluginManifest → String → Bool
is_permitted m session_id = elim m.sessions [
  | none ↦ true
  | some ids ↦ includes "*" ids || includes session_id ids
]

module _ {E A : Type 0} (engines : Map E) (m : PluginManifest) (session_id : String) where
  -- A verb of the facade answers exactly when the manifest permits the session and the session has an
  -- engine; then a message goes out by that session, and a question to its engine. Otherwise the
  -- refusal says which of the two is missing, the permission first.
  pub verbs_lem :
      (send : String → A) (ask : E → A)
      → (message_verb engines send m session_id ≡ (
          if is_permitted m session_id
          then elim (get session_id engines) [
            | none ↦ err (no_active_engine session_id)
            | some e ↦ ok (send session_id)
          ]
          else err (not_permitted m.id session_id)))
        × (engine_verb engines ask m session_id ≡ (
            if is_permitted m session_id
            then elim (get session_id engines) [
              | none ↦ err (no_active_engine session_id)
              | some e ↦ ok (ask e)
            ]
            else err (not_permitted m.id session_id)))
  unfolding message_verb engine_verb resolve_engine assert_session_allowed
  verbs_lem send ask = (ground arith, ground arith)
