-- ===== src/Plugins/Scope.antt =====
-- The sessions that a plugin may act on, and the verbs of its facade.
use wp_open_aurora.Prelude.{String, not, ◌&&◌, [], ◌∷◌, or_default, includes, Map, get}
use wp_open_aurora.Prelude.Results.{Result, ok, ◌>>=◌, ◌>>◌, throw_if, or_throw}
use wp_open_aurora.Plugins.{PluginManifest}

-- A refusal of the facade: the session is out of the plugin's scope, or it has no engine.
pub data PluginCapabilityError : Type 0 where
  not_permitted : String → String → PluginCapabilityError
  no_active_engine : String → PluginCapabilityError

unfoldable pub assert_session_allowed :
    PluginManifest → String → Result PluginCapabilityError (Unit {0})
assert_session_allowed m session_id =
    let allowed = or_default m.sessions ("*" ∷ []) in
    throw_if (not (includes "*" allowed) && not (includes session_id allowed))
      (not_permitted m.id session_id)

module _ {E : Type 0} (engines : Map E) where
  unfoldable pub resolve_engine : PluginManifest → String → Result PluginCapabilityError E
  unfolding assert_session_allowed
  resolve_engine m session_id =
      assert_session_allowed m session_id
      >> or_throw (get session_id engines) (no_active_engine session_id)

  -- The verbs of the facade: `messages` sends by the message service after the check, `engine` asks the
  -- engine that the check finds. The answer lists what the verb asks for.
  unfoldable pub message_verb :
      {A : Type 0} → (String → A) → PluginManifest → String → Result PluginCapabilityError A
  unfolding resolve_engine
  message_verb send m session_id = resolve_engine m session_id >>= λ _. ok (send session_id)

  unfoldable pub engine_verb :
      {A : Type 0} → (E → A) → PluginManifest → String → Result PluginCapabilityError A
  unfolding resolve_engine
  engine_verb ask m session_id = resolve_engine m session_id >>= λ e. ok (ask e)
