-- ===== src/Engine/Ids.antt =====
-- `toNeutralWhatsAppId` and `toEvolutionWhatsAppId` of
-- src/engine/adapters/evolution-go-message-mapper.ts.
use Prim.Native.Char.{code}
use Prim.Native.String
use Prim.Native.String.{String, [], ◌∷◌}
use wp_open_aurora.Prelude.{not, ◌&&◌, ◌==◌, ◌-◌, eqb, if◌then◌else◌, is_empty}
use wp_open_aurora.Prelude.Text.{
  trim, contains, all_digits, ends_with, digits_only, take_chars, count,
}

-- `s.replace(/:\d+$/, '')`
unfoldable pub strip_device : String → String
unfolding all_digits
strip_device [] = []
strip_device (c ∷ s) =
    let rest = strip_device s in
    if eqb (code c) b':' && not (is_empty s) && all_digits s then [] else c ∷ rest

-- The text before the first `@`, and the text after it.
unfoldable pub before_at : String → String
before_at [] = []
before_at (c ∷ s) = let rest = before_at s in if eqb (code c) b'@' then [] else c ∷ rest

unfoldable pub after_at : String → String
after_at [] = []
after_at (c ∷ s) = if eqb (code c) b'@' then s else after_at s

unfoldable pub to_neutral_whats_app_id : (String → String) → String → String
unfolding trim contains strip_device before_at after_at
to_neutral_whats_app_id to_lower_case value =
    let raw = trim value in
    let user = strip_device (before_at raw) in
    let server = to_lower_case (after_at raw) in
    if contains b'@' raw
    then String.◌++◌ user (if server == "s.whatsapp.net" then "@c.us" else String.◌++◌ "@" server)
    else strip_device raw

unfoldable pub to_evolution_whats_app_id : String → String
unfolding trim contains digits_only ends_with take_chars count
to_evolution_whats_app_id value =
    let normalized = trim value in
    if contains b'@' normalized
    then (if ends_with normalized "@c.us"
        then String.◌++◌ (take_chars (count normalized - 5) normalized) "@s.whatsapp.net"
        else normalized)
    else digits_only normalized
