-- ===== src/Messages/Bulk/Senders.antt =====
-- `resolveSenderConfig` of src/modules/message/bulk-message.service.ts: the sessions that send a batch.
pub mod Once
use wp_open_aurora.Prelude.{
  ℕ, zero, suc, ◌+◌, ◌*◌, ◌/◌, max, String, Bool, true, false, not, ◌&&◌, Option, none, some, List,
  [], ◌∷◌, ◌++◌, ◌==◌, eq_iff, ◌≡◌, refl, ap, ◌∙◌, arith, if◌then◌else◌, is_empty, or_default, leb,
  eqb, length, get_elem?, filter, includes, any-append, inl, inr, Bool-cases, Option-cases,
}
use wp_open_aurora.Prelude.Results.{Result, ok, err}
use wp_open_aurora.Messages.Retry.{Random}

pub record SenderConfig : Type 0 where
  pub source_session_ids : List String
  pub rotate_after_count : ℕ
  pub shuffle_senders : Bool

-- `Array.from(new Set(ids))`, from the elements that the set holds already
unfoldable pub dedupe : List String → List String → List String
dedupe acc [] = acc
dedupe acc (x ∷ xs) = dedupe (if includes x acc then acc else acc ++ x ∷ []) xs

unfoldable pub set_elem : ℕ → String → List String → List String
set_elem i a [] = []
set_elem zero a (x ∷ xs) = a ∷ xs
set_elem (suc i) a (x ∷ xs) = x ∷ set_elem i a xs

-- `[ids[i], ids[j]] = [ids[j], ids[i]]` for indices in range
unfoldable pub swap : ℕ → ℕ → List String → List String
unfolding set_elem
swap i j xs = elim (get_elem? xs i) [
  | none ↦ xs
  | some a ↦ elim (get_elem? xs j) [ none ↦ xs | some b ↦ set_elem j a (set_elem i b xs) ]
]

-- `Math.floor(Math.random() * (index + 1))`
abbrev pub swap_index : Random → ℕ → ℕ
swap_index r index = r.num * (index + 1) / r.den

-- The loop from `index` down to 1; the random number of each turn stands by its index.
unfoldable pub shuffle_from : (ℕ → Random) → ℕ → List String → List String
unfolding swap
shuffle_from random zero xs = xs
shuffle_from random (suc i) xs =
    shuffle_from random i (swap (suc i) (swap_index (random (suc i)) (suc i)) xs)

abbrev pub last_index : List String → ℕ
last_index [] = 0
last_index (x ∷ xs) = length xs

-- `is_ready` is whether a session is stored and has an engine. The error lists those that are not.
unfoldable pub resolve_sender_config :
    (ℕ → Random)
    → (is_ready : String → Bool) → String
    → List String
    → Option ℕ
    → Bool
    → Result (List String) SenderConfig
unfolding dedupe shuffle_from
resolve_sender_config random is_ready route_session_id source_session_ids rotate shuffle =
    let ids = dedupe [] (filter (λ s. not (is_empty s)) (route_session_id ∷ source_session_ids)) in
    let invalid = filter (λ s. not (is_ready s)) ids in
    if leb 1 (length invalid)
    then err invalid
    else ok (record {
      source_session_ids = if shuffle then shuffle_from random (last_index ids) ids else ids;
      rotate_after_count = max 1 (or_default rotate 5);
      shuffle_senders = shuffle;
    })
