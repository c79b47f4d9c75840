-- ===== src/Messages/Bulk/Senders/Once.antt =====
-- Each sender of a batch stands once, however they are shuffled.
use wp_open_aurora.Prelude.{
  ℕ, zero, suc, ◌+◌, ◌≤◌, max, String, Bool, true, false, not, ◌&&◌, Option, some, List, [], ◌∷◌,
  ◌++◌, ◌==◌, eq_iff, ◌≡◌, refl, ap, ◌∙◌, arith, if◌then◌else◌, is_empty, or_default, leb, eqb,
  length, get_elem?, filter, includes, any-append, inl, inr, Bool-cases, Option-cases,
}
use wp_open_aurora.Prelude.Results.{Result, ok, err}
use wp_open_aurora.Messages.Retry.{Random}
use wp_open_aurora.Messages.Bulk.Senders.{
  SenderConfig, dedupe, set_elem, swap, swap_index, shuffle_from, last_index, resolve_sender_config,
}

abbrev hit : String → String → ℕ
hit x y = if y == x then 1 else 0

-- How often a session stands in a list.
abbrev pub occurrences : String → List String → ℕ
occurrences x [] = 0
occurrences x (y ∷ ys) = hit x y + occurrences x ys

occurrences-set_elem :
    (x : String) (i : ℕ) (a b : String) (xs : List String)
    → get_elem? xs i ≡ some b
    → occurrences x (set_elem i a xs) + hit x b ≡ occurrences x xs + hit x a
unfolding set_elem
occurrences-set_elem x i a b [] h = ground (arith, h)
occurrences-set_elem x zero a b (y ∷ ys) h = ground (arith, h)
occurrences-set_elem x (suc i) a b (y ∷ ys) h = omega (arith, occurrences-set_elem x i a b ys h)

get-set_elem :
    (i j : ℕ) (a b c : String) (xs : List String)
    → get_elem? xs i ≡ some b
    → get_elem? xs j ≡ some c
    → get_elem? (set_elem i a xs) j ≡ some (if eqb i j then a else c)
unfolding set_elem
get-set_elem i j a b c [] h k = ground (arith, h)
get-set_elem zero zero a b c (y ∷ ys) h k = refl
get-set_elem zero (suc j) a b c (y ∷ ys) h k = ground (arith, k)
get-set_elem (suc i) zero a b c (y ∷ ys) h k = ground (arith, k)
get-set_elem (suc i) (suc j) a b c (y ∷ ys) h k = ground (arith, get-set_elem i j a b c ys h k)

occurrences-swap :
    (x : String) (i j : ℕ) (xs : List String) → occurrences x (swap i j xs) ≡ occurrences x xs
unfolding swap
occurrences-swap x i j xs = elim (Option-cases (get_elem? xs i)) [
  | inl e ↦ ground (arith, e)
  | inr (a, e) ↦ elim (Option-cases (get_elem? xs j)) [
    | inl f ↦ ground (arith, e, f)
    | inr (b, f) ↦
        let first = occurrences-set_elem x i b a xs e in
        let second =
          occurrences-set_elem x j a (if eqb i j then b else b) (set_elem i b xs)
            (get-set_elem i j b a b xs e f) in
        ground (arith, e, f, first, second)
  ]
]

occurrences-shuffle_from :
    (random : ℕ → Random) (x : String) (i : ℕ) (xs : List String)
    → occurrences x (shuffle_from random i xs) ≡ occurrences x xs
unfolding shuffle_from
occurrences-shuffle_from random x zero xs = refl
occurrences-shuffle_from random x (suc i) xs =
    let j = swap_index (random (suc i)) (suc i) in
    occurrences-shuffle_from random x i (swap (suc i) j xs) ∙ occurrences-swap x (suc i) j xs

occurrences-append :
    (x : String) (xs ys : List String)
    → occurrences x (xs ++ ys) ≡ occurrences x xs + occurrences x ys
occurrences-append x [] ys = omega arith
occurrences-append x (z ∷ xs) ys = omega (arith, occurrences-append x xs ys)

occurrences_none : (x : String) (xs : List String) → includes x xs ≡ false → occurrences x xs ≡ 0
occurrences_none x [] h = refl
occurrences_none x (y ∷ ys) h = ground (arith, h, occurrences_none x ys)

hit_eq : (x y : String) (xs : List String) → (y == x) ≡ true → includes y xs ≡ includes x xs
hit_eq x y xs h = ap (λ z. includes z xs) ((eq_iff y x).0 h)

occurrences-dedupe :
    (x : String) (acc xs : List String)
    → occurrences x (dedupe acc xs)
      ≡ (if includes x acc then occurrences x acc else (if includes x xs then 1 else 0))
unfolding dedupe
occurrences-dedupe x acc [] = ground (arith, occurrences_none x acc)
occurrences-dedupe x acc (y ∷ ys) = elim (Bool-cases (includes y acc)) [
  | inl e ↦ ground (arith, e, occurrences-dedupe x acc ys, hit_eq x y acc)
  | inr e ↦ ground (
    arith,
    e,
    occurrences-dedupe x (acc ++ y ∷ []) ys,
    hit_eq x y acc,
    any-append (λ t. t == x) acc (y ∷ []),
    occurrences-append x acc (y ∷ []),
    occurrences_none x acc,
  )
]

includes-filter :
    (q : String → Bool) (xs : List String) (x : String)
    → includes x (filter q xs) ≡ (includes x xs && q x)
includes-filter q [] x = refl
includes-filter q (y ∷ ys) x = ground (arith, includes-filter q ys x, test_eq y)
  where
    test_eq : (z : String) → (z == x) ≡ true → q z ≡ q x
    test_eq z h = ap q ((eq_iff z x).0 h)

includes-occurrences : (x : String) (xs : List String) → includes x xs ≡ leb 1 (occurrences x xs)
includes-occurrences x [] = ground arith
includes-occurrences x (y ∷ ys) = ground (arith, includes-occurrences x ys)

-- The session is named, by the route or among the sources, and its name is not empty.
abbrev pub is_wanted : String → List String → String → Bool
is_wanted route source_session_ids x = includes x (route ∷ source_session_ids) && not (is_empty x)

-- Every session that is wanted stands once among the senders, no other does, and each is ready; or the
-- error lists exactly those wanted that are not ready, and there is one.
abbrev pub IsResolved :
    (String → Bool) → String → List String → Result (List String) SenderConfig → Type 0
IsResolved is_ready route sources (ok config) =
    (x : String)
    → (occurrences x config.source_session_ids ≡ (if is_wanted route sources x then 1 else 0))
      × (is_wanted route sources x ≡ true → is_ready x ≡ true)
IsResolved is_ready route sources (err invalid) =
    (1 ≤ length invalid)
    × ((x : String) → includes x invalid ≡ (is_wanted route sources x && not (is_ready x)))

includes_empty : (x : String) (xs : List String) → leb 1 (length xs) ≡ false → includes x xs ≡ false
includes_empty x [] h = refl
includes_empty x (y ∷ ys) h = ground (arith, h)

module _ (random : ℕ → Random) (is_ready : String → Bool) (route : String) (sources : List String)
    (rotate : Option ℕ) (shuffle : Bool) where
  abbrev ids : List String
  ids = dedupe [] (filter (λ s. not (is_empty s)) (route ∷ sources))

  occurrences-ids : (x : String) → occurrences x ids ≡ (if is_wanted route sources x then 1 else 0)
  occurrences-ids x =
      let wanted = filter (λ s. not (is_empty s)) (route ∷ sources) in
      ground (
        arith,
        occurrences-dedupe x [] wanted,
        includes-filter (λ s. not (is_empty s)) (route ∷ sources) x,
      )

  abbrev invalid_ids : List String
  invalid_ids = filter (λ s. not (is_ready s)) ids

  includes-invalid_ids :
      (x : String) → includes x invalid_ids ≡ (is_wanted route sources x && not (is_ready x))
  includes-invalid_ids x = ground (
    arith,
    includes-filter (λ s. not (is_ready s)) ids x,
    includes-occurrences x ids,
    occurrences-ids x,
  )

  occurrences-senders :
      (x : String)
      → leb 1 (length invalid_ids) ≡ false
      → (occurrences x (if shuffle then shuffle_from random (last_index ids) ids else ids)
          ≡ (if is_wanted route sources x then 1 else 0))
        × (is_wanted route sources x ≡ true → is_ready x ≡ true)
  occurrences-senders x h = (
    ground (arith, occurrences-shuffle_from random x (last_index ids) ids, occurrences-ids x),
    λ w. ground (arith, w, includes-invalid_ids x, includes_empty x invalid_ids h),
  )

  abbrev resolved : Result (List String) SenderConfig
  resolved = ok (record {
    source_session_ids = if shuffle then shuffle_from random (last_index ids) ids else ids;
    rotate_after_count = max 1 (or_default rotate 5);
    shuffle_senders = shuffle;
  })

  resolve_sender_config-if :
      resolve_sender_config random is_ready route sources rotate shuffle
      ≡ (if leb 1 (length invalid_ids) then err invalid_ids else resolved)
  unfolding resolve_sender_config
  resolve_sender_config-if = refl

  -- However the senders are shuffled, every session that is wanted stands once among them, no other does,
  -- and each is ready; or the error lists exactly those wanted that are not ready, and there is one.
  pub resolve_sender_config-IsResolved :
      IsResolved is_ready route sources
        (resolve_sender_config random is_ready route sources rotate shuffle)
  resolve_sender_config-IsResolved =
      rw resolve_sender_config-if (elim (Bool-cases (leb 1 (length invalid_ids))) [
        | inl e ↦ rw e (ground (arith, e), includes-invalid_ids)
        | inr e ↦ rw e (λ x. occurrences-senders x e)
      ])
