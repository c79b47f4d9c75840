-- ===== src/Translation/Targets.antt =====
-- The languages that a message goes out in.
use wp_open_aurora.Prelude.{
  String, Bool, true, false, not, ◌&&◌, ◌||◌, Option, none, some, List, [], ◌∷◌, ◌==◌, eq_iff,
  eq_refl, ◌≡◌, ◌⊎◌, refl, ap, arith, is_empty, any, any-append, filter, includes, inl, inr,
  Bool-cases, Option-cases, Map,
}
use wp_open_aurora.Translation.{ParticipantState, GroupState}
use wp_open_aurora.Translation.Groups.{
  same_text, add_to_set, languages_where, known_languages, target_languages, choose_targets,
}

-- A participant who is not ignored speaks the language.
abbrev pub speaks : String → String × ParticipantState → Bool
speaks l (wid, p) = p.enabled && same_text p.lang (some l) && not (is_empty l)

includes_eq : (x y : String) (xs : List String) → (x == y) ≡ true → includes x xs ≡ includes y xs
includes_eq x y xs h = ap (λ z. includes z xs) ((eq_iff x y).0 h)

pub includes-add_to_set :
    (x y : String) (xs : List String) → includes y (add_to_set x xs) ≡ (includes y xs || x == y)
includes-add_to_set x y xs = elim (Bool-cases (includes x xs)) [
  | inl e ↦ ground (arith, e, includes_eq x y xs)
  | inr e ↦ ground (arith, e, any-append (λ t. t == y) xs (x ∷ []))
]

pub test_eq : (q : String → Bool) (k l : String) → (k == l) ≡ true → q k ≡ q l
test_eq q k l h = ap q ((eq_iff k l).0 h)

includes-languages_where :
    (q : String → Bool) (acc : List String) (ps : Map ParticipantState) (l : String)
    → includes l (languages_where q acc ps) ≡ (includes l acc || q l && any (speaks l) ps)
unfolding languages_where
includes-languages_where q acc [] l = ground arith
includes-languages_where q acc ((wid, p) ∷ ps) l = elim (Option-cases p.lang) [
  | inl e ↦ ground (arith, e, includes-languages_where q acc ps l)
  | inr (k, e) ↦ ground (
    arith,
    e,
    includes-languages_where q acc ps l,
    includes-languages_where q (add_to_set k acc) ps l,
    includes-add_to_set k l acc,
    test_eq q k l,
    test_eq (λ x. is_empty x) k l,
  )
]

pub includes-filter :
    (q : String → Bool) (xs : List String) (l : String)
    → includes l (filter q xs) ≡ (includes l xs && q l)
includes-filter q [] l = refl
includes-filter q (x ∷ xs) l = ground (arith, includes-filter q xs l, test_eq q x l)

-- A participant who is not ignored has a language that passes the test.
abbrev listens : (String → Bool) → String × ParticipantState → Bool
listens q (wid, p) = elim p.lang [ none ↦ false | some k ↦ p.enabled && not (is_empty k) && q k ]

listens-speaks :
    (q : String → Bool) (ps : Map ParticipantState)
    → any (listens q) ps ≡ true
    → (k : String) × (any (speaks k) ps ≡ true) × (q k ≡ true)
listens-speaks q [] h = ground (arith, h)
listens-speaks q ((wid, p) ∷ ps) h = elim (Bool-cases (any (listens q) ps)) [
  | inl e ↦ let (k, a, b) = listens-speaks q ps e in (k, ground (arith, a), b)
  | inr e ↦ elim (Option-cases p.lang) [
    | inl f ↦ ground (arith, h, e, f)
    | inr (k, f) ↦ (k, ground (arith, h, e, f, eq_refl k), ground (arith, h, e, f))
  ]
]

speaks-listens :
    (q : String → Bool) (ps : Map ParticipantState) (k : String)
    → any (speaks k) ps ≡ true
    → q k ≡ true
    → any (listens q) ps ≡ true
speaks-listens q [] k h t = ground (arith, h)
speaks-listens q ((wid, p) ∷ ps) k h t = elim (Option-cases p.lang) [
  | inl f ↦ ground (arith, h, t, f, speaks-listens q ps k)
  | inr (j, f) ↦
      ground (arith, h, t, f, speaks-listens q ps k, test_eq q j k, test_eq (λ x. is_empty x) j k)
]

-- Somebody who is not ignored speaks a language that is neither the message's nor the sender's.
abbrev pub has_listener : GroupState → String → Option String → Bool
has_listener s source sender_lang =
    any (listens (λ k. not (k == source) && not (same_text (some k) sender_lang))) s.participants

List-cases : (xs : List String) → (xs ≡ []) ⊎ ((y : String) × (ys : List String) × (xs ≡ y ∷ ys))
List-cases [] = inl refl
List-cases (y ∷ ys) = inr (y, ys, refl)

module _ (q : String → Bool) (ps : Map ParticipantState) where
  nobody_listens : languages_where q [] ps ≡ [] → any (listens q) ps ≡ false
  nobody_listens e = elim (Bool-cases (any (listens q) ps)) [
    | inr f ↦ f
    | inl f ↦
        let (k, a, b) = listens-speaks q ps f in
        ground (arith, a, b, e, includes-languages_where q [] ps k)
  ]

  somebody_listens :
      (y : String) (ys : List String) → languages_where q [] ps ≡ y ∷ ys → any (listens q) ps ≡ true
  somebody_listens y ys e =
      let r = includes-languages_where q [] ps y in
      let found : includes y (languages_where q [] ps) ≡ true = ground (arith, e, eq_refl y) in
      speaks-listens q ps y (ground (arith, r, found)) (ground (arith, r, found))

-- A message goes out in a language exactly when a participant who is not ignored speaks it, it is not
-- the message's own, and it is not the sender's either, unless nobody listens in any such language.
pub choose_targets_lem :
    (s : GroupState) (source : String) (sender_lang : Option String) (l : String)
    → includes l (choose_targets s source sender_lang) ≡ (
        any (speaks l) s.participants
        && not (l == source)
        && (not (same_text (some l) sender_lang) || not (has_listener s source sender_lang)))
unfolding choose_targets known_languages target_languages
choose_targets_lem s source sender_lang l =
    let q : String → Bool = λ k. not (k == source) && not (same_text (some k) sender_lang) in
    let ps = s.participants in
    let other = includes-languages_where q [] ps l in
    let known = includes-languages_where (λ k. true) [] ps l in
    elim (List-cases (target_languages s source sender_lang)) [
      | inl e ↦ ground (
        arith,
        e,
        nobody_listens q ps e,
        known,
        includes-filter (λ k. not (k == source)) (known_languages s) l,
      )
      | inr (y, ys, e) ↦ ground (arith, e, somebody_listens q ps y ys e, other)
    ]
