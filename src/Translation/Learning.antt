-- ===== src/Translation/Learning.antt =====
-- The debounce of learned languages.
use wp_open_aurora.Prelude.{
  String, Bool, true, false, ◌&&◌, ◌||◌, Option, none, some, List, [], ◌∷◌, ◌==◌, eq_iff, eq_refl,
  ◌≡◌, ◌⊎◌, refl, ap, arith, inl, inr, Bool-cases, Option-cases,
}
use wp_open_aurora.Translation.{learned, pinned, ParticipantState}
use wp_open_aurora.Translation.Groups.{apply_learning, same_text}

-- The participant after messages with these detections.
unfoldable pub learn_all : String → List String → ParticipantState → ParticipantState
learn_all now [] p = p
learn_all now (d ∷ ds) p = learn_all now ds (apply_learning now d p)

-- A language stands twice in a row.
unfoldable pub has_pair : String → List String → Bool
has_pair l [] = false
has_pair l (d ∷ []) = false
has_pair l (d ∷ e ∷ ds) = d == l && e == l || has_pair l (e ∷ ds)

-- The detections that a participant still remembers, before the new ones.
abbrev pub remembered : ParticipantState → List String → List String
remembered p ds = elim p.pending_lang [ none ↦ ds | some d ↦ d ∷ ds ]

has_pair-cons :
    (l d : String) (ds : List String) → has_pair l ds ≡ true → has_pair l (d ∷ ds) ≡ true
unfolding has_pair
has_pair-cons l d [] h = h
has_pair-cons l d (e ∷ ds) h = ground (arith, h)

has_pair-remembered :
    (l : String) (p : ParticipantState) (ds : List String)
    → has_pair l ds ≡ true
    → has_pair l (remembered p ds) ≡ true
has_pair-remembered l p ds h = elim (Option-cases p.pending_lang) [
  | inl e ↦ ground (arith, e, h)
  | inr (d, e) ↦ ground (arith, e, has_pair-cons l d ds h)
]

Source-cases : (p : ParticipantState) → (p.source ≡ learned) ⊎ (p.source ≡ pinned)
Source-cases p = elim p.source as (λ s. (s ≡ learned) ⊎ (s ≡ pinned)) [
  | learned ↦ inl refl
  | pinned ↦ inr refl
]

same_text-some : (o : Option String) (d : String) → same_text o (some d) ≡ true → o ≡ some d
same_text-some none d h = ground (arith, h)
same_text-some (some a) d h = ap (λ x. some x) ((eq_iff a d).0 h)

-- What one detection does to a participant with a language.
data Learnt (d l : String) (p q : ParticipantState) : Type 0 where
  is_pinned : p.source ≡ pinned → q.source ≡ pinned → q.lang ≡ some l → Learnt d l p q
  agrees : p.source ≡ learned → q.lang ≡ some l → q.pending_lang ≡ none → Learnt d l p q
  switches :
      p.source ≡ learned
      → p.pending_lang ≡ some d
      → q.lang ≡ some d
      → q.pending_lang ≡ none
      → Learnt d l p q
  waits : p.source ≡ learned → q.lang ≡ some l → q.pending_lang ≡ some d → Learnt d l p q

apply_learning-Learnt :
    (now d l : String) (p : ParticipantState)
    → p.lang ≡ some l
    → Learnt d l p (apply_learning now d p)
unfolding apply_learning
apply_learning-Learnt now d l p h = elim (Source-cases p) [
  | inr s ↦ is_pinned s (ground (arith, s)) (ground (arith, s, h))
  | inl s ↦ elim (Bool-cases (same_text p.lang (some d))) [
    | inl e ↦ agrees s (ground (arith, s, h, e)) (ground (arith, s, e))
    | inr e ↦ elim (Bool-cases (same_text p.pending_lang (some d))) [
      | inl f ↦
          switches s (same_text-some p.pending_lang d f) (ground (arith, s, e, f))
            (ground (arith, s, e, f))
      | inr f ↦ waits s (ground (arith, s, h, e, f)) (ground (arith, s, h, e, f))
    ]
  ]
]

has_pair_twice : (l : String) (ds : List String) → has_pair l (l ∷ l ∷ ds) ≡ true
unfolding has_pair
has_pair_twice l ds = ground (arith, eq_refl l)

-- The language of a participant who has one, and is not pinned, changes only to a language that was
-- detected twice in a row, the detection still pending counted; a pinned language never changes.
pub learn_all_switches :
    (now : String) (ds : List String) (p : ParticipantState) (l l' : String)
    → p.lang ≡ some l
    → (learn_all now ds p).lang ≡ some l'
    → (l' ≡ l) ⊎ ((p.source ≡ learned) × (has_pair l' (remembered p ds) ≡ true))
unfolding learn_all
learn_all_switches now [] p l l' h k = inl (ground (arith, h, k))
learn_all_switches now (d ∷ ds) p l l' h k =
    let q = apply_learning now d p in
    let far =
      λ (e : has_pair l' ds ≡ true). has_pair-remembered l' p (d ∷ ds) (has_pair-cons l' d ds e) in
    let later = learn_all_switches now ds q in
    elim (apply_learning-Learnt now d l p h) [
      | is_pinned s s' e ↦ elim (later l l' e k) [
        | inl f ↦ inl f
        | inr (g, f) ↦ ground (arith, s', g)
      ]
      | agrees s e n ↦ elim (later l l' e k) [
        | inl f ↦ inl f
        | inr (g, f) ↦ inr (s, far (ground (arith, n, f)))
      ]
      | switches s m e n ↦ elim (later d l' e k) [
        | inl f ↦ inr (s, rw (m, f) (has_pair_twice d ds))
        | inr (g, f) ↦ inr (s, far (ground (arith, n, f)))
      ]
      | waits s e n ↦ elim (later l l' e k) [
        | inl f ↦ inl f
        | inr (g, f) ↦ inr (s, has_pair-remembered l' p (d ∷ ds) (ground (arith, n, f)))
      ]
    ]
