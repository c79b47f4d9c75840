-- ===== src/Sessions/Tasks.antt =====
-- A property of all the tasks in flight, when one of them is taken up.
use mathlib.Core.Path.{subst}
use wp_open_aurora.Prelude.{
  any, Bool, ◌||◌, arith, ℕ, zero, suc, ◌≡◌, refl, Option, none, some, List, [], ◌∷◌, All, inl, inr,
  Option-cases,
}
use wp_open_aurora.Sessions.{Task}
use wp_open_aurora.Sessions.Steps.{pull}

module _ (P : Task → Type 0) where
  unfoldable pub Pulled : Option (Task × List Task) → Type 0
  Pulled none = Unit
  Pulled (some (t, ts)) = P t × All P ts

  pub pull-Pulled : (n : ℕ) (ts : List Task) → All P ts → Pulled (pull n ts)
  unfolding Pulled pull
  pull-Pulled n [] h = tt
  pull-Pulled zero (t ∷ ts) h = h
  pull-Pulled (suc n) (t ∷ ts) (p, h) =
      let rest = pull-Pulled n ts h in
      elim (Option-cases (pull n ts)) [
        | inl e ↦ rw (pull, e) tt
        | inr ((u, us), e) ↦ let (q, qs) = rw e at rest in rw (pull, e) (q, (p, qs))
      ]

-- The tasks have one with `p` just if the one taken up or one of the rest has it.
unfoldable pub Counted : (Task → Bool) → List Task → Option (Task × List Task) → Type 0
Counted p ts none = Unit
Counted p ts (some (t, us)) = any p ts ≡ (p t || any p us)

pub pull-Counted : (p : Task → Bool) (n : ℕ) (ts : List Task) → Counted p ts (pull n ts)
unfolding Counted pull
pull-Counted p n [] = tt
pull-Counted p zero (t ∷ ts) = refl
pull-Counted p (suc n) (t ∷ ts) =
    let rest = pull-Counted p n ts in
    elim (Option-cases (pull n ts)) [
      | inl e ↦ rw (pull, e) tt
      | inr ((u, us), e) ↦ let q = subst (Counted p ts) e rest in rw (pull, e) (ground arith)
    ]
