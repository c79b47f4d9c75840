-- ===== src/Hooks/Chain.antt =====
-- Running the handlers of an event.
use wp_open_aurora.Prelude.{
  Bool, true, false, Option, none, List, [], ◌∷◌, ◌++◌, ◌≡◌, ◌⊎◌, ap, fun_ext, arith, if◌then◌else◌,
  or_default,
}
use wp_open_aurora.Hooks.{result, throws, HookRegistration, run_handlers}

module _ {T : Type 0} where
  abbrev pub IsFaulty : HookRegistration T → Type 0
  IsFaulty r = (d : T) → (r.handler d ≡ throws) ⊎ (r.handler d ≡ result true none true)

  abbrev pub IsStopping : HookRegistration T → Type 0
  IsStopping r =
      (d : T)
      → (replacement : Option T) × (has_error : Bool) × (r.handler d
          ≡ result false replacement has_error)

  run_handlers-cons :
      (x : HookRegistration T) (us vs : List (HookRegistration T))
      → run_handlers us ≡ run_handlers vs
      → (d : T) → run_handlers (x ∷ us) d ≡ run_handlers (x ∷ vs) d
  unfolding run_handlers
  run_handlers-cons x us vs h d = λ i. elim (x.handler d) [
    | throws ↦ h i d
    | result c p e ↦ if c then h i (or_default p d) else (false, or_default p d)
  ]

  run_handlers-append :
      (xs us vs : List (HookRegistration T))
      → run_handlers us ≡ run_handlers vs
      → run_handlers (xs ++ us) ≡ run_handlers (xs ++ vs)
  run_handlers-append [] us vs h = h
  run_handlers-append (x ∷ xs) us vs h =
      fun_ext (run_handlers-cons x (xs ++ us) (xs ++ vs) (run_handlers-append xs us vs h))

  run_handlers_skip :
      (r : HookRegistration T) (ys : List (HookRegistration T))
      → IsFaulty r
      → (d : T) → run_handlers (r ∷ ys) d ≡ run_handlers ys d
  unfolding run_handlers
  run_handlers_skip r ys f d = ground (arith, f d)

  run_handlers_stop :
      (r : HookRegistration T) (ys : List (HookRegistration T))
      → IsStopping r
      → (d : T) → run_handlers (r ∷ ys) d ≡ run_handlers (r ∷ []) d
  unfolding run_handlers
  run_handlers_stop r ys f d = let (p, e, h) = f d in ground (arith, h)

  -- A handler that always fails, by an exception or by an error with no data, does not change what
  -- the chain of an event answers, wherever it stands.
  pub run_handlers_faulty :
      (xs ys : List (HookRegistration T)) (r : HookRegistration T) (d : T)
      → IsFaulty r
      → run_handlers (xs ++ r ∷ ys) d ≡ run_handlers (xs ++ ys) d
  run_handlers_faulty xs ys r d f =
      ap (λ (g : T → Bool × T). g d)
        (run_handlers-append xs (r ∷ ys) ys (fun_ext (run_handlers_skip r ys f)))

  -- A handler that always stops the chain leaves the handlers behind it without effect.
  pub run_handlers_stopping :
      (xs ys : List (HookRegistration T)) (r : HookRegistration T) (d : T)
      → IsStopping r
      → run_handlers (xs ++ r ∷ ys) d ≡ run_handlers (xs ++ r ∷ []) d
  run_handlers_stopping xs ys r d f =
      ap (λ (g : T → Bool × T). g d)
        (run_handlers-append xs (r ∷ ys) (r ∷ []) (fun_ext (run_handlers_stop r ys f)))
