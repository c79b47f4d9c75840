-- ===== src/Hooks/Order.antt =====
-- The handlers of an event stand by priority, and in the order of registration within one.
use wp_open_aurora.Prelude.{
  ℕ, suc, Bool, ◌≤◌, String, true, false, List, [], ◌∷◌, ◌++◌, ◌==◌, ◌≡◌, refl, ap, arith, eq_iff,
  eq_refl, leb, ltb, if◌then◌else◌, filter, get-put, All, All-append, All-filter, Bool-cases, ◌⊎◌,
  inl, inr, ◌∙◌,
}
use wp_open_aurora.Hooks.{
  HookRegistration, HookManager, Outcome, insert, sort, registered, registration, register,
  is_other,
}

module _ {T : Type 0} where
  abbrev pub AtLeast : ℕ → List (HookRegistration T) → Type 0
  AtLeast p = All (λ (r : HookRegistration T). p ≤ r.priority)

  abbrev pub IsSorted : List (HookRegistration T) → Type 0
  IsSorted [] = Unit
  IsSorted (r ∷ rs) = AtLeast r.priority rs × IsSorted rs

  -- Those that run before a new handler of priority `p`, and those that run after it.
  abbrev pub before : ℕ → List (HookRegistration T) → List (HookRegistration T)
  before p = filter (λ r. leb r.priority p)

  abbrev pub after : ℕ → List (HookRegistration T) → List (HookRegistration T)
  after p = filter (λ r. ltb p r.priority)

  pub AtLeast-mono :
      (p q : ℕ) (rs : List (HookRegistration T)) → p ≤ q → AtLeast q rs → AtLeast p rs
  AtLeast-mono p q [] h a = tt
  AtLeast-mono p q (r ∷ rs) h (x, a) = (omega arith, AtLeast-mono p q rs h a)

  insert_first :
      (x : HookRegistration T) (rs : List (HookRegistration T))
      → AtLeast x.priority rs
      → insert x rs ≡ x ∷ rs
  unfolding insert
  insert_first x [] a = refl
  insert_first x (r ∷ rs) a = ground arith

  pub split_above :
      (p : ℕ) (rs : List (HookRegistration T))
      → AtLeast (suc p) rs
      → (after p rs ≡ rs) × (before p rs ≡ [])
  split_above p [] a = (refl, refl)
  split_above p (r ∷ rs) (x, a) = ground (arith, split_above p rs a)

  AtLeast-before :
      (p q : ℕ) (rs : List (HookRegistration T)) → AtLeast p rs → AtLeast p (before q rs)
  AtLeast-before p q rs a = All-filter _ _ rs a

  AtLeast-after : (p q : ℕ) (rs : List (HookRegistration T)) → AtLeast p rs → AtLeast p (after q rs)
  AtLeast-after p q rs a = All-filter _ _ rs a

  sort-append :
      (rs : List (HookRegistration T)) (r : HookRegistration T)
      → IsSorted rs
      → sort (rs ++ r ∷ []) ≡ before r.priority rs ++ r ∷ after r.priority rs
  unfolding sort insert
  sort-append [] r s = refl
  sort-append (x ∷ xs) r (a, s) =
      rw (sort-append xs r s) (place (Bool-cases (leb x.priority r.priority)))
    where
      p : ℕ
      p = r.priority

      place :
          ((leb x.priority p) ≡ true) ⊎ ((leb x.priority p) ≡ false)
          → insert x (before p xs ++ r ∷ after p xs) ≡ before p (x ∷ xs) ++ r ∷ after p (x ∷ xs)
      place (inl e) =
          insert_first x (before p xs ++ r ∷ after p xs) (
            All-append _ (before p xs) (r ∷ after p xs) (AtLeast-before x.priority p xs a)
              (ground arith, AtLeast-after x.priority p xs a))
          ∙ ground arith
      place (inr e) =
          let above = split_above p xs (AtLeast-mono (suc p) x.priority xs (ground arith) a) in
          ground (arith, above, insert_first x xs a)

  insert-AtLeast :
      (p : ℕ) (x : HookRegistration T) (rs : List (HookRegistration T))
      → p ≤ x.priority
      → AtLeast p rs
      → AtLeast p (insert x rs)
  unfolding insert
  insert-AtLeast p x [] h a = (h, tt)
  insert-AtLeast p x (r ∷ rs) h (k, a) = ground (arith, insert-AtLeast p x rs h a)

  insert-IsSorted :
      (x : HookRegistration T) (rs : List (HookRegistration T))
      → IsSorted rs
      → IsSorted (insert x rs)
  unfolding insert
  insert-IsSorted x [] s = (tt, tt)
  insert-IsSorted x (r ∷ rs) (a, s) = ground (
    arith,
    insert-IsSorted x rs s,
    insert-AtLeast r.priority x rs,
    AtLeast-mono x.priority r.priority rs,
  )

  pub sort-IsSorted : (rs : List (HookRegistration T)) → IsSorted (sort rs)
  unfolding sort
  sort-IsSorted [] = tt
  sort-IsSorted (x ∷ xs) = insert-IsSorted x (sort xs) (sort-IsSorted xs)

  -- The list of every event stands by priority.
  abbrev pub IsOrdered : HookManager T → Type 0
  IsOrdered m = (event : String) → IsSorted (registered event m)

  pub register-registered :
      (plugin_id event : String) (handler : T → Outcome T) (priority : ℕ) (stamp : String)
      (m : HookManager T) (other : String)
      → registered other (register plugin_id event handler priority stamp m).0 ≡ (
          if event == other
          then sort (registered event m ++ registration plugin_id event handler priority stamp ∷ [])
          else registered other m)
  unfolding register
  register-registered plugin_id event handler priority stamp m other =
      let r = registration plugin_id event handler priority stamp in
      ground (arith, get-put event other (sort (registered event m ++ r ∷ [])) m.hooks)

  pub register-IsOrdered :
      (plugin_id event : String) (handler : T → Outcome T) (priority : ℕ) (stamp : String)
      (m : HookManager T)
      → IsOrdered m
      → IsOrdered (register plugin_id event handler priority stamp m).0
  register-IsOrdered plugin_id event handler priority stamp m o other =
      rw (register-registered plugin_id event handler priority stamp m other)
        (elim (Bool-cases (event == other)) [
          | inl e ↦ rw e (sort-IsSorted _)
          | inr e ↦ rw e (o other)
        ])

  -- A new handler runs after the handlers of its event with the same or a smaller priority and
  -- before the others, whose order stays; the other events keep their handlers. The lists stand in
  -- order before.
  pub register_order :
      (plugin_id event : String) (handler : T → Outcome T) (priority : ℕ) (stamp : String)
      (m : HookManager T) (other : String)
      → IsOrdered m
      → registered other (register plugin_id event handler priority stamp m).0 ≡ (
          if event == other
          then before priority (registered event m)
            ++ registration plugin_id event handler priority stamp
              ∷ after priority (registered event m)
          else registered other m)
  register_order plugin_id event handler priority stamp m other o =
      let r = registration plugin_id event handler priority stamp in
      rw (register-registered plugin_id event handler priority stamp m other) (
        ap (λ rs. if event == other then rs else registered other m)
          (sort-append (registered event m) r (o event)))

  before-after :
      (p : ℕ) (rs : List (HookRegistration T)) → IsSorted rs → before p rs ++ after p rs ≡ rs
  before-after p [] s = refl
  before-after p (r ∷ rs) (a, s) = elim (Bool-cases (leb r.priority p)) [
    | inl e ↦ ground (arith, e, before-after p rs s)
    | inr e ↦
        ground (arith, e, split_above p rs (AtLeast-mono (suc p) r.priority rs (ground arith) a))
  ]

  filter-append :
      (q : HookRegistration T → Bool) (xs ys : List (HookRegistration T))
      → filter q (xs ++ ys) ≡ filter q xs ++ filter q ys
  filter-append q [] ys = refl
  filter-append q (x ∷ xs) ys = ground (arith, filter-append q xs ys)

  -- A handler of a plugin does not show in the lists without that plugin.
  pub register_others :
      (plugin_id event : String) (handler : T → Outcome T) (priority : ℕ) (stamp : String)
      (m : HookManager T) (other : String)
      → IsOrdered m
      → filter
          (is_other plugin_id)
          (registered other (register plugin_id event handler priority stamp m).0)
        ≡ filter (is_other plugin_id) (registered other m)
  register_others plugin_id event handler priority stamp m other o =
      let r = registration plugin_id event handler priority stamp in
      let q : HookRegistration T → Bool = is_other plugin_id in
      let xs = before priority (registered event m) in
      let ys = after priority (registered event m) in
      rw (register_order plugin_id event handler priority stamp m other o) (
        ground (
          arith,
          eq_iff event other,
          eq_refl plugin_id,
          filter-append q xs (r ∷ ys),
          filter-append q xs ys,
          before-after priority (registered event m) (o event),
        ))
