-- ===== src/Engine/Sorting.antt =====
-- The sort of a history sync keeps its entries, and brings them into the order of time.
use wp_open_aurora.Prelude.{
  ℕ, ◌≤◌, String, Bool, false, ◌||◌, List, [], ◌∷◌, ◌++◌, ◌≡◌, refl, arith, inl, inr, any,
  any-append, leb, ◌==◌, eq_iff, Bool-cases, All,
}
use wp_open_aurora.Engine.Sync.{HistoryEntry, insert, sort}

abbrev pub id_of : HistoryEntry → String
id_of e = e.message.id

-- No entry is older than one before it.
abbrev pub IsSorted : List HistoryEntry → Type 0
IsSorted [] = Unit
IsSorted (e ∷ es) = All (λ x. e.message.timestamp ≤ x.message.timestamp) es × IsSorted es

abbrev pub has_id : String → List HistoryEntry → Bool
has_id id = any (λ e. id_of e == id)

-- No id twice.
abbrev pub HasUniqueIds : List HistoryEntry → Type 0
HasUniqueIds [] = Unit
HasUniqueIds (e ∷ es) = (has_id (id_of e) es ≡ false) × HasUniqueIds es

insert-All :
    (n : ℕ) (e : HistoryEntry) (es : List HistoryEntry)
    → n ≤ e.message.timestamp
    → All (λ x. n ≤ x.message.timestamp) es
    → All (λ x. n ≤ x.message.timestamp) (insert e es)
unfolding insert
insert-All n e [] h a = (h, tt)
insert-All n e (x ∷ xs) h (p, a) = elim (Bool-cases (leb e.message.timestamp x.message.timestamp)) [
  | inl q ↦ rw (insert, q) (h, (p, a))
  | inr q ↦ rw (insert, q) (p, insert-All n e xs h a)
]

All-later :
    (n k : ℕ) (es : List HistoryEntry)
    → n ≤ k
    → All (λ x. k ≤ x.message.timestamp) es
    → All (λ x. n ≤ x.message.timestamp) es
All-later n k [] h a = tt
All-later n k (x ∷ xs) h (p, a) = (omega arith, All-later n k xs h a)

insert-IsSorted : (e : HistoryEntry) (es : List HistoryEntry) → IsSorted es → IsSorted (insert e es)
unfolding insert
insert-IsSorted e [] s = (tt, tt)
insert-IsSorted e (x ∷ xs) (a, s) =
    elim (Bool-cases (leb e.message.timestamp x.message.timestamp)) [
      | inl q ↦
          let le : e.message.timestamp ≤ x.message.timestamp = ground (arith, q) in
          rw (insert, q) ((le, All-later _ _ xs le a), (a, s))
      | inr q ↦
          rw (insert, q)
            (insert-All x.message.timestamp e xs (ground (arith, q)) a, insert-IsSorted e xs s)
    ]

pub sort-IsSorted : (es : List HistoryEntry) → IsSorted (sort es)
unfolding sort
sort-IsSorted [] = tt
sort-IsSorted (e ∷ es) = insert-IsSorted e (sort es) (sort-IsSorted es)

has_id-insert :
    (id : String) (e : HistoryEntry) (es : List HistoryEntry)
    → has_id id (insert e es) ≡ ((id_of e == id) || has_id id es)
unfolding insert
has_id-insert id e [] = refl
has_id-insert id e (x ∷ xs) = ground (arith, has_id-insert id e xs)

pub has_id-sort : (id : String) (es : List HistoryEntry) → has_id id (sort es) ≡ has_id id es
unfolding sort
has_id-sort id [] = refl
has_id-sort id (e ∷ es) = ground (arith, has_id-insert id e (sort es), has_id-sort id es)

insert-HasUniqueIds :
    (e : HistoryEntry) (es : List HistoryEntry)
    → has_id (id_of e) es ≡ false
    → HasUniqueIds es
    → HasUniqueIds (insert e es)
unfolding insert
insert-HasUniqueIds e [] h u = (refl, tt)
insert-HasUniqueIds e (x ∷ xs) h (p, u) =
    elim (Bool-cases (leb e.message.timestamp x.message.timestamp)) [
      | inl q ↦ rw (insert, q) (h, (p, u))
      | inr q ↦
          rw (insert, q)
            (
              ground (
                arith,
                has_id-insert (id_of x) e xs,
                eq_iff (id_of x) (id_of e),
                eq_iff (id_of e) (id_of x),
              ),
              insert-HasUniqueIds e xs (ground arith) u,
            )
    ]

pub sort-HasUniqueIds : (es : List HistoryEntry) → HasUniqueIds es → HasUniqueIds (sort es)
unfolding sort
sort-HasUniqueIds [] u = tt
sort-HasUniqueIds (e ∷ es) (h, u) =
    insert-HasUniqueIds e (sort es) (ground (arith, has_id-sort (id_of e) es))
      (sort-HasUniqueIds es u)

pub append-HasUniqueIds :
    (e : HistoryEntry) (es : List HistoryEntry)
    → has_id (id_of e) es ≡ false
    → HasUniqueIds es
    → HasUniqueIds (es ++ e ∷ [])
append-HasUniqueIds e [] h u = (refl, tt)
append-HasUniqueIds e (x ∷ xs) h (p, u) = (
  ground (
    arith,
    any-append (λ y. id_of y == id_of x) xs (e ∷ []),
    eq_iff (id_of x) (id_of e),
    eq_iff (id_of e) (id_of x),
  ),
  append-HasUniqueIds e xs (ground arith) u,
)
