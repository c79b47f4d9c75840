-- ===== src/History/PhoneCache.antt =====
-- `resolveSenderPhone` of src/modules/session/session.service.ts: the bounded cache of the phone numbers
-- behind privacy ids. A key is the id of the session and of the contact. What the engine would answer
-- may differ from one lookup to the next, and so may whether the session has one.
use wp_open_aurora.Prelude.{
  ℕ, suc, ◌+◌, ◌≤◌, String, Bool, true, false, Option, none, some, List, [], ◌∷◌, ◌≡◌, ◌⊎◌, refl,
  sym, arith, inl, inr, All, length, leb, if◌then◌else◌, Map, get, put, get-put, eq_refl, ◌==◌,
  eq_iff, Option-cases, Bool-cases,
}
use wp_open_aurora.Prelude.Results.{Result, ok, err, Result-cases}

unfoldable pub lid_phone_cache_max : ℕ
lid_phone_cache_max = 5000

abbrev PhoneCache : Type 0
PhoneCache = Map (Option String)

-- The first key of a Map is the oldest.
unfoldable pub evict : PhoneCache → PhoneCache
unfolding lid_phone_cache_max
evict cache =
    if leb lid_phone_cache_max (length cache)
    then elim cache [ [] ↦ [] | x ∷ rest ↦ rest ]
    else cache

-- A lookup: the engine of the session at that time, if it has one, as what it answers on the contact.
pub record Lookup : Type 0 where
  pub key : String
  pub engine : Option (Result String (Option String))

-- `(await this.getEngine(sessionId)?.resolveContactPhone(contactId)) ?? null`
unfoldable pub answer_of : Option (Result String (Option String)) → Result String (Option String)
answer_of none = ok none
answer_of (some answer) = answer

unfoldable pub resolve_sender_phone : Lookup → PhoneCache → Option String × PhoneCache
unfolding evict get put answer_of
resolve_sender_phone l cache = elim (get l.key cache) [
  | some phone ↦ (phone, cache)
  | none ↦ elim (answer_of l.engine) [
    | err _ ↦ (none, cache)
    | ok phone ↦ (phone, put l.key phone (evict cache))
  ]
]

-- An earlier lookup of the key was answered so, by the engine or for want of one.
pub data Heard (key : String) (phone : Option String) : List Lookup → Type 0 where
  here :
      {l : Lookup} {ls : List Lookup}
      → l.key ≡ key
      → answer_of l.engine ≡ ok phone
      → Heard key phone (l ∷ ls)
  before : {l : Lookup} {ls : List Lookup} → Heard key phone ls → Heard key phone (l ∷ ls)

abbrev pub throws : Lookup → Bool
throws l = elim (answer_of l.engine) [ ok phone ↦ false | err e ↦ true ]

-- What holds of one lookup after the ones of `past`: it is answered as it or one of them was, or the
-- engine throws and the answer is null; the cache keeps its bound; and unless the engine throws, the
-- answer is in the cache, for the next lookup of the key.
pub record IsAnswered (past : List Lookup) (l : Lookup) (r : Option String × PhoneCache)
    : Type 0 where
  pub heard : Heard l.key r.0 (l ∷ past) ⊎ ((throws l ≡ true) × (r.0 ≡ none))
  pub bounded : length r.1 ≤ lid_phone_cache_max
  pub kept : throws l ≡ false → get l.key r.1 ≡ some r.0

-- And of a sequence of lookups, each with the cache that the one before it leaves.
unfoldable pub AreAnswered : List Lookup → List Lookup → PhoneCache → Type 0
AreAnswered past [] cache = Unit
AreAnswered past (l ∷ ls) cache =
    IsAnswered past l (resolve_sender_phone l cache)
    × AreAnswered (l ∷ past) ls (resolve_sender_phone l cache).1

abbrev HeardOf : List Lookup → String × Option String → Type 0
HeardOf past e = Heard e.0 e.1 past

-- Every entry is an answer of an earlier lookup, and there are no more than the limit.
record IsCache (past : List Lookup) (cache : PhoneCache) : Type 0 where
  told : All (HeardOf past) cache
  bounded : length cache ≤ lid_phone_cache_max

All-before :
    (past : List Lookup) (l : Lookup) (cache : PhoneCache)
    → All (HeardOf past) cache
    → All (HeardOf (l ∷ past)) cache
All-before past l [] h = tt
All-before past l (e ∷ cache) (t, h) = (before t, All-before past l cache h)

get-Heard :
    (past : List Lookup) (key : String) (cache : PhoneCache) (phone : Option String)
    → All (HeardOf past) cache
    → get key cache ≡ some phone
    → Heard key phone past
unfolding get
get-Heard past key [] phone h e = cc
get-Heard past key ((k, p) ∷ cache) phone (t, h) e = elim (Bool-cases (k == key)) [
  | inl q ↦
      let same : k ≡ key = (eq_iff k key).0 q in
      let found : p ≡ phone = ground (arith, q) in rw (sym same, sym found) t
  | inr other ↦ get-Heard past key cache phone h (ground (arith, other))
]

put-Heard :
    (past : List Lookup) (key : String) (phone : Option String) (cache : PhoneCache)
    → Heard key phone past
    → All (HeardOf past) cache
    → All (HeardOf past) (put key phone cache)
unfolding put
put-Heard past key phone [] e h = (e, tt)
put-Heard past key phone ((k, p) ∷ cache) e (t, h) = elim (Bool-cases (k == key)) [
  | inl q ↦ rw (put, q) (e, h)
  | inr other ↦ rw (put, other) (t, put-Heard past key phone cache e h)
]

length-put :
    (key : String) (phone : Option String) (cache : PhoneCache)
    → length (put key phone cache) ≤ length cache + 1
unfolding put
length-put key phone [] = omega arith
length-put key phone ((k, p) ∷ cache) = ground (arith, length-put key phone cache)

evict-IsCache :
    (past : List Lookup) (cache : PhoneCache)
    → IsCache past cache
    → All (HeardOf past) (evict cache) × (length (evict cache) + 1 ≤ lid_phone_cache_max)
unfolding evict lid_phone_cache_max
evict-IsCache past [] c = (tt, omega arith)
evict-IsCache past ((k, p) ∷ cache) c = elim (Bool-cases (leb 5000 (suc (length cache)))) [
  | inl full ↦ rw full (c.told.1, omega (arith, c.bounded))
  | inr room ↦ rw room (c.told, ground (arith, room))
]

resolve_sender_phone_lem :
    (past : List Lookup) (l : Lookup) (cache : PhoneCache)
    → IsCache past cache
    → IsAnswered past l (resolve_sender_phone l cache)
      × IsCache (l ∷ past) (resolve_sender_phone l cache).1
unfolding resolve_sender_phone
resolve_sender_phone_lem past l cache c = elim (Option-cases (get l.key cache)) [
  | inr (phone, e) ↦
      rw (resolve_sender_phone, e)
        (
          record {
            heard = inl (before (get-Heard past l.key cache phone c.told e));
            bounded = c.bounded;
            kept = λ t. e;
          },
          record { told = All-before past l cache c.told; bounded = c.bounded },
        )
  | inl e ↦ elim (Result-cases (answer_of l.engine)) [
    | inr (x, f) ↦
        let thrown : throws l ≡ true = rw (throws, f) refl in
        rw (resolve_sender_phone, e, f)
          (
            record { heard = inr (thrown, refl); bounded = c.bounded; kept = λ t. cc },
            record { told = All-before past l cache c.told; bounded = c.bounded },
          )
    | inl (phone, f) ↦
        let (told, room) = evict-IsCache past cache c in
        let small : length (put l.key phone (evict cache)) ≤ lid_phone_cache_max =
          omega (arith, length-put l.key phone (evict cache)) in
        let stored : get l.key (put l.key phone (evict cache)) ≡ some phone =
          ground (arith, get-put l.key l.key phone (evict cache), eq_refl l.key) in
        rw (resolve_sender_phone, e, f)
          (
            record { heard = inl (here refl f); bounded = small; kept = λ t. stored },
            record {
              told =
                  put-Heard (l ∷ past) l.key phone (evict cache) (here refl f)
                    (All-before past l (evict cache) told);
              bounded = small;
            },
          )
  ]
]

answered_from :
    (past ls : List Lookup) (cache : PhoneCache) → IsCache past cache → AreAnswered past ls cache
unfolding AreAnswered
answered_from past [] cache c = tt
answered_from past (l ∷ ls) cache c =
    let (now, c') = resolve_sender_phone_lem past l cache c in
    (now, answered_from (l ∷ past) ls (resolve_sender_phone l cache).1 c')

-- Over any sequence of lookups, whatever the engines answer and whether there is one, each lookup is
-- answered as it or an earlier lookup of its key was, or with null where the engine throws; what is
-- answered without a throw is kept for the next lookup, and the cache never holds more than its limit.
pub resolve_all_lem : (ls : List Lookup) → AreAnswered [] ls []
unfolding lid_phone_cache_max
resolve_all_lem ls = answered_from [] ls [] (record { told = tt; bounded = omega arith })
