-- ===== src/Engine/Json.antt =====
-- src/engine/adapters/evolution-go-message-mapper.ts: how it reads JSON values. Numbers are naturals;
-- `show` is the decimal text of one.
use wp_open_aurora.Prelude.{
  ℕ, String, Bool, true, false, Option, none, some, List, [], ◌∷◌, ◌==◌, not, if◌then◌else◌, ltb,
  ◌/◌,
}

mutual
  pub data Json : Type 0 where
    null : Json
    bool : Bool → Json
    num : ℕ → Json
    text : String → Json
    arr : Items → Json
    obj : Fields → Json

  pub data Items : Type 0 where
    nil : Items
    cons : Json → Items → Items

  pub data Fields : Type 0 where
    end : Fields
    field : String → Json → Fields → Fields

abbrev pub is_null : Json → Bool
is_null null = true
is_null _ = false

-- `value[key]`, with none for undefined and for null.
unfoldable pub lookup : String → Fields → Option Json
lookup key end = none
lookup key (field k v fs) = if k == key then (if is_null v then none else some v) else lookup key fs

unfoldable pub first : Option Fields → List String → Option Json
unfolding lookup
first none keys = none
first (some fs) [] = none
first (some fs) (key ∷ keys) = elim (lookup key fs) [
  | some v ↦ some v
  | none ↦ first (some fs) keys
]

-- `record(value)`
unfoldable pub record_of : Option Json → Option Fields
record_of (some (obj fs)) = some fs
record_of _ = none

unfoldable pub bool_of : Option Json → Bool
bool_of (some (bool b)) = b
bool_of (some (text s)) = s == "true"
bool_of _ = false

abbrev pub items : Items → List Json
items nil = []
items (cons v vs) = v ∷ items vs

unfoldable pub array_of : Option Json → Option (List Json)
array_of (some (arr vs)) = some (items vs)
array_of _ = none

unfoldable pub text_of : (ℕ → String) → Option Json → String
text_of show (some (text s)) = s
text_of show (some (num n)) = show n
text_of show _ = ""

-- Whether JavaScript takes the value for true.
abbrev pub is_truthy : Option Json → Bool
is_truthy none = false
is_truthy (some null) = false
is_truthy (some (bool b)) = b
is_truthy (some (num n)) = ltb 0 n
is_truthy (some (text s)) = not (s == "")
is_truthy (some _) = true

abbrev in_seconds : ℕ → ℕ
in_seconds n = if ltb 10_000_000_000 n then n / 1000 else n

abbrev or_next : Option ℕ → Option ℕ → Option ℕ
or_next none other = other
or_next (some n) other = some n

-- `to_number` is `Number` and `parse_date` is `Date.parse`, each with none for what is not finite.
module _ (to_number parse_date : String → Option ℕ) (now : ℕ) where
  unfoldable mutual
    pub unix_seconds : Json → ℕ
    unix_seconds (num n) = in_seconds n
    unix_seconds (text s) = elim (to_number s) [
      | some n ↦ in_seconds n
      | none ↦ elim (parse_date s) [ some ms ↦ ms / 1000 | none ↦ now ]
    ]
    unix_seconds (obj fs) =
        elim (or_next (seconds_at "seconds" fs) (
          or_next (seconds_at "Seconds" fs)
            (or_next (seconds_at "low" fs) (seconds_at "Low" fs)))) [ some n ↦ n | none ↦ now ]
    unix_seconds (bool b) = now
    unix_seconds null = now
    unix_seconds (arr vs) = now

    pub seconds_at : String → Fields → Option ℕ
    seconds_at key end = none
    seconds_at key (field k v fs) =
        let here = unix_seconds v in
        let rest = seconds_at key fs in
        if k == key then (if is_null v then none else some here) else rest
