-- ===== src/Prelude/Text.antt =====
-- The string functions of JavaScript that the program calls, over the code points of a text.
-- `trim` and `\s` know the white space of ECMAScript.
use Prim.Native.Char.{Char, code}
use Prim.Native.String
use Prim.Native.String.{String, [], ◌∷◌}
use Prim.Native.Nat.{ℕ, zero, suc, ◌+◌, ◌-◌, ◌*◌}
use mathlib.Core.Path.{◌≡◌, refl}
use mathlib.Core.Bool.{Bool, true, false, ◌&&◌, ◌||◌}
use mathlib.Core.List.{List}
use mathlib.Core.Option.{Option, none, some}
use native.Mathlib.Omega.{arith}
use text.Mathlib.TextLemmas.{nil-append, cons-append}
use wp_open_aurora.Prelude.Tests.{leb, eqb, if◌then◌else◌, is_some, is_empty}
use text.Mathlib.Text.{◌==◌}

abbrev pub is_digit : ℕ → Bool
is_digit c = leb b'0' c && leb c b'9'

abbrev pub is_space : ℕ → Bool
is_space c =
    leb 9 c && leb c 13
    || eqb c 32
    || eqb c 160
    || eqb c 0x1680
    || leb 0x2000 c && leb c 0x200a
    || eqb c 0x2028
    || eqb c 0x2029
    || eqb c 0x202f
    || eqb c 0x205f
    || eqb c 0x3000
    || eqb c 0xfeff

unfoldable pub trim_start : String → String
trim_start [] = []
trim_start (c ∷ s) = let rest = trim_start s in if is_space (code c) then rest else c ∷ s

is_blank : String → Bool
is_blank [] = true
is_blank (c ∷ s) = false

unfoldable pub trim_end : String → String
unfolding is_blank
trim_end [] = []
trim_end (c ∷ s) =
    let rest = trim_end s in if is_space (code c) && is_blank rest then [] else c ∷ rest

unfoldable pub trim : String → String
unfolding trim_start trim_end
trim s = trim_end (trim_start s)

cons_first : Char → List String → List String
cons_first c List.[] = List.◌∷◌ (c ∷ []) List.[]
cons_first c (List.◌∷◌ p ps) = List.◌∷◌ (c ∷ p) ps

-- `s.split(sep)` for a separator of one character.
unfoldable pub split : ℕ → String → List String
unfolding cons_first
split sep [] = List.◌∷◌ [] List.[]
split sep (c ∷ s) =
    let rest = split sep s in if eqb (code c) sep then List.◌∷◌ [] rest else cons_first c rest

unfoldable pub contains : ℕ → String → Bool
contains d [] = false
contains d (c ∷ s) = eqb (code c) d || contains d s

unfoldable pub all_digits : String → Bool
all_digits [] = true
all_digits (c ∷ s) = is_digit (code c) && all_digits s

unfoldable pub count : String → ℕ
count [] = 0
count (c ∷ s) = suc (count s)

-- The value of the leading decimal digits, after those already read.
unfoldable pub digits_value : ℕ → String → ℕ
digits_value acc [] = acc
digits_value acc (c ∷ s) =
    let rest = digits_value (acc * 10 + (code c - b'0')) s in
    if is_digit (code c) then rest else acc

-- `/^\d{1,3}$/`
unfoldable pub is_octet_text : String → Bool
unfolding all_digits count
is_octet_text s = leb 1 (count s) && leb (count s) 3 && all_digits s

test_trim : trim "  a b " ≡ "a b"
unfolding trim
test_trim = refl

test_split :
    split b'.' "10.0..1" ≡ List.◌∷◌ "10" (List.◌∷◌ "0" (List.◌∷◌ "" (List.◌∷◌ "1" List.[])))
unfolding split
test_split = refl

test_digits : digits_value 0 "172x" ≡ 172
unfolding digits_value
test_digits = refl

-- What follows `p`, if the text starts with it.
unfoldable pub strip_prefix : String → String → Option String
strip_prefix [] s = some s
strip_prefix (p ∷ ps) [] = none
strip_prefix (p ∷ ps) (c ∷ s) =
    let rest = strip_prefix ps s in if eqb (code p) (code c) then rest else none

abbrev pub starts_with : String → String → Bool
starts_with s p = is_some (strip_prefix p s)

-- `parts[0]` and `parts[1]`, with "" for a missing part.
abbrev pub part : List String → ℕ → String
part List.[] i = ""
part (List.◌∷◌ x xs) zero = x
part (List.◌∷◌ x xs) (suc i) = part xs i

-- A text with no separator is one part.
pub split_none : (sep : ℕ) (s : String) → contains sep s ≡ false → split sep s ≡ List.◌∷◌ s List.[]
unfolding split contains cons_first
split_none sep [] h = refl
split_none sep (c ∷ s) h = ground (arith, split_none sep s)

-- A text with one separator is the two parts around it.
pub split_pair :
    (a b : String) (c : Char)
    → contains (code c) a ≡ false
    → contains (code c) b ≡ false
    → split (code c) (String.◌++◌ a (c ∷ b)) ≡ List.◌∷◌ a (List.◌∷◌ b List.[])
unfolding split contains cons_first
split_pair [] b c h k = rw nil-append (ground (arith, split_none (code c) b k))
split_pair (x ∷ a) b c h k = rw cons-append (ground (arith, split_pair a b c))

-- The first `n` characters. JavaScript counts UTF-16 units, which differ outside the basic plane.
unfoldable pub take_chars : ℕ → String → String
take_chars zero s = []
take_chars (suc n) [] = []
take_chars (suc n) (c ∷ s) = c ∷ take_chars n s

-- `s.slice(n)`
unfoldable pub drop_chars : ℕ → String → String
drop_chars zero s = s
drop_chars (suc n) [] = []
drop_chars (suc n) (c ∷ s) = drop_chars n s

starts_blank : String → Bool
starts_blank [] = false
starts_blank (c ∷ s) = is_space (code c)

-- `s.split(/\s+/)`
unfoldable pub split_spaces : String → List String
unfolding cons_first starts_blank
split_spaces [] = List.◌∷◌ [] List.[]
split_spaces (c ∷ s) =
    let rest = split_spaces s in
    if is_space (code c)
    then (if starts_blank s then rest else List.◌∷◌ [] rest)
    else cons_first c rest

-- `s.replace(/[^0-9]/g, '')`
unfoldable pub digits_only : String → String
digits_only [] = []
digits_only (c ∷ s) = let rest = digits_only s in if is_digit (code c) then c ∷ rest else rest

-- `texts.join(sep)`
unfoldable pub join : String → List String → String
join sep List.[] = []
join sep (List.◌∷◌ p List.[]) = p
join sep (List.◌∷◌ p (List.◌∷◌ q ps)) = String.◌++◌ p (String.◌++◌ sep (join sep (List.◌∷◌ q ps)))

-- `s.endsWith(t)`
unfoldable pub ends_with : String → String → Bool
ends_with [] t = is_empty t
ends_with (c ∷ s) t = c ∷ s == t || ends_with s t

-- `s.includes(t)`
unfoldable pub contains_text : String → String → Bool
unfolding strip_prefix
contains_text [] t = is_empty t
contains_text (c ∷ s) t = starts_with (c ∷ s) t || contains_text s t

test_ends_with : ends_with "4915@c.us" "@c.us" ≡ true
unfolding ends_with
test_ends_with = refl

test_contains_text : contains_text "socket hang up" "hang" ≡ true
unfolding contains_text
test_contains_text = refl
