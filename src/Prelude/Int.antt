-- ===== src/Prelude/Int.antt =====
-- Signed integers, as `parseInt(s, 10)` answers them.
use Prim.Native.Char.{code}
use Prim.Native.String.{String, [], ◌∷◌}
use Prim.Native.Nat.{ℕ, zero, suc, ◌-◌, ◌%◌, ◌^◌, ◌<◌}
use mathlib.Core.Path.{◌≡◌, refl}
use mathlib.Core.Bool.{true}
use mathlib.Core.Option.{Option, none, some}
use native.Mathlib.Omega.{arith}
use wp_open_aurora.Prelude.Tests.{eqb, if◌then◌else◌}
use wp_open_aurora.Prelude.Text.{is_digit, trim_start, digits_value, all_digits, count}

-- `negsuc n` is -(n + 1).
pub data ℤ : Type 0 where
  pos : ℕ → ℤ
  negsuc : ℕ → ℤ

abbrev pub negate : ℕ → ℤ
negate zero = pos zero
negate (suc n) = negsuc n

-- The residue modulo 2 ^ 32 that `ToInt32` and `ToUint32` keep.
unfoldable pub to_u32 : ℤ → ℕ
to_u32 (pos n) = n % 2 ^ 32
to_u32 (negsuc n) = 2 ^ 32 - 1 - n % 2 ^ 32

-- The digits behind an optional sign; `none` is NaN.
unsigned : String → Option ℕ
unsigned [] = none
unsigned (c ∷ s) = if is_digit (code c) then some (digits_value 0 (c ∷ s)) else none

signed : String → Option ℤ
unfolding unsigned
signed [] = none
signed (c ∷ s) =
    if eqb (code c) b'-'
    then elim (unsigned s) [ none ↦ none | some n ↦ some (negate n) ]
    else elim (if eqb (code c) b'+' then unsigned s else unsigned (c ∷ s)) [
      | none ↦ none
      | some n ↦ some (pos n)
    ]

-- `parseInt(s, 10)`, with exact integers in place of doubles.
unfoldable pub parse_int : String → Option ℤ
unfolding signed
parse_int s = signed (trim_start s)

parses : parse_int " -12/x" ≡ some (negsuc 11)
unfolding parse_int trim_start digits_value
parses = refl

pub parse_int-digits :
    (s : String) → 0 < count s → all_digits s ≡ true → parse_int s ≡ some (pos (digits_value 0 s))
unfolding parse_int trim_start all_digits count
parse_int-digits [] h d = absurd (omega arith)
parse_int-digits (c ∷ s) h d = ground arith
