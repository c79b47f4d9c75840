-- ===== src/Prelude/Bits.antt =====
-- `&` with a prefix mask, as arithmetic, and what a CIDR comparison means.
use Prim.Native.Nat.{
  ℕ, zero, suc, ◌+◌, ◌-◌, ◌*◌, ◌/◌, ◌%◌, ◌^◌, ◌≤◌, ◌<◌, min, bit_and, digits, bit_and-bitwise,
}
use mathlib.Core.Path.{◌≡◌, sym, ◌∙◌, ap}
use mathlib.Core.Logic.{◌↔◌}
use native.Mathlib.Omega.{arith}
use native.Mathlib.Nat.{pow-suc, one-le-pow, mul-div_cancel}

-- Any fuel from the first operand on gives the native operation; `bound` is above the fuel.
fuel_enough :
    (bound fuel x y : ℕ) → fuel ≤ bound → x ≤ fuel → digits (λ _. zero) min fuel x y ≡ bit_and x y
fuel_enough bound zero zero y f e = sym (bit_and-bitwise 0 y)
fuel_enough bound (suc fuel) zero y f e = sym (bit_and-bitwise 0 y)
fuel_enough bound zero (suc x) y f e = absurd (omega arith)
fuel_enough zero (suc fuel) (suc x) y f e = absurd (omega arith)
fuel_enough (suc bound) (suc fuel) (suc x) y f e =
    let given = fuel_enough bound fuel (suc x / 2) (y / 2) (omega arith) (omega arith) in
    let least = fuel_enough bound x (suc x / 2) (y / 2) (omega arith) (omega arith) in
    omega (arith, given, least, bit_and-bitwise (suc x) y)

-- One binary digit at a time.
bit_and_step : (x y : ℕ) → bit_and x y ≡ min (x % 2) (y % 2) + 2 * bit_and (x / 2) (y / 2)
bit_and_step zero y =
    let first = bit_and-bitwise 0 y in
    let rest = bit_and-bitwise 0 (y / 2) in omega (arith, first, rest)
bit_and_step (suc x) y =
    let half = fuel_enough x x (suc x / 2) (y / 2) (omega arith) (omega arith) in
    omega (arith, half, bit_and-bitwise (suc x) y)

-- A multiple of the next power is twice the same multiple of this one.
double_block : (block width : ℕ) → block * 2 ^ suc width ≡ block * 2 ^ width * 2
double_block block width = let doubled = pow-suc 2 width in rw doubled (grind arith)

-- Numbers below `2 ^ width` lose nothing under the mask that has all of these bits.
bit_and_full : (width n : ℕ) → n < 2 ^ width → bit_and n (2 ^ width - 1) ≡ n
bit_and_full zero zero below = bit_and-bitwise 0 (2 ^ 0 - 1)
bit_and_full zero (suc n) below = absurd (omega arith)
bit_and_full (suc width) n below =
    let powers = pow-suc 2 width in
    let positive = one-le-pow width 2 (omega arith) in
    let rest = bit_and_full width (n / 2) (omega (arith, powers)) in
    let shifted : (2 ^ suc width - 1) / 2 ≡ 2 ^ width - 1 = omega (arith, powers, positive) in
    ground (arith, bit_and_step n (2 ^ suc width - 1), shifted, rest, powers, positive)

prefix_fields :
    (k w q r : ℕ)
    → k ≤ w
    → r < 2 ^ k
    → q * 2 ^ k + r < 2 ^ w
    → bit_and (q * 2 ^ k + r) (2 ^ w - 2 ^ k) ≡ q * 2 ^ k
prefix_fields zero w q r h l b = ground (arith, bit_and_full w (q * 2 ^ 0 + r) b)
prefix_fields (suc k) zero q r h l b = absurd (omega arith)
prefix_fields (suc k) (suc w) q r h l b =
    let low : (2 ^ suc w - 2 ^ suc k) / 2 ≡ 2 ^ w - 2 ^ k =
      omega (arith, pow-suc 2 w, pow-suc 2 k) in
    let half : (q * 2 ^ suc k + r) / 2 ≡ q * 2 ^ k + r / 2 = omega (arith, double_block q k) in
    ground (
      arith,
      low,
      half,
      bit_and_step (q * 2 ^ suc k + r) (2 ^ suc w - 2 ^ suc k),
      double_block q k,
      pow-suc 2 w,
      pow-suc 2 k,
      prefix_fields k w q (r / 2),
    )

-- The mask whose low `k` of `w` bits are clear rounds down to a multiple of `2 ^ k`.
pub bit_and_prefix : (k w a : ℕ) → k ≤ w → a < 2 ^ w → bit_and a (2 ^ w - 2 ^ k) ≡ a / 2 ^ k * 2 ^ k
bit_and_prefix k w a h l = ground (arith, one-le-pow k 2, prefix_fields k w (a / 2 ^ k) (a % 2 ^ k))

div_of_mul : {x y : ℕ} (p : ℕ) → 0 < p → x * p ≡ y * p → x ≡ y
div_of_mul {x} {y} p h e = sym (mul-div_cancel x h) ∙ ap (λ (t : ℕ). t / p) e ∙ mul-div_cancel y h

-- Two addresses agree under the mask exactly when they have the same prefix.
pub prefix_iff :
    (k w a b : ℕ)
    → k ≤ w
    → a < 2 ^ w
    → b < 2 ^ w
    → (bit_and a (2 ^ w - 2 ^ k) ≡ bit_and b (2 ^ w - 2 ^ k)) ↔ (a / 2 ^ k ≡ b / 2 ^ k)
prefix_iff k w a b h l m = (
  λ e.
      div_of_mul (2 ^ k) (one-le-pow k 2 (omega arith))
        (ground (arith, bit_and_prefix k w a, bit_and_prefix k w b)),
  λ e. ground (arith, bit_and_prefix k w a, bit_and_prefix k w b),
)
