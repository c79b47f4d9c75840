-- ===== src/Messages/Retry/Backoff.antt =====
-- The delay before the next attempt.
use native.Mathlib.Nat.{
  one-le-pow, pow-le-pow_right, mul-le-mul_left, lt_of_mul-lt-mul_right, le_of_mul-le-mul_right,
  div-mul-le_self, lt-div-mul-add,
}
use wp_open_aurora.Prelude.{ℕ, ◌+◌, ◌-◌, ◌*◌, ◌/◌, min, ◌≤◌, ◌<◌, arith}
use wp_open_aurora.Messages.Retry.{Settings, Random, base_delay, capped_delay, retry_delay}

pub capped_delay_bounds :
    (c : Settings) (n : ℕ) → (1000 ≤ capped_delay c n) × (capped_delay c n ≤ 900_000)
unfolding capped_delay
capped_delay_bounds c n = let p = one-le-pow (min (n - 1) 6) 2 (omega arith) in grind arith

-- The backoff before the jitter never shrinks from one attempt to the next.
pub capped_delay_mono : (c : Settings) (m n : ℕ) → m ≤ n → capped_delay c m ≤ capped_delay c n
unfolding capped_delay
capped_delay_mono c m n h =
    let p = pow-le-pow_right {n = 2} (omega arith) (exponents m n h) in
    let q = mul-le-mul_left (base_delay c) p in omega arith
  where
    exponents : (m n : ℕ) → m ≤ n → min (m - 1) 6 ≤ min (n - 1) 6
    exponents m n h = omega arith

-- A rounded quotient lies within half a unit of `x / d`.
rounded :
    (d x q lo hi : ℕ)
    → 0 < d
    → lo * d + 20 * d ≤ x
    → x ≤ hi * d + 20 * d
    → q * (40 * d) ≤ x
    → x < q * (40 * d) + 40 * d
    → (lo ≤ 40 * q + 20) × (40 * q ≤ hi + 20)
rounded d x q lo hi p l u ql qu = (lower, upper)
  where
    lower : lo ≤ 40 * q + 20
    lower =
        let s : lo * d < (40 * q + 20) * d = grind arith in
        let t = lt_of_mul-lt-mul_right d s in omega arith

    upper : 40 * q ≤ hi + 20
    upper = let s : (40 * q) * d ≤ (hi + 20) * d = grind arith in le_of_mul-le-mul_right s p

-- The delay is the capped backoff with a jitter of at most 15 percent either way, rounded.
pub retry_delay_bounds :
    (c : Settings) (r : Random) (n : ℕ)
    → r.num < r.den
    → (34 * capped_delay c n ≤ 40 * retry_delay c r n + 20)
      × (40 * retry_delay c r n ≤ 46 * capped_delay c n + 20)
unfolding retry_delay
retry_delay_bounds c r n h =
    let d = capped_delay c n in
    let x = 2 * d * (17 * r.den + 6 * r.num) + 20 * r.den in
    let p = mul-le-mul_left d (le_of_lt h) in
    rounded r.den x (x / (40 * r.den)) (34 * d) (46 * d) (omega arith) (grind arith) (grind arith)
      (div-mul-le_self x (40 * r.den)) (lt-div-mul-add {a = x} {b = 40 * r.den} (omega arith))
  where
    le_of_lt : {a b : ℕ} → a < b → a ≤ b
    le_of_lt l = omega arith

pub retry_delay_positive :
    (c : Settings) (r : Random) (n : ℕ) → r.num < r.den → 0 < retry_delay c r n
retry_delay_positive c r n h =
    let (p, _) = retry_delay_bounds c r n h in let (q, _) = capped_delay_bounds c n in omega arith
