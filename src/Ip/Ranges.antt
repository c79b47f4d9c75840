-- ===== src/Ip/Ranges.antt =====
-- What a CIDR target of `ipMatches` accepts.
use native.Mathlib.Nat.{one-le-pow, pow-le-pow_right}
use wp_open_aurora.Prelude.{
  ℕ, zero, suc, ◌+◌, ◌-◌, ◌*◌, ◌/◌, ◌^◌, ◌≤◌, ◌<◌, String, true, false, Option, some, List, [], ◌∷◌,
  ◌≡◌, refl, ◌↔◌, arith, ltb,
}
use wp_open_aurora.Prelude.Bits.{prefix_iff}
use wp_open_aurora.Prelude.Text.{trim, split, contains, digits_value, part}
use wp_open_aurora.Ip.{normalize_ip, ipv4_to_int, read_octets, prefix_mask, same_prefix, ip_matches}

pub prefix_mask_lem :
    (bits : ℕ) → 0 < bits → bits ≤ 32 → prefix_mask bits ≡ 2 ^ 32 - 2 ^ (32 - bits)
unfolding prefix_mask
prefix_mask_lem bits h l = omega (
  arith,
  one-le-pow (32 - bits) 2 (omega arith),
  pow-le-pow_right {n = 2} (omega arith) (le_32 bits),
)
  where
    le_32 : (n : ℕ) → 32 - n ≤ 32
    le_32 n = omega arith

read_octets-lt :
    (acc : ℕ) (parts : List String) {n : ℕ} → read_octets acc parts ≡ some n → n < 2 ^ 32
unfolding read_octets
read_octets-lt acc [] h = ground arith
read_octets-lt acc (part ∷ parts) {n} h =
    ground (arith, read_octets-lt (acc * 256 + digits_value 0 part) parts {n = n})

pub ipv4_to_int-lt : (ip : String) {n : ℕ} → ipv4_to_int ip ≡ some n → n < 2 ^ 32
unfolding ipv4_to_int
ipv4_to_int-lt ip {n} h = ground (arith, read_octets-lt 0 (split b'.' ip) {n = n})

pub same_prefix_iff :
    (bits a b : ℕ)
    → bits ≤ 32
    → a < 2 ^ 32
    → b < 2 ^ 32
    → (same_prefix bits (some a) (some b) ≡ true) ↔ (a / 2 ^ (32 - bits) ≡ b / 2 ^ (32 - bits))
same_prefix_iff zero a b h l m = (λ _. omega arith, λ _. refl)
same_prefix_iff (suc bits) a b h l m =
    let iff = prefix_iff (32 - suc bits) 32 a b (omega arith) l m in
    let mask = prefix_mask_lem (suc bits) (omega arith) h in
    (λ e. iff.0 (ground (arith, mask)), λ e. ground (arith, mask, iff.1 e))

-- A CIDR target with at most 32 prefix bits accepts an IPv4 address exactly when the two numbers
-- agree on those bits, that is, when they are equal after the other bits are shifted out.
pub ip_matches_range_iff :
    (number : String → Option ℕ) (ip target : String) (bits a b : ℕ)
    → contains b'/' (trim target) ≡ true
    → number (part (split b'/' (trim target)) 1) ≡ some bits
    → bits ≤ 32
    → ipv4_to_int (normalize_ip (trim ip)) ≡ some a
    → ipv4_to_int (normalize_ip (part (split b'/' (trim target)) 0)) ≡ some b
    → (ip_matches number ip target ≡ true) ↔ (a / 2 ^ (32 - bits) ≡ b / 2 ^ (32 - bits))
unfolding ip_matches
ip_matches_range_iff number ip target bits a b slash parsed h ea eb =
    let iff = same_prefix_iff bits a b h (ipv4_to_int-lt _ ea) (ipv4_to_int-lt _ eb) in
    let small : ltb 32 bits ≡ false = ground arith in rw (slash, parsed, small, ea, eb) iff
