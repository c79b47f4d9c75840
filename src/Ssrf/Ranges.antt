-- ===== src/Ssrf/Ranges.antt =====
-- The blocked IPv4 networks as intervals of addresses.
use wp_open_aurora.Prelude.{
  ℕ, ◌+◌, ◌-◌, ◌*◌, ◌/◌, ◌^◌, ◌≤◌, ◌<◌, ◌≡◌, refl, ◌∙◌, arith, bit_and, Bool, ◌&&◌, List, [], ◌∷◌,
  leb, eqb, any,
}
use wp_open_aurora.Prelude.Bits.{prefix_iff}
use wp_open_aurora.Prelude.Text.{split, digits_value}
use wp_open_aurora.Ssrf.{ipv4_to_int, in_cidr4, is_blocked_v4, mask}

abbrev address : ℕ → ℕ → ℕ → ℕ → ℕ
address a b c d = ((a * 256 + b) * 256 + c) * 256 + d

-- The first and the last address of each network.
abbrev pub intervals : List (ℕ × ℕ)
intervals =
    (address 0 0 0 0, address 0 255 255 255)
    ∷ (address 10 0 0 0, address 10 255 255 255)
    ∷ (address 100 64 0 0, address 100 127 255 255)
    ∷ (address 127 0 0 0, address 127 255 255 255)
    ∷ (address 169 254 0 0, address 169 254 255 255)
    ∷ (address 172 16 0 0, address 172 31 255 255)
    ∷ (address 192 0 0 0, address 192 0 0 255)
    ∷ (address 192 168 0 0, address 192 168 255 255)
    ∷ (address 198 18 0 0, address 198 19 255 255)
    ∷ (address 224 0 0 0, address 239 255 255 255)
    ∷ (address 240 0 0 0, address 255 255 255 255)
    ∷ []

abbrev pub within : ℕ → ℕ × ℕ → Bool
within n (first, last) = leb first n && leb n last

-- One network with `2 ^ k` addresses.
network :
    (k n base : ℕ)
    → k ≤ 32
    → n < 2 ^ 32
    → base < 2 ^ 32
    → eqb (bit_and n (2 ^ 32 - 2 ^ k)) (bit_and base (2 ^ 32 - 2 ^ k))
      ≡ eqb (n / 2 ^ k) (base / 2 ^ k)
network k n base h l m = let p = prefix_iff k 32 n base h l m in ground (arith, p.0, p.1)

module _ (n : ℕ) (h : n < 2 ^ 32) where
  this_network : in_cidr4 n ("0.0.0.0", 8) ≡ within n (address 0 0 0 0, address 0 255 255 255)
  unfolding in_cidr4 mask ipv4_to_int split digits_value
  this_network = network 24 n (address 0 0 0 0) (omega arith) h (omega arith) ∙ ground arith

  private_10 : in_cidr4 n ("10.0.0.0", 8) ≡ within n (address 10 0 0 0, address 10 255 255 255)
  unfolding in_cidr4 mask ipv4_to_int split digits_value
  private_10 = network 24 n (address 10 0 0 0) (omega arith) h (omega arith) ∙ ground arith

  carrier : in_cidr4 n ("100.64.0.0", 10) ≡ within n (address 100 64 0 0, address 100 127 255 255)
  unfolding in_cidr4 mask ipv4_to_int split digits_value
  carrier = network 22 n (address 100 64 0 0) (omega arith) h (omega arith) ∙ ground arith

  loopback : in_cidr4 n ("127.0.0.0", 8) ≡ within n (address 127 0 0 0, address 127 255 255 255)
  unfolding in_cidr4 mask ipv4_to_int split digits_value
  loopback = network 24 n (address 127 0 0 0) (omega arith) h (omega arith) ∙ ground arith

  link_local :
      in_cidr4 n ("169.254.0.0", 16) ≡ within n (address 169 254 0 0, address 169 254 255 255)
  unfolding in_cidr4 mask ipv4_to_int split digits_value
  link_local = network 16 n (address 169 254 0 0) (omega arith) h (omega arith) ∙ ground arith

  private_172 :
      in_cidr4 n ("172.16.0.0", 12) ≡ within n (address 172 16 0 0, address 172 31 255 255)
  unfolding in_cidr4 mask ipv4_to_int split digits_value
  private_172 = network 20 n (address 172 16 0 0) (omega arith) h (omega arith) ∙ ground arith

  protocol : in_cidr4 n ("192.0.0.0", 24) ≡ within n (address 192 0 0 0, address 192 0 0 255)
  unfolding in_cidr4 mask ipv4_to_int split digits_value
  protocol = network 8 n (address 192 0 0 0) (omega arith) h (omega arith) ∙ ground arith

  private_192 :
      in_cidr4 n ("192.168.0.0", 16) ≡ within n (address 192 168 0 0, address 192 168 255 255)
  unfolding in_cidr4 mask ipv4_to_int split digits_value
  private_192 = network 16 n (address 192 168 0 0) (omega arith) h (omega arith) ∙ ground arith

  benchmark : in_cidr4 n ("198.18.0.0", 15) ≡ within n (address 198 18 0 0, address 198 19 255 255)
  unfolding in_cidr4 mask ipv4_to_int split digits_value
  benchmark = network 17 n (address 198 18 0 0) (omega arith) h (omega arith) ∙ ground arith

  multicast : in_cidr4 n ("224.0.0.0", 4) ≡ within n (address 224 0 0 0, address 239 255 255 255)
  unfolding in_cidr4 mask ipv4_to_int split digits_value
  multicast = network 28 n (address 224 0 0 0) (omega arith) h (omega arith) ∙ ground arith

  reserved : in_cidr4 n ("240.0.0.0", 4) ≡ within n (address 240 0 0 0, address 255 255 255 255)
  unfolding in_cidr4 mask ipv4_to_int split digits_value
  reserved = network 28 n (address 240 0 0 0) (omega arith) h (omega arith) ∙ ground arith

-- The guard's test of an IPv4 address is the membership in one of the eleven intervals.
pub is_blocked_v4-intervals : (n : ℕ) → n < 2 ^ 32 → is_blocked_v4 n ≡ any (within n) intervals
unfolding is_blocked_v4
is_blocked_v4-intervals n h =
    rw
      (
        this_network n h,
        private_10 n h,
        carrier n h,
        loopback n h,
        link_local n h,
        private_172 n h,
        protocol n h,
        private_192 n h,
        benchmark n h,
        multicast n h,
        reserved n h,
      )
      refl
