-- ===== src/Auth/Cidr/Prefix.antt =====
-- What the CIDR test of the whitelist decides, for dotted addresses and for all other texts.
use native.Mathlib.Nat.{one-le-pow, pow-le-pow_right}
use wp_open_aurora.Prelude.{
  ℕ, ◌+◌, ◌-◌, ◌*◌, ◌/◌, ◌%◌, ◌^◌, ◌≤◌, ◌<◌, String, true, false, Option, some, List, [], ◌∷◌,
  length, ◌≡◌, ◌≢◌, ◌↔◌, sym, arith, ltb, Option-cases, inl, inr,
}
use wp_open_aurora.Prelude.Bits.{prefix_iff}
use wp_open_aurora.Prelude.Text.{split, is_octet_text, digits_value, part}
use wp_open_aurora.Prelude.Int.{pos, to_u32, parse_int, parse_int-digits}
use wp_open_aurora.Ip.{ipv4_to_int, read_octets}
use wp_open_aurora.Auth.Cidr.{add_octet, add_octets, ip_to_number, network_mask, ip_in_cidr}

add_octet-lt : (acc : Option ℕ) (octet : String) (m : ℕ) → add_octet acc octet ≡ some m → m < 2 ^ 32
unfolding add_octet
add_octet-lt acc octet m e = ground arith

add_octets-lt :
    (acc : Option ℕ) (octets : List String) {n : ℕ}
    → ((m : ℕ) → acc ≡ some m → m < 2 ^ 32)
    → add_octets acc octets ≡ some n
    → n < 2 ^ 32
unfolding add_octets
add_octets-lt acc [] {n} h e = h n e
add_octets-lt acc (octet ∷ octets) h e =
    add_octets-lt (add_octet acc octet) octets (add_octet-lt acc octet) e

pub ip_to_number-lt : (ip : String) → ip_to_number ip < 2 ^ 32
unfolding ip_to_number
ip_to_number-lt ip = elim (Option-cases (add_octets (some 0) (split b'.' ip))) [
  | inl e ↦ ground arith
  | inr (n, e) ↦
      ground (arith, add_octets-lt (some 0) (split b'.' ip) {n = n} (λ m e. ground arith) e)
]

network_mask_lem : (bits : ℕ) → bits ≤ 32 → network_mask bits ≡ 2 ^ 32 - 2 ^ (32 - bits)
unfolding network_mask
network_mask_lem bits h = omega (
  arith,
  one-le-pow (32 - bits) 2 (omega arith),
  pow-le-pow_right {n = 2} (omega arith) (le_32 bits),
)
  where
    le_32 : (n : ℕ) → 32 - n ≤ 32
    le_32 n = omega arith

-- A CIDR entry with at most 32 prefix bits accepts exactly the clients whose number agrees with
-- the number of the range on those bits.
in_cidr_numbers :
    (ip cidr : String) (bits : ℕ)
    → parse_int (part (split b'/' cidr) 1) ≡ some (pos bits)
    → bits ≤ 32
    → (ip_in_cidr ip cidr ≡ true) ↔ (
        ip_to_number ip / 2 ^ (32 - bits)
        ≡ ip_to_number (part (split b'/' cidr) 0) / 2 ^ (32 - bits))
unfolding ip_in_cidr
in_cidr_numbers ip cidr bits parsed h =
    let range = part (split b'/' cidr) 0 in
    let small : ltb 32 bits ≡ false = ground arith in
    let iff =
      prefix_iff (32 - bits) 32 (ip_to_number ip) (ip_to_number range) (omega arith)
        (ip_to_number-lt ip) (ip_to_number-lt range) in
    rw (parsed, small, network_mask_lem bits h)
      (λ e. iff.0 (ground arith), λ e. ground (arith, iff.1 e))

-- Any entry with at most 32 prefix bits whose range is not four dotted parts, such as an IPv6
-- network, accepts every client whose address is not four dotted parts either, such as any IPv6
-- address.
pub ip_in_cidr_not_dotted :
    (ip cidr : String) (bits : ℕ)
    → parse_int (part (split b'/' cidr) 1) ≡ some (pos bits)
    → bits ≤ 32
    → length (split b'.' ip) ≢ 4
    → length (split b'.' (part (split b'/' cidr) 0)) ≢ 4
    → ip_in_cidr ip cidr ≡ true
unfolding ip_to_number
ip_in_cidr_not_dotted ip cidr bits parsed h p q =
    (in_cidr_numbers ip cidr bits parsed h).1 (ground arith)

octet_value : (s : String) → is_octet_text s ≡ true → parse_int s ≡ some (pos (digits_value 0 s))
unfolding is_octet_text
octet_value s h = parse_int-digits s (ground arith) (ground arith)

-- The address of four octets.
abbrev pub address : ℕ → ℕ → ℕ → ℕ → ℕ
address a b c d = ((a * 256 + b) * 256 + c) * 256 + d

-- The text is four octets in decimal digits, with dots between them, and stands for the address.
pub record IsAddress (ip : String) (n : ℕ) : Type 0 where
  pub octets : String × String × String × String
  pub dotted : split b'.' ip ≡ octets.0 ∷ octets.1 ∷ octets.2 ∷ octets.3 ∷ []
  pub texts :
      (is_octet_text octets.0 ≡ true)
      × (is_octet_text octets.1 ≡ true)
      × (is_octet_text octets.2 ≡ true)
      × (is_octet_text octets.3 ≡ true)
  pub bounded :
      (digits_value 0 octets.0 ≤ 255)
      × (digits_value 0 octets.1 ≤ 255)
      × (digits_value 0 octets.2 ≤ 255)
      × (digits_value 0 octets.3 ≤ 255)
  pub value :
      n
      ≡ address
          (digits_value 0 octets.0)
          (digits_value 0 octets.1)
          (digits_value 0 octets.2)
          (digits_value 0 octets.3)

add_octet_lem :
    (acc : ℕ) (s : String)
    → is_octet_text s ≡ true
    → acc * 256 + digits_value 0 s < 2 ^ 32
    → add_octet (some acc) s ≡ some (acc * 256 + digits_value 0 s)
unfolding add_octet to_u32
add_octet_lem acc s h b = ground (arith, octet_value s h)

add_octets_lem :
    (s t u v : String)
    → (is_octet_text s ≡ true)
      × (is_octet_text t ≡ true)
      × (is_octet_text u ≡ true)
      × (is_octet_text v ≡ true)
    → (digits_value 0 s ≤ 255)
      × (digits_value 0 t ≤ 255)
      × (digits_value 0 u ≤ 255)
      × (digits_value 0 v ≤ 255)
    → add_octets (some 0) (s ∷ t ∷ u ∷ v ∷ [])
      ≡ some (address (digits_value 0 s) (digits_value 0 t) (digits_value 0 u) (digits_value 0 v))
unfolding add_octets
add_octets_lem s t u v (p, q, r, w) (a, b, c, d) = ground (
  arith,
  add_octet_lem 0 s p (omega arith),
  add_octet_lem (digits_value 0 s) t q (omega arith),
  add_octet_lem (digits_value 0 s * 256 + digits_value 0 t) u r (omega arith),
  add_octet_lem ((digits_value 0 s * 256 + digits_value 0 t) * 256 + digits_value 0 u) v w
      (omega arith),
)

ip_to_number-address : (ip : String) (n : ℕ) → IsAddress ip n → ip_to_number ip ≡ n
unfolding ip_to_number
ip_to_number-address ip n a =
    let (s, t, u, v) = a.octets in
    let read = add_octets_lem s t u v a.texts a.bounded in rw (a.dotted, read) (sym a.value)

-- An entry whose range is an IPv4 address and whose prefix length reads as a number of at most 32
-- accepts exactly those IPv4 clients whose address has the same first bits as the range.
pub ip_in_cidr_iff :
    (ip cidr : String) (bits n r : ℕ)
    → parse_int (part (split b'/' cidr) 1) ≡ some (pos bits)
    → bits ≤ 32
    → IsAddress ip n
    → IsAddress (part (split b'/' cidr) 0) r
    → (ip_in_cidr ip cidr ≡ true) ↔ (n / 2 ^ (32 - bits) ≡ r / 2 ^ (32 - bits))
ip_in_cidr_iff ip cidr bits n r parsed h client range =
    let iff = in_cidr_numbers ip cidr bits parsed h in
    let a = ip_to_number-address ip n client in
    let b = ip_to_number-address (part (split b'/' cidr) 0) r range in
    (λ e. cc (iff.0 e), λ e. iff.1 cc)

add_octets-read :
    (acc a : ℕ) (parts : List String) {n : ℕ}
    → a ≡ acc % 2 ^ 32
    → read_octets acc parts ≡ some n
    → add_octets (some a) parts ≡ some n
unfolding read_octets add_octets add_octet to_u32
add_octets-read acc a [] h e = ground arith
add_octets-read acc a (part ∷ parts) {n} h e = ground (
  arith,
  octet_value part,
  add_octets-read (acc * 256 + digits_value 0 part)
      ((a * 256 + digits_value 0 part % 2 ^ 32) % 2 ^ 32) parts {n = n},
)

-- On an address that the proxy code reads as an IPv4 address, the whitelist reads the same number.
pub ip_to_number-ipv4_to_int : (ip : String) {n : ℕ} → ipv4_to_int ip ≡ some n → ip_to_number ip ≡ n
unfolding ip_to_number ipv4_to_int
ip_to_number-ipv4_to_int ip {n} h =
    ground (arith, add_octets-read 0 0 (split b'.' ip) {n = n} (omega arith))
