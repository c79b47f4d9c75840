-- ===== src/Auth/Cidr.antt =====
-- The IP whitelist of an API key: `isIpAllowed`, `ipInCidr` and `ipToNumber` of
-- src/modules/auth/auth.service.ts. Numbers are exact, so a run of more than fifteen digits, which
-- a double rounds, is out of scope; a 32-bit value is held as its residue modulo 2 ^ 32.
pub mod Prefix
use wp_open_aurora.Prelude.{
  ℕ, ◌+◌, ◌-◌, ◌*◌, ◌%◌, ◌^◌, String, bit_and, Bool, true, false, Option, none, some, List, [], ◌∷◌,
  length, any, ◌==◌, ltb, eqb, if◌then◌else◌, or_default,
}
use wp_open_aurora.Prelude.Text.{split, contains, part}
use wp_open_aurora.Prelude.Int.{ℤ, pos, negsuc, to_u32, parse_int}

-- `(acc << 8) + parseInt(octet, 10)`; `none` is NaN, which a shift reads as 0.
add_octet : Option ℕ → String → Option ℕ
add_octet acc octet = elim (parse_int octet) [
  | none ↦ none
  | some v ↦ some ((or_default acc 0 * 256 + to_u32 v) % 2 ^ 32)
]

-- The `reduce` of `ipToNumber`.
add_octets : Option ℕ → List String → Option ℕ
add_octets acc [] = acc
add_octets acc (octet ∷ octets) = add_octets (add_octet acc octet) octets

unfoldable pub ip_to_number : String → ℕ
unfolding add_octets add_octet
ip_to_number ip =
    let parts = split b'.' ip in
    if eqb (length parts) 4 then or_default (add_octets (some 0) parts) 0 else 0

-- `~(2 ** (32 - bits) - 1)`, as the operand of `&`
unfoldable pub network_mask : ℕ → ℕ
network_mask bits = 2 ^ 32 - 1 - (2 ^ (32 - bits) - 1) % 2 ^ 32

-- The body of `ipInCidr` once `bits` is read.
in_network : String → String → Option ℤ → Bool
in_network ip range none = false
in_network ip range (some (negsuc n)) = false
in_network ip range (some (pos bits)) =
    if ltb 32 bits
    then false
    else eqb (bit_and (ip_to_number ip) (network_mask bits))
        (bit_and (ip_to_number range) (network_mask bits))

unfoldable pub ip_in_cidr : String → String → Bool
unfolding in_network
ip_in_cidr ip cidr =
    let parts = split b'/' cidr in in_network ip (part parts 0) (parse_int (part parts 1))

-- One entry of the whitelist, in the loop of `isIpAllowed`.
abbrev pub entry_allows : String → String → Bool
entry_allows ip entry = if contains b'/' entry then ip_in_cidr ip entry else ip == entry

unfoldable pub is_ip_allowed : String → List String → Bool
is_ip_allowed ip entries = any (entry_allows ip) entries
