-- ===== src/Ssrf.antt =====
-- src/common/security/ssrf-guard.ts: which addresses an outbound request may reach. The URL parser,
-- the recognition of IP literals, the case mapping and the name lookup are parameters. Numbers are
-- exact; the octets that the guard reads are those of recognized IPv4 literals.
pub mod Ranges
pub mod Safe
use Prim.Native.Char.{code}
use Prim.Native.String
use wp_open_aurora.Prelude.{
  ℕ, zero, suc, ◌+◌, ◌-◌, ◌*◌, ◌/◌, ◌%◌, ◌^◌, bit_and, String, Bool, true, false, not, ◌&&◌, ◌||◌,
  Option, none, some, List, [], ◌∷◌, leb, ltb, eqb, ◌==◌, if◌then◌else◌, length, any, all, includes,
  is_some, filter, map, is_empty,
}
use wp_open_aurora.Prelude.Text.{
  split, part, strip_prefix, starts_with, digits_value, is_octet_text, is_digit, trim, count,
}
use wp_open_aurora.Prelude.Results.{Result, ok, err}

abbrev octets_to_int : ℕ → List String → ℕ
octets_to_int acc [] = acc
octets_to_int acc (octet ∷ octets) = octets_to_int (acc * 256 + digits_value 0 octet) octets

unfoldable pub ipv4_to_int : String → ℕ
ipv4_to_int ip = octets_to_int 0 (split b'.' ip)

-- `(0xffffffff << (32 - bits)) >>> 0`
unfoldable pub mask : ℕ → ℕ
mask bits = if eqb bits 0 then 0 else (2 ^ 32 - 1) * 2 ^ (32 - bits) % 2 ^ 32

unfoldable pub in_cidr4 : ℕ → String × ℕ → Bool
in_cidr4 n (base, bits) = eqb (bit_and n (mask bits)) (bit_and (ipv4_to_int base) (mask bits))

abbrev pub blocked_v4 : List (String × ℕ)
blocked_v4 =
    ("0.0.0.0", 8)
    ∷ ("10.0.0.0", 8)
    ∷ ("100.64.0.0", 10)
    ∷ ("127.0.0.0", 8)
    ∷ ("169.254.0.0", 16)
    ∷ ("172.16.0.0", 12)
    ∷ ("192.0.0.0", 24)
    ∷ ("192.168.0.0", 16)
    ∷ ("198.18.0.0", 15)
    ∷ ("224.0.0.0", 4)
    ∷ ("240.0.0.0", 4)
    ∷ []

unfoldable pub is_blocked_v4 : ℕ → Bool
unfolding in_cidr4
is_blocked_v4 n = any (in_cidr4 n) blocked_v4

abbrev hex_digit : ℕ → Option ℕ
hex_digit c =
    if is_digit c
    then some (c - b'0')
    else (if leb b'a' c && leb c b'f' then some (c - b'a' + 10) else none)

-- `/^[0-9a-f]{1,4}$/` and `parseInt(text, 16)`
hex_value : ℕ → String → Option ℕ
hex_value acc String.[] = some acc
hex_value acc (String.◌∷◌ c s) = elim (hex_digit (code c)) [
  | none ↦ none
  | some d ↦ hex_value (acc * 16 + d) s
]

unfoldable pub hextet : String → Option ℕ
unfolding hex_value
hextet s = if leb 1 (count s) && leb (count s) 4 then hex_value 0 s else none

pub record Url : Type 0 where
  pub protocol : String
  pub hostname : String

-- What lies outside the guard. `lookup` answers `none` when it rejects.
pub record Network : Type 0 where
  pub parse_url : String → Option Url
  pub is_ipv4 : String → Bool
  pub is_ipv6 : String → Bool
  pub to_lower_case : String → String
  pub lookup : String → Option (List String)

pub data Blocked : Type 0 where
  invalid_url blocked_scheme blocked_address unresolved lookup_failed : Blocked

abbrev is_dotted : String → Bool
is_dotted s = let parts = split b'.' s in eqb (length parts) 4 && all is_octet_text parts

-- `replace(/\]$/, '')`
drop_last_bracket : String → String
drop_last_bracket String.[] = String.[]
drop_last_bracket (String.◌∷◌ c s) =
    let rest = drop_last_bracket s in
    if eqb (code c) b']' && is_empty s then String.[] else String.◌∷◌ c rest

module _ (net : Network) where
  open net use {parse_url, is_ipv4, is_ipv6, to_lower_case, lookup}

  -- The embedded address of an IPv4-mapped one: its dotted form is judged by `again`, its two
  -- hextets, which make a valid dotted address, by their number.
  is_blocked_mapped : (String → Bool) → String → Option Bool
  unfolding hextet is_blocked_v4
  is_blocked_mapped again tail =
      let hextets = split b':' tail in
      if is_dotted tail then some (again tail) else elim (hextet (part hextets 0)) [
        | none ↦ none
        | some hi ↦ elim (hextet (part hextets 1)) [
          | none ↦ none
          | some lo ↦
              if eqb (length hextets) 2
              then some (
                  is_blocked_v4 (
                    ((hi / 2 ^ 8 % 256 * 256 + hi % 256) * 256 + lo / 2 ^ 8 % 256) * 256
                    + lo % 256))
              else none
        ]
      ]

  abbrev is_local_prefix : String → Bool
  is_local_prefix h =
      starts_with h "fc"
      || starts_with h "fd"
      || starts_with h "fe8"
      || starts_with h "fe9"
      || starts_with h "fea"
      || starts_with h "feb"

  abbrev mapped : (String → Bool) → String → Option Bool
  mapped again lower = elim (strip_prefix "::ffff:" lower) [
    | none ↦ none
    | some tail ↦ is_blocked_mapped again tail
  ]

  abbrev is_blocked_v6 : (String → Bool) → String → Bool
  is_blocked_v6 again lower =
      if (lower == "::1") || (lower == "::") then true else elim (mapped again lower) [
        | some b ↦ b
        | none ↦ is_local_prefix (part (split b':' lower) 0)
      ]

  abbrev is_blocked_with : (String → Bool) → String → Bool
  is_blocked_with again ip =
      if is_ipv4 ip
      then is_blocked_v4 (ipv4_to_int ip)
      else (if is_ipv6 ip then is_blocked_v6 again (to_lower_case ip) else true)

  -- The call of itself is on a dotted text, which is no IPv6 address, so one call is enough.
  unfoldable pub is_blocked_address : String → Bool
  unfolding is_blocked_mapped ipv4_to_int is_blocked_v4
  is_blocked_address = is_blocked_with (is_blocked_with (λ _. true))

  -- `getAllowedHosts` on the value of SSRF_ALLOWED_HOSTS, and the host of a URL.
  unfoldable pub strip_brackets : String → String
  unfolding drop_last_bracket
  strip_brackets s = elim (strip_prefix "[" s) [
    | none ↦ drop_last_bracket s
    | some rest ↦ drop_last_bracket rest
  ]

  unfoldable pub allowed_hosts : String → List String
  unfolding strip_brackets
  allowed_hosts env =
      filter (λ h. not (is_empty h))
        (map (λ h. to_lower_case (strip_brackets (trim h))) (split b',' env))

  -- From the look at the allowed hosts on.
  unfoldable pub assert_safe_host : String → String → Result Blocked (Unit {0})
  unfolding is_blocked_address allowed_hosts
  assert_safe_host env host =
      if includes (to_lower_case host) (allowed_hosts env)
      then ok tt
      else (if is_ipv4 host || is_ipv6 host
          then (if is_blocked_address host then err blocked_address else ok tt)
          else elim (lookup host) [
            | none ↦ err lookup_failed
            | some addresses ↦
                if eqb (length addresses) 0
                then err unresolved
                else (if any is_blocked_address addresses then err blocked_address else ok tt)
          ])

  unfoldable pub assert_safe_fetch_url : String → String → Result Blocked (Unit {0})
  unfolding assert_safe_host strip_brackets
  assert_safe_fetch_url env raw_url = elim (parse_url raw_url) [
    | none ↦ err invalid_url
    | some url ↦
        if not (url.protocol == "http:") && not (url.protocol == "https:")
        then err blocked_scheme
        else assert_safe_host env (strip_brackets url.hostname)
  ]
