-- ===== src/Ip.antt =====
-- src/common/utils/ip.ts: client addresses behind proxies, and address ranges.
-- `number` stands for JavaScript's `Number(s)` where that is a natural number, and is `none` for
-- any other value, which the code rejects.
pub mod Ranges
pub mod Hops
use Prim.Native.Char.{Char, code}
use Prim.Native.String
use mathlib.Core.List.{reverse, head?, tail}
use wp_open_aurora.Prelude.{
  ℕ, ◌+◌, ◌-◌, ◌*◌, ◌%◌, ◌^◌, String, bit_and, Bool, true, false, not, ◌&&◌, ◌||◌, Option, none,
  some, List, [], ◌∷◌, ◌++◌, map, length, any, all, filter, find, ◌==◌, leb, ltb, eqb,
  if◌then◌else◌, or_default, is_empty,
}
use wp_open_aurora.Prelude.Text.{trim, split, contains, digits_value, is_octet_text, part}

-- `lower` is a text in lower case; the rest of `s` behind it, whatever the case of its letters.
abbrev lower_code : ℕ → ℕ
lower_code c = if leb b'A' c && leb c b'Z' then c + 32 else c

strip_prefix_i : String → String → Option String
strip_prefix_i String.[] s = some s
strip_prefix_i (String.◌∷◌ p ps) String.[] = none
strip_prefix_i (String.◌∷◌ p ps) (String.◌∷◌ c s) =
    let rest = strip_prefix_i ps s in if eqb (code p) (lower_code (code c)) then rest else none

is_dotted : String → Bool
is_dotted s = let parts = split b'.' s in eqb (length parts) 4 && all is_octet_text parts

unfoldable pub normalize_ip : String → String
unfolding strip_prefix_i is_dotted
normalize_ip ip = elim (strip_prefix_i "::ffff:" ip) [
  | none ↦ ip
  | some rest ↦ if is_dotted rest then rest else ip
]

-- The loop of `ipv4ToInt`.
unfoldable pub read_octets : ℕ → List String → Option ℕ
read_octets acc [] = some (acc % 2 ^ 32)
read_octets acc (part ∷ parts) =
    let octet = digits_value 0 part in
    let rest = read_octets (acc * 256 + octet) parts in
    if is_octet_text part then (if ltb 255 octet then none else rest) else none

unfoldable pub ipv4_to_int : String → Option ℕ
unfolding read_octets
ipv4_to_int ip =
    let parts = split b'.' ip in if eqb (length parts) 4 then read_octets 0 parts else none

-- `(0xffffffff << (32 - bits)) >>> 0`
unfoldable pub prefix_mask : ℕ → ℕ
prefix_mask bits = (0xffffffff * 2 ^ (32 - bits)) % 2 ^ 32

abbrev same_prefix : ℕ → Option ℕ → Option ℕ → Bool
same_prefix bits (some ip) (some range) =
    if eqb bits 0
    then true
    else eqb (bit_and ip (prefix_mask bits)) (bit_and range (prefix_mask bits))
same_prefix bits _ _ = false

pub data Header : Type 0 where
  one : String → Header
  many : List String → Header

pub record RequestLike : Type 0 where
  pub ip : Option String
  pub remote_address : Option String
  pub forwarded : Option Header

-- `a || b`
abbrev pub or_else : Option String → String → String
or_else none b = b
or_else (some a) b = if is_empty a then b else a

join : List String → String
join [] = ""
join (x ∷ []) = x
join (x ∷ y ∷ xs) = String.◌++◌ x (String.◌++◌ "," (join (y ∷ xs)))

header_text : Header → String
unfolding join
header_text (one s) = s
header_text (many xs) = join xs

unfoldable pub hops_of : Header → List String
unfolding header_text
hops_of h =
    filter (λ hop. not (is_empty hop))
      (map (λ hop. normalize_ip (trim hop)) (split b',' (header_text h)))

abbrev is_missing : Header → Bool
is_missing (one s) = is_empty s
is_missing (many xs) = false

unfoldable pub socket_address : RequestLike → String
socket_address req = normalize_ip (or_else req.remote_address (or_else req.ip ""))

module _ (number : String → Option ℕ) where
  unfoldable pub ip_matches : String → String → Bool
  ip_matches ip target =
      let candidate = normalize_ip (trim ip) in
      let ref = trim target in
      let parts = split b'/' ref in
      if contains b'/' ref
      then elim (number (part parts 1)) [
        | none ↦ false
        | some bits ↦
            if ltb 32 bits
            then false
            else same_prefix bits (ipv4_to_int candidate)
                (ipv4_to_int (normalize_ip (part parts 0)))
      ]
      else normalize_ip ref == candidate

  abbrev pub is_trusted : List String → String → Bool
  is_trusted proxies ip = any (ip_matches ip) proxies

  -- The walk from the right: the first hop that is no trusted proxy.
  unfoldable pub closest_hop : List String → List String → String → String
  closest_hop proxies hops socket_ip =
      or_default (find (λ hop. not (is_trusted proxies hop)) (reverse hops)) socket_ip

  unfoldable pub resolve_client_ip : RequestLike → List String → String
  unfolding socket_address
  resolve_client_ip req [] = socket_address req
  resolve_client_ip req (proxy ∷ proxies) =
      let trusted = proxy ∷ proxies in
      let socket_ip = socket_address req in
      if is_trusted trusted socket_ip
      then elim req.forwarded [
        | none ↦ socket_ip
        | some header ↦
            if is_missing header then socket_ip else closest_hop trusted (hops_of header) socket_ip
      ]
      else socket_ip
