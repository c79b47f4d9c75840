-- ===== src/Tests/Network.antt =====
-- Addresses, ranges and the guard of outbound requests at concrete texts.
use wp_open_aurora.Prelude.{
  ℕ, String, Bool, true, false, Option, none, some, List, [], ◌∷◌, ◌≡◌, ◌↔◌, refl, arith, ◌==◌,
  if◌then◌else◌, ◌/◌, ◌^◌, ◌-◌, any,
}
use wp_open_aurora.Prelude.Text.{split, trim, contains, part, digits_value, strip_prefix}
use wp_open_aurora.Prelude.Int.{parse_int}
use wp_open_aurora.Ip.{
  RequestLike, one, ip_matches, resolve_client_ip, socket_address, hops_of, normalize_ip,
  ipv4_to_int, prefix_mask,
}
use wp_open_aurora.Ip.Hops.{resolve_client_ip_closest}
use wp_open_aurora.Auth.Cidr.{ip_in_cidr}
use wp_open_aurora.Auth.Cidr.Prefix.{ip_in_cidr_iff, IsAddress, address}
use wp_open_aurora.Ssrf.{
  Network, Url, is_blocked_v4, assert_safe_fetch_url, assert_safe_host, allowed_hosts,
  strip_brackets, is_blocked_address,
}
use wp_open_aurora.Ssrf
use wp_open_aurora.Ssrf.Ranges.{is_blocked_v4-intervals, within, intervals}
use wp_open_aurora.Ssrf.Safe.{assert_safe_fetch_url-SafeUrl, SafeUrl}

abbrev number : String → Option ℕ
number s = if s == "8" then some 8 else none

abbrev request : RequestLike
request = record {
  ip = none;
  remote_address = some "10.0.0.1";
  forwarded = some (one "6.6.6.6, 9.9.9.9, 10.0.0.2");
}

resolve_client_ip_closest_example : resolve_client_ip number request ("10.0.0.0/8" ∷ []) ≡ "9.9.9.9"
unfolding ip_matches socket_address normalize_ip trim split contains hops_of ipv4_to_int prefix_mask
    digits_value wp_open_aurora.Prelude.Text.is_octet_text
resolve_client_ip_closest_example =
    resolve_client_ip_closest number request (one "6.6.6.6, 9.9.9.9, 10.0.0.2") ("10.0.0.0/8" ∷ [])
      ("6.6.6.6" ∷ []) "9.9.9.9" ("10.0.0.2" ∷ []) refl refl refl refl refl (refl, tt)

abbrev client_address : IsAddress "10.9.8.7" (address 10 9 8 7)
unfolding split digits_value wp_open_aurora.Prelude.Text.is_octet_text
client_address = record {
  octets = ("10", "9", "8", "7");
  dotted = refl;
  texts = (refl, refl, refl, refl);
  bounded = (omega arith, omega arith, omega arith, omega arith);
  value = refl;
}

abbrev range_address : IsAddress (part (split b'/' "10.0.0.0/8") 0) (address 10 0 0 0)
unfolding split digits_value wp_open_aurora.Prelude.Text.is_octet_text
range_address = record {
  octets = ("10", "0", "0", "0");
  dotted = refl;
  texts = (refl, refl, refl, refl);
  bounded = (omega arith, omega arith, omega arith, omega arith);
  value = refl;
}

ip_in_cidr_iff_example :
    (ip_in_cidr "10.9.8.7" "10.0.0.0/8" ≡ true)
    ↔ (address 10 9 8 7 / 2 ^ (32 - 8) ≡ address 10 0 0 0 / 2 ^ (32 - 8))
unfolding split parse_int wp_open_aurora.Prelude.Text.trim_start digits_value
ip_in_cidr_iff_example =
    ip_in_cidr_iff "10.9.8.7" "10.0.0.0/8" 8 (address 10 9 8 7) (address 10 0 0 0) refl
      (omega arith) client_address range_address

is_blocked_v4-intervals_example : is_blocked_v4 2130706433 ≡ any (within 2130706433) intervals
is_blocked_v4-intervals_example = is_blocked_v4-intervals 2130706433 (omega arith)

abbrev network : Network
network = record {
  parse_url = λ u. some (record { protocol = "https:"; hostname = "8.8.8.8" });
  is_ipv4 = λ h. h == "8.8.8.8";
  is_ipv6 = λ h. false;
  to_lower_case = λ s. s;
  lookup = λ h. none;
}

assert_safe_fetch_url-SafeUrl_example : SafeUrl network "" "https://8.8.8.8/x"
unfolding assert_safe_fetch_url wp_open_aurora.Ssrf.ipv4_to_int is_blocked_v4 strip_brackets
    allowed_hosts assert_safe_host is_blocked_address split digits_value strip_prefix trim Ssrf.mask
assert_safe_fetch_url-SafeUrl_example =
    assert_safe_fetch_url-SafeUrl network "" "https://8.8.8.8/x" refl
