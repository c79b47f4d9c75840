-- ===== src/Ssrf/Safe.antt =====
-- What the guard lets through.
use wp_open_aurora.Prelude.{
  ◌≡◌, refl, arith, Bool, true, false, ◌||◌, some, List, eqb, any, includes, String, length, ◌==◌,
  inl, inr, if◌then◌else◌, Bool-cases, Option-cases,
}
use wp_open_aurora.Prelude.Results.{Result, ok, err}
use wp_open_aurora.Ssrf.{
  Network, Url, Blocked, is_blocked_address, allowed_hosts, strip_brackets, assert_safe_fetch_url,
  assert_safe_host,
}

-- The hosts that the guard lets through: the allowed ones, the literals that are not blocked, and the
-- names that resolve to at least one address and to no blocked one.
data SafeHost (net : Network) (env host : String) : Type 0 where
  allowed : includes (net.to_lower_case host) (allowed_hosts net env) ≡ true → SafeHost net env host
  literal :
      (net.is_ipv4 host || net.is_ipv6 host) ≡ true
      → is_blocked_address net host ≡ false
      → SafeHost net env host
  resolved :
      (addresses : List String)
      → net.lookup host ≡ some addresses
      → eqb (length addresses) 0 ≡ false
      → any (is_blocked_address net) addresses ≡ false
      → SafeHost net env host

refused :
    (b : Bool) (e : Blocked) (r : Result Blocked (Unit {0}))
    → (if b then err e else r) ≡ ok tt
    → (b ≡ false) × (r ≡ ok tt)
refused true e r h = ground arith
refused false e r h = (refl, h)

assert_safe_host-SafeHost :
    (net : Network) (env host : String)
    → assert_safe_host net env host ≡ ok tt
    → SafeHost net env host
unfolding assert_safe_host
assert_safe_host-SafeHost net env host h =
    elim (Bool-cases (includes (net.to_lower_case host) (allowed_hosts net env))) [
      | inl a ↦ allowed a
      | inr a ↦ elim (Bool-cases (net.is_ipv4 host || net.is_ipv6 host)) [
        | inl l ↦ literal l (refused _ _ _ (rw (a, l) at h)).0
        | inr l ↦ elim (Option-cases (net.lookup host)) [
          | inl n ↦ let x = rw (a, l, n) at h in ground arith
          | inr (addresses, e) ↦
              let (some_found, rest) = refused _ _ _ (rw (a, l, e) at h) in
              resolved addresses e some_found (refused _ _ _ rest).0
        ]
      ]
    ]

pub record SafeUrl (net : Network) (env raw_url : String) : Type 0 where
  url : Url
  parsed : net.parse_url raw_url ≡ some url
  web : ((url.protocol == "http:") || (url.protocol == "https:")) ≡ true
  safe : SafeHost net env (strip_brackets net url.hostname)

-- A URL that passes the guard parses, has the scheme http or https, and a safe host.
pub assert_safe_fetch_url-SafeUrl :
    (net : Network) (env raw_url : String)
    → assert_safe_fetch_url net env raw_url ≡ ok tt
    → SafeUrl net env raw_url
unfolding assert_safe_fetch_url
assert_safe_fetch_url-SafeUrl net env raw_url h = elim (Option-cases (net.parse_url raw_url)) [
  | inl e ↦ ground arith
  | inr (url, e) ↦ record {
    url = url;
    parsed = e;
    web = ground arith;
    safe = assert_safe_host-SafeHost net env (strip_brackets net url.hostname) (ground arith);
  }
]
