-- ===== src/Ssrf/Guard.antt =====
-- `SsrfGuard` of crates/camelmailer-worker/src/ssrf.rs: the check of a URL before a request is sent.
pub mod Laws
use camelmailer.Base.{
  ℕ, Bool, true, false, Option, none, some, List, [], ◌∷◌, map, any, unwrap_or, if◌then◌else◌,
  is_empty,
}
use camelmailer.Text.{Text, text_eq, strip_prefix, strip_suffix_char, codes}
use camelmailer.Ssrf.{IpAddr, ip_blocked}

-- `Io` is the resolver's error.
pub data SsrfError (Io : Type 0) : Type 0 where
  invalid_url : Text → SsrfError Io
  no_host : SsrfError Io
  resolve : Text → Io → SsrfError Io
  unresolved : Text → SsrfError Io
  blocked : Text → IpAddr → SsrfError Io

pub data Result (E A : Type 0) : Type 0 where
  ok : A → Result E A
  err : E → Result E A

pub record SsrfGuard : Type 0 where
  pub enabled : Bool
  pub allowed_hosts : List Text

-- What a parsed URL says of its host and its port (`reqwest::Url`).
pub record Url : Type 0 where
  pub host_str : Option Text
  pub port_or_known_default : Option ℕ

-- The lower case of Unicode, the URL parser, the parser of addresses and the resolver.
pub record Network (Io : Type 0) : Type 0 where
  pub to_lowercase : Text → Text
  pub parse_url : Text → Result Text Url
  pub parse_ip : Text → Option IpAddr
  pub lookup_host : Text → ℕ → Result Io (List IpAddr)

-- The host without the brackets of an IPv6 literal.
unfoldable pub bare_host : Text → Text
unfolding strip_prefix strip_suffix_char codes
bare_host raw = elim (strip_prefix raw (codes "[")) [
  | none ↦ raw
  | some h ↦ unwrap_or raw (strip_suffix_char b']' h)
]

module _ {Io : Type 0} (net : Network Io) where
  unfoldable pub new : Bool → List Text → SsrfGuard
  new enabled hosts = record { enabled = enabled; allowed_hosts = map net.to_lowercase hosts }

  unfoldable pub is_allowlisted : SsrfGuard → Text → Bool
  unfolding text_eq
  is_allowlisted guard host = any (λ h. text_eq h (net.to_lowercase host)) guard.allowed_hosts

  unfoldable pub check_literal : Text → IpAddr → Result (SsrfError Io) Unit
  unfolding ip_blocked
  check_literal host ip = if ip_blocked ip then err (blocked host ip) else ok tt

  unfoldable pub check_addresses : Text → List IpAddr → Result (SsrfError Io) Unit
  unfolding ip_blocked
  check_addresses host [] = ok tt
  check_addresses host (ip ∷ ips) =
      let rest = check_addresses host ips in if ip_blocked ip then err (blocked host ip) else rest

  unfoldable pub check_resolved : Text → Result Io (List IpAddr) → Result (SsrfError Io) Unit
  unfolding check_addresses
  check_resolved host (err source) = err (resolve host source)
  check_resolved host (ok ips) =
      if is_empty ips then err (unresolved host) else check_addresses host ips

  unfoldable pub check_host : SsrfGuard → Text → ℕ → Result (SsrfError Io) Unit
  unfolding check_literal check_resolved is_allowlisted
  check_host guard host port =
      if is_allowlisted guard host then ok tt else elim (net.parse_ip host) [
        | some ip ↦ check_literal host ip
        | none ↦ check_resolved host (net.lookup_host host port)
      ]

  unfoldable pub check_parsed : SsrfGuard → Result Text Url → Result (SsrfError Io) Unit
  unfolding check_host bare_host
  check_parsed guard (err message) = err (invalid_url message)
  check_parsed guard (ok url) = elim url.host_str [
    | none ↦ err no_host
    | some raw ↦ check_host guard (bare_host raw) (unwrap_or 80 url.port_or_known_default)
  ]

  unfoldable pub check_url : SsrfGuard → Text → Result (SsrfError Io) Unit
  unfolding check_parsed
  check_url guard url = if guard.enabled then check_parsed guard (net.parse_url url) else ok tt
