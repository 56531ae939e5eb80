-- ===== src/Ssrf/Guard/Laws.antt =====
-- Which URLs the guard lets through.
use camelmailer.Base.{
  ℕ, ◌≡◌, refl, sym, ap, ◌∙◌, ◌↔◌, ◌⊎◌, Bool, true, false, ◌||◌, Option, none, some, List, [], ◌∷◌,
  any, All, unwrap_or, if_both, Bool-cases, inl, inr, arith,
}
use camelmailer.Text.{Text, text_eq}
use camelmailer.Ssrf.{IpAddr, ip_blocked}
use camelmailer.Ssrf.Guard.{
  SsrfError, no_host, Result, ok, err, Url, Network, bare_host, new, is_allowlisted, check_literal,
  check_addresses, check_resolved, check_host, check_parsed, check_url,
}

-- A host on the list of hosts, compared in lower case.
abbrev pub listed : {Io : Type 0} (net : Network Io) → List Text → Text → Bool
listed net hosts host = any (λ h. text_eq (net.to_lowercase h) (net.to_lowercase host)) hosts

-- What makes a destination safe: its host is on the list, or is a literal address that is not
-- blocked, or is a name that resolves to some addresses of which none is blocked.
pub data IsSafe {Io : Type 0} (net : Network Io) (hosts : List Text) (host : Text) (port : ℕ)
    : Type 0 where
  is_listed : listed net hosts host ≡ true → IsSafe net hosts host port
  is_literal :
      (ip : IpAddr)
      → net.parse_ip host ≡ some ip
      → ip_blocked ip ≡ false
      → IsSafe net hosts host port
  is_resolved :
      (ip : IpAddr) (ips : List IpAddr)
      → net.parse_ip host ≡ none
      → net.lookup_host host port ≡ ok (ip ∷ ips)
      → All (λ a. ip_blocked a ≡ false) (ip ∷ ips)
      → IsSafe net hosts host port

pub data Permits {Io : Type 0} (net : Network Io) (enabled : Bool) (hosts : List Text) (url : Text)
    : Type 0 where
  is_disabled : enabled ≡ false → Permits net enabled hosts url
  has_host :
      (u : Url) (raw : Text)
      → net.parse_url url ≡ ok u
      → u.host_str ≡ some raw
      → IsSafe net hosts (bare_host raw) (unwrap_or 80 u.port_or_known_default)
      → Permits net enabled hosts url

module _ {Io : Type 0} (net : Network Io) where
  is_allowlisted-new :
      (b : Bool) (hosts : List Text) (host : Text)
      → is_allowlisted net (new net b hosts) host ≡ listed net hosts host
  unfolding is_allowlisted new
  is_allowlisted-new b [] host = refl
  is_allowlisted-new b (h ∷ hosts) host =
      ap (λ (r : Bool). text_eq (net.to_lowercase h) (net.to_lowercase host) || r)
        (is_allowlisted-new b hosts host)

  check_addresses→All :
      (host : Text) (ips : List IpAddr)
      → check_addresses net host ips ≡ ok tt
      → All (λ a. ip_blocked a ≡ false) ips
  unfolding check_addresses
  check_addresses→All host [] e = tt
  check_addresses→All host (ip ∷ ips) e = ground (arith, check_addresses→All host ips)

  All→check_addresses :
      (host : Text) (ips : List IpAddr)
      → All (λ a. ip_blocked a ≡ false) ips
      → check_addresses net host ips ≡ ok tt
  unfolding check_addresses
  All→check_addresses host [] h = refl
  All→check_addresses host (ip ∷ ips) h = rw h.0 (All→check_addresses host ips h.1)

  module _ (enabled : Bool) (hosts : List Text) (host : Text) (port : ℕ) where
    resolved-IsSafe :
        net.parse_ip host ≡ none
        → (r : Result Io (List IpAddr)) → net.lookup_host host port ≡ r
        → check_resolved net host r ≡ ok tt
        → IsSafe net hosts host port
    unfolding check_resolved
    resolved-IsSafe p (err e) l c = ground arith
    resolved-IsSafe p (ok []) l c = ground arith
    resolved-IsSafe p (ok (ip ∷ ips)) l c =
        is_resolved ip ips p l (check_addresses→All host (ip ∷ ips) c)

    addressed-IsSafe :
        (o : Option IpAddr)
        → net.parse_ip host ≡ o
        → (elim o [
          | some ip ↦ check_literal net host ip
          | none ↦ check_resolved net host (net.lookup_host host port)
        ])
          ≡ ok tt
        → IsSafe net hosts host port
    addressed-IsSafe none p c = resolved-IsSafe p (net.lookup_host host port) refl c
    addressed-IsSafe (some ip) p c = is_literal ip p (unfold check_literal in ground arith)

    abbrev addressed : Result (SsrfError Io) Unit
    addressed = elim (net.parse_ip host) [
      | some ip ↦ check_literal net host ip
      | none ↦ check_resolved net host (net.lookup_host host port)
    ]

    check_host-unlisted :
        listed net hosts host ≡ false → check_host net (new net enabled hosts) host port ≡ addressed
    unfolding check_host
    check_host-unlisted f = rw (is_allowlisted-new enabled hosts host ∙ f) refl

    check_host-listed :
        listed net hosts host ≡ true → check_host net (new net enabled hosts) host port ≡ ok tt
    unfolding check_host
    check_host-listed t = rw (is_allowlisted-new enabled hosts host ∙ t) refl

    check_host-IsSafe :
        check_host net (new net enabled hosts) host port ≡ ok tt → IsSafe net hosts host port
    check_host-IsSafe c = elim (Bool-cases (listed net hosts host)) [
      | inl t ↦ is_listed t
      | inr f ↦ addressed-IsSafe (net.parse_ip host) refl (sym (check_host-unlisted f) ∙ c)
    ]

    addressed-ok : IsSafe net hosts host port → (listed net hosts host ≡ true) ⊎ (addressed ≡ ok tt)
    addressed-ok (is_listed t) = inl t
    addressed-ok (is_literal ip p b) =
        inr (rw (addressed, p) (unfold check_literal in ground arith))
    addressed-ok (is_resolved ip ips p l a) =
        inr
          (rw (addressed, p, l) ((unfold check_resolved in All→check_addresses host (ip ∷ ips) a)))

    IsSafe-check_host :
        IsSafe net hosts host port → check_host net (new net enabled hosts) host port ≡ ok tt
    IsSafe-check_host s = elim (Bool-cases (listed net hosts host)) [
      | inl t ↦ check_host-listed t
      | inr f ↦ elim (addressed-ok s) [
        | inl t ↦ check_host-listed t
        | inr a ↦ check_host-unlisted f ∙ a
      ]
    ]

  module _ (enabled : Bool) (hosts : List Text) (url : Text) where
    hosted :
        (u : Url)
        → net.parse_url url ≡ ok u
        → (o : Option Text) → u.host_str ≡ o
        → (elim o [
          | none ↦ err no_host
          | some raw ↦
              check_host net
                (new net enabled hosts)
                (bare_host raw)
                (unwrap_or 80 u.port_or_known_default)
        ])
          ≡ ok tt
        → Permits net enabled hosts url
    hosted u p none h c = ground arith
    hosted u p (some raw) h c =
        has_host u raw p h
          (check_host-IsSafe enabled hosts (bare_host raw) (unwrap_or 80 u.port_or_known_default) c)

    parsed :
        (r : Result Text Url)
        → net.parse_url url ≡ r
        → check_parsed net (new net enabled hosts) r ≡ ok tt
        → Permits net enabled hosts url
    unfolding check_parsed
    parsed (err e) p c = ground arith
    parsed (ok u) p c = hosted u p u.host_str refl c

    check_url-Permits :
        (b : Bool)
        → enabled ≡ b
        → check_url net (new net b hosts) url ≡ ok tt
        → Permits net enabled hosts url
    unfolding check_url new
    check_url-Permits false e c = is_disabled e
    check_url-Permits true e c = parsed (net.parse_url url) refl (rw e c)

    Permits-check_url :
        Permits net enabled hosts url → check_url net (new net enabled hosts) url ≡ ok tt
    unfolding check_url
    Permits-check_url (is_disabled d) = unfold new in ground arith
    Permits-check_url (has_host u raw p h s) =
        unfold new in
        if_both (λ (r : Result (SsrfError Io) Unit). r ≡ ok tt) enabled (λ _. host_checked)
          (λ _. refl)
      where
        host_checked : check_parsed net (new net enabled hosts) (net.parse_url url) ≡ ok tt
        host_checked = rw p (
            unfold check_parsed in
            rw h (
              IsSafe-check_host enabled hosts (bare_host raw) (unwrap_or 80 u.port_or_known_default)
                s))

  -- A guard lets a URL through exactly when it is disabled or the URL has a host that is on its list
  -- of hosts in lower case, or is an address that is not blocked, or resolves to addresses of which
  -- there is one and none is blocked.
  pub check_url_iff :
      (enabled : Bool) (hosts : List Text) (url : Text)
      → (check_url net (new net enabled hosts) url ≡ ok tt) ↔ Permits net enabled hosts url
  check_url_iff enabled hosts url =
      (check_url-Permits enabled hosts url enabled refl, Permits-check_url enabled hosts url)
