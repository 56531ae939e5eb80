-- ===== src/Ssrf/Tests.antt =====
-- The guard on small inputs.
use camelmailer.Base.{◌≡◌, refl, ◌↔◌, map, true, false, none, some, [], ◌∷◌, if◌then◌else◌, arith}
use camelmailer.Text.{codes, text_eq, to_ascii_lowercase}
use camelmailer.Ssrf.{Ipv4, v4, ipv4_blocked, ipv6_blocked, ip_blocked}
use camelmailer.Ssrf.Guard.{blocked, ok, err, Network, new, check_url}
use camelmailer.Ssrf.Guard.Laws.{Permits, check_url_iff}
use camelmailer.Ssrf.Blocks.{to_bits, in_blocks, ipv4_blocked-in_blocks}

abbrev metadata : Ipv4
metadata = record { a = 169; b = 254; c = 169; d = 254 }

abbrev public_dns : Ipv4
public_dns = record { a = 8; b = 8; c = 8; d = 8 }

-- Every URL has its own text for its host; `mixed.de` has a public and a blocked address.
abbrev net : Network Unit
net = record {
  to_lowercase = λ t. map to_ascii_lowercase t;
  parse_url = λ t. ok (record { host_str = some t; port_or_known_default = none });
  parse_ip = λ t. if text_eq t (codes "8.8.8.8") then some (v4 public_dns) else none;
  lookup_host = λ t port.
      if text_eq t (codes "mixed.de") then ok (v4 public_dns ∷ v4 metadata ∷ []) else ok [];
}

mixed_is_blocked :
    check_url net (new net true []) (codes "mixed.de")
    ≡ err (blocked (codes "mixed.de") (v4 metadata))
unfolding check_url new codes text_eq ip_blocked
mixed_is_blocked = refl

listed_is_let_through :
    check_url net (new net true (codes "MIXED.de" ∷ [])) (codes "mixed.DE") ≡ ok tt
unfolding check_url new codes text_eq to_ascii_lowercase
listed_is_let_through = refl

-- `::2` has its upper 96 bits zero.
low_address_passes :
    ipv6_blocked (record { s0 = 0; s1 = 0; s2 = 0; s3 = 0; s4 = 0; s5 = 0; s6 = 0; s7 = 2 }) ≡ false
unfolding ipv6_blocked
low_address_passes = refl

check_url_iff_mixed :
    (check_url net (new net true []) (codes "mixed.de") ≡ ok tt)
    ↔ Permits net true [] (codes "mixed.de")
check_url_iff_mixed = check_url_iff net true [] (codes "mixed.de")

ipv4_blocked-in_blocks_metadata : ipv4_blocked metadata ≡ in_blocks (to_bits metadata)
ipv4_blocked-in_blocks_metadata =
    ipv4_blocked-in_blocks metadata (omega arith, omega arith, omega arith, omega arith)
