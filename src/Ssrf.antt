-- ===== src/Ssrf.antt =====
-- crates/camelmailer-worker/src/ssrf.rs: the guard on the addresses of outbound requests. Here the
-- addresses and which of them are blocked.
pub mod Guard
pub mod Blocks
mod Tests
use camelmailer.Base.{
  ℕ, ◌+◌, ◌*◌, ◌/◌, ◌%◌, Bool, true, false, ◌&&◌, ◌||◌, Option, none, some, leb, ◌==◌,
  if◌then◌else◌, is_some, not,
}

-- `Ipv4Addr`: the octets, each below 256
pub record Ipv4 : Type 0 where
  pub a : ℕ
  pub b : ℕ
  pub c : ℕ
  pub d : ℕ

-- `Ipv6Addr`: the segments, each below 65536
pub record Ipv6 : Type 0 where
  pub s0 : ℕ
  pub s1 : ℕ
  pub s2 : ℕ
  pub s3 : ℕ
  pub s4 : ℕ
  pub s5 : ℕ
  pub s6 : ℕ
  pub s7 : ℕ

pub data IpAddr : Type 0 where
  v4 : Ipv4 → IpAddr
  v6 : Ipv6 → IpAddr

-- The tests of `std::net::Ipv4Addr`.
is_loopback : Ipv4 → Bool
is_loopback ip = ip.a == 127

is_private : Ipv4 → Bool
is_private ip =
    ip.a == 10 || (ip.a == 172 && (leb 16 ip.b && leb ip.b 31)) || (ip.a == 192 && ip.b == 168)

is_link_local : Ipv4 → Bool
is_link_local ip = ip.a == 169 && ip.b == 254

is_broadcast : Ipv4 → Bool
is_broadcast ip = ip.a == 255 && ip.b == 255 && ip.c == 255 && ip.d == 255

is_documentation : Ipv4 → Bool
is_documentation ip =
    (ip.a == 192 && ip.b == 0 && ip.c == 2)
    || (ip.a == 198 && ip.b == 51 && ip.c == 100)
    || (ip.a == 203 && ip.b == 0 && ip.c == 113)

is_unspecified : Ipv4 → Bool
is_unspecified ip = ip.a == 0 && ip.b == 0 && ip.c == 0 && ip.d == 0

is_multicast : Ipv4 → Bool
is_multicast ip = leb 224 ip.a && leb ip.a 239

unfoldable pub ipv4_blocked : Ipv4 → Bool
unfolding is_loopback is_private is_link_local is_broadcast is_documentation is_unspecified
    is_multicast
ipv4_blocked ip =
    is_loopback ip
    || is_private ip
    || is_link_local ip
    || is_broadcast ip
    || is_documentation ip
    || is_unspecified ip
    || is_multicast ip
    || ip.a == 0
    || (ip.a == 100 && (leb 64 ip.b && leb ip.b 127))
    || (ip.a == 192 && ip.b == 0)
    || (ip.a == 198 && (ip.b == 18 || ip.b == 19))
    || leb 240 ip.a

-- The tests of `std::net::Ipv6Addr`.
unfoldable pub to_ipv4_mapped : Ipv6 → Option Ipv4
to_ipv4_mapped ip =
    if ip.s0 == 0 && ip.s1 == 0 && ip.s2 == 0 && ip.s3 == 0 && ip.s4 == 0 && ip.s5 == 65535
    then some (record { a = ip.s6 / 256; b = ip.s6 % 256; c = ip.s7 / 256; d = ip.s7 % 256 })
    else none

is_loopback_v6 : Ipv6 → Bool
is_loopback_v6 ip =
    ip.s0 == 0
    && ip.s1 == 0
    && ip.s2 == 0
    && ip.s3 == 0
    && ip.s4 == 0
    && ip.s5 == 0
    && ip.s6 == 0
    && ip.s7 == 1

is_unspecified_v6 : Ipv6 → Bool
is_unspecified_v6 ip =
    ip.s0 == 0
    && ip.s1 == 0
    && ip.s2 == 0
    && ip.s3 == 0
    && ip.s4 == 0
    && ip.s5 == 0
    && ip.s6 == 0
    && ip.s7 == 0

-- the upper octet of the first segment is 0xff
is_multicast_v6 : Ipv6 → Bool
is_multicast_v6 ip = ip.s0 / 256 == 255

is_ipv4_compatible : Ipv6 → Bool
is_ipv4_compatible ip =
    ip.s0 == 0
    && ip.s1 == 0
    && ip.s2 == 0
    && ip.s3 == 0
    && ip.s4 == 0
    && ip.s5 == 0
    && not (ip.s6 == 0)

-- `& 0xfe00` and `& 0xffc0` on 16 bits clear the lowest 9 and the lowest 6
is_unique_local : Ipv6 → Bool
is_unique_local ip = ip.s0 / 512 * 512 == 64512

is_unicast_link_local : Ipv6 → Bool
is_unicast_link_local ip = ip.s0 / 64 * 64 == 65152

is_documentation_v6 : Ipv6 → Bool
is_documentation_v6 ip = ip.s0 == 8193 && ip.s1 == 3512

unfoldable pub ipv6_blocked : Ipv6 → Bool
unfolding to_ipv4_mapped is_ipv4_compatible is_loopback_v6 is_unspecified_v6 is_multicast_v6
    is_unique_local is_unicast_link_local is_documentation_v6
ipv6_blocked ip =
    if is_some (to_ipv4_mapped ip) || is_ipv4_compatible ip
    then true
    else is_loopback_v6 ip
      || is_unspecified_v6 ip
      || is_multicast_v6 ip
      || is_unique_local ip
      || is_unicast_link_local ip
      || is_documentation_v6 ip

unfoldable pub ip_blocked : IpAddr → Bool
unfolding ipv4_blocked ipv6_blocked
ip_blocked (v4 ip) = ipv4_blocked ip
ip_blocked (v6 ip) = ipv6_blocked ip
