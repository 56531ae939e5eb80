-- ===== src/Ssrf/Blocks.antt =====
-- The blocked IPv4 addresses as networks in CIDR notation, over the address as one number.
use camelmailer.Base.{
  ℕ, ◌+◌, ◌*◌, ◌/◌, ◌<◌, ◌≡◌, refl, sym, ◌∙◌, Bool, ◌&&◌, ◌||◌, leb, ◌==◌, arith,
}
use camelmailer.Ssrf.{Ipv4, ipv4_blocked}

-- The address as a number of 32 bits.
abbrev pub to_bits : Ipv4 → ℕ
to_bits ip = ip.a * 16777216 + ip.b * 65536 + ip.c * 256 + ip.d

abbrev pub IsIpv4 : Ipv4 → Type 0
IsIpv4 ip = (ip.a < 256) × (ip.b < 256) × (ip.c < 256) × (ip.d < 256)

-- The networks 0/8, 10/8, 100.64/10, 127/8, 169.254/16, 172.16/12, 192.0/16, 192.168/16, 198.18/15,
-- 198.51.100/24, 203.0.113/24 and 224/3, each by the upper bits of its addresses.
abbrev pub in_blocks : ℕ → Bool
in_blocks n =
    n / 16777216 == 0
    || n / 16777216 == 10
    || n / 4194304 == 401
    || n / 16777216 == 127
    || n / 65536 == 43518
    || n / 1048576 == 2753
    || n / 65536 == 49152
    || n / 65536 == 49320
    || n / 131072 == 25353
    || n / 256 == 12989284
    || n / 256 == 13303921
    || n / 536870912 == 7

module _ (ip : Ipv4) (w : IsIpv4 ip) where
  bits_8 : to_bits ip / 16777216 ≡ ip.a
  bits_8 = omega arith

  bits_10 : to_bits ip / 4194304 ≡ ip.a * 4 + ip.b / 64
  bits_10 = omega arith

  bits_12 : to_bits ip / 1048576 ≡ ip.a * 16 + ip.b / 16
  bits_12 = omega arith

  bits_15 : to_bits ip / 131072 ≡ ip.a * 128 + ip.b / 2
  bits_15 = omega arith

  bits_16 : to_bits ip / 65536 ≡ ip.a * 256 + ip.b
  bits_16 = omega arith

  bits_24 : to_bits ip / 256 ≡ ip.a * 65536 + ip.b * 256 + ip.c
  bits_24 = omega arith

  bits_3 : to_bits ip / 536870912 ≡ ip.a / 32
  bits_3 = omega arith

  -- The octets of an address in one of the networks.
  abbrev octets_in_blocks : Bool
  octets_in_blocks =
      ip.a == 0
      || ip.a == 10
      || (ip.a == 100 && (leb 64 ip.b && leb ip.b 127))
      || ip.a == 127
      || (ip.a == 169 && ip.b == 254)
      || (ip.a == 172 && (leb 16 ip.b && leb ip.b 31))
      || (ip.a == 192 && ip.b == 0)
      || (ip.a == 192 && ip.b == 168)
      || (ip.a == 198 && (ip.b == 18 || ip.b == 19))
      || (ip.a == 198 && ip.b == 51 && ip.c == 100)
      || (ip.a == 203 && ip.b == 0 && ip.c == 113)
      || leb 224 ip.a

  block_100 : (ip.a * 4 + ip.b / 64 == 401) ≡ (ip.a == 100 && (leb 64 ip.b && leb ip.b 127))
  block_100 = ground arith

  block_198_51 :
      (ip.a * 65536 + ip.b * 256 + ip.c == 12989284) ≡ (ip.a == 198 && ip.b == 51 && ip.c == 100)
  block_198_51 = ground arith

  block_172 : (ip.a * 16 + ip.b / 16 == 2753) ≡ (ip.a == 172 && (leb 16 ip.b && leb ip.b 31))
  block_172 = ground arith

  block_198 : (ip.a * 128 + ip.b / 2 == 25353) ≡ (ip.a == 198 && (ip.b == 18 || ip.b == 19))
  block_198 = ground arith

  block_203 :
      (ip.a * 65536 + ip.b * 256 + ip.c == 13303921) ≡ (ip.a == 203 && ip.b == 0 && ip.c == 113)
  block_203 = ground arith

  block_16 : (x y : ℕ) → y < 256 → (ip.a * 256 + ip.b == x * 256 + y) ≡ (ip.a == x && ip.b == y)
  block_16 x y h = ground arith

  block_224 : (ip.a / 32 == 7) ≡ leb 224 ip.a
  block_224 = ground arith

  in_blocks-octets : in_blocks (to_bits ip) ≡ octets_in_blocks
  in_blocks-octets =
      rw
        (
          bits_3,
          bits_8,
          bits_10,
          bits_12,
          bits_15,
          bits_16,
          bits_24,
          block_100,
          block_172,
          block_198,
          block_198_51,
          block_203,
          block_224,
          block_16 169 254 (omega arith),
          block_16 192 0 (omega arith),
          block_16 192 168 (omega arith),
        )
        refl

  octets-blocked : octets_in_blocks ≡ ipv4_blocked ip
  unfolding ipv4_blocked
  octets-blocked = ground arith

-- An IPv4 address is blocked exactly when its 32 bits lie in one of the twelve networks.
pub ipv4_blocked-in_blocks : (ip : Ipv4) → IsIpv4 ip → ipv4_blocked ip ≡ in_blocks (to_bits ip)
ipv4_blocked-in_blocks ip w = sym (in_blocks-octets ip w ∙ octets-blocked ip w)
