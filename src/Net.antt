-- ===== src/Net.antt =====
-- The part of Go's `net/netip` that the program computes with: addresses as a 128-bit value with
-- the kind of address it is, and prefixes as an address with a length. An IPv4 address is held as
-- its IPv4-mapped value, as `netip` does, so `As16` is the value for every kind.
use dynamic_prefix_operator.Prelude.{
  ℕ, suc, ◌-◌, ◌*◌, ◌/◌, ◌%◌, ◌^◌, ◌+◌, ◌≤◌, ◌<◌, ◌≡◌, Bool, true, false, not, ◌&&◌, ◌||◌, String,
  str_eq, ltb, leb, ◌==◌, if◌then◌else◌, Option, none, some, arith,
}
use dynamic_prefix_operator.Prelude.Int.{ℤ, pos, negsuc, sub_ℕ}

-- `ip6 zone`, where an address without a zone has the zone "".
pub data Kind : Type 0 where
  unset ip4 : Kind
  ip6 : String → Kind

pub record Addr : Type 0 where
  pub kind : Kind
  pub value : ℕ

-- `bits_plus_one` is 0 in an invalid prefix.
pub record NetPrefix : Type 0 where
  pub addr : Addr
  pub bits_plus_one : ℕ

abbrev pub kind_eq : Kind → Kind → Bool
kind_eq unset unset = true
kind_eq ip4 ip4 = true
kind_eq (ip6 a) (ip6 b) = str_eq a b
kind_eq _ _ = false

abbrev pub zone_of : Kind → String
zone_of unset = ""
zone_of ip4 = ""
zone_of (ip6 z) = z

abbrev pub kind_is4 : Kind → Bool
kind_is4 ip4 = true
kind_is4 _ = false

abbrev pub kind_is6 : Kind → Bool
kind_is6 (ip6 z) = true
kind_is6 _ = false

abbrev pub kind_bit_len : Kind → ℕ
kind_bit_len unset = 0
kind_bit_len ip4 = 32
kind_bit_len (ip6 z) = 128

abbrev pub is4 : Addr → Bool
is4 a = kind_is4 a.kind

abbrev pub is6 : Addr → Bool
is6 a = kind_is6 a.kind

abbrev pub zone : Addr → String
zone a = zone_of a.kind

abbrev pub bit_len : Addr → ℕ
bit_len a = kind_bit_len a.kind

abbrev pub addr_eq : Addr → Addr → Bool
addr_eq a b = kind_eq a.kind b.kind && a.value == b.value

abbrev pub drop_zone : Kind → Kind
drop_zone (ip6 z) = ip6 ""
drop_zone k = k

abbrev pub without_zone : Addr → Addr
without_zone a = record { kind = drop_zone a.kind; value = a.value }

-- ::ffff:0:0/96
abbrev pub is4_in6 : Addr → Bool
is4_in6 a = is6 a && a.value / 2 ^ 32 == 0xffff

abbrev pub unmap : Addr → Addr
unmap a = if is4_in6 a then record { kind = ip4; value = a.value } else a

-- The byte `i` of `As16`.
abbrev pub byte_at : ℕ → Addr → ℕ
byte_at i a = a.value / 256 ^ (15 - i) % 256

abbrev loopback_of : Addr → Bool
loopback_of a = if is4 a then byte_at 12 a == 127 else (is6 a && a.value == 1)

unfoldable pub is_loopback : Addr → Bool
is_loopback a = loopback_of (unmap a)

abbrev multicast_of : Addr → Bool
multicast_of a = if is4 a then byte_at 12 a / 16 == 14 else (is6 a && byte_at 0 a == 0xff)

unfoldable pub is_multicast : Addr → Bool
is_multicast a = multicast_of (unmap a)

unfoldable pub is_unspecified : Addr → Bool
is_unspecified a =
    addr_eq a (record { kind = ip4; value = 0xffff_0000_0000 })
    || addr_eq a (record { kind = ip6 ""; value = 0 })

abbrev link_local_of : Addr → Bool
link_local_of a =
    if is4 a
    then (byte_at 12 a == 169 && byte_at 13 a == 254)
    else (is6 a && a.value / 2 ^ 118 == 0xfe80 / 2 ^ 6)

unfoldable pub is_link_local_unicast : Addr → Bool
is_link_local_unicast a = link_local_of (unmap a)

-- `bits` clears what lies below the first `n` of 128 bits.
abbrev pub mask : ℕ → ℕ → ℕ
mask n v = v / 2 ^ (128 - n) * 2 ^ (128 - n)

-- `Prefix.Bits`: -1 for an invalid prefix.
abbrev pub bits : NetPrefix → ℤ
bits p = sub_ℕ p.bits_plus_one 1

abbrev pub is_valid : NetPrefix → Bool
is_valid p = ltb 0 p.bits_plus_one

abbrev pub no_addr : Addr
no_addr = record { kind = unset; value = 0 }

abbrev pub no_prefix : NetPrefix
no_prefix = record { addr = no_addr; bits_plus_one = 0 }

-- `PrefixFrom`: no masking; a length that does not fit gives an invalid prefix.
unfoldable pub prefix_from : Addr → ℤ → NetPrefix
prefix_from a (negsuc n) = record { addr = without_zone a; bits_plus_one = 0 }
prefix_from a (pos n) = record {
  addr = without_zone a;
  bits_plus_one = if (ltb 0 (bit_len a) && leb n (bit_len a)) then suc n else 0;
}

abbrev masked_addr : Addr → ℕ → Addr
masked_addr a n = record { kind = a.kind; value = mask (n + (128 - bit_len a)) a.value }

-- `Addr.Prefix`; `none` is its error.
unfoldable pub addr_prefix : Addr → ℤ → Option NetPrefix
unfolding prefix_from
addr_prefix a (negsuc n) = none
addr_prefix a (pos n) =
    if bit_len a == 0
    then some no_prefix
    else if ltb (bit_len a) n
    then none
    else some (prefix_from (masked_addr a n) (pos n))

-- `Prefix.Masked`: the zero prefix for an invalid one.
unfoldable pub masked : NetPrefix → NetPrefix
unfolding addr_prefix
masked p = elim (addr_prefix p.addr (bits p)) [ none ↦ no_prefix | some q ↦ q ]

-- `Prefix.Contains`: the leading bits agree. An address with a zone is in no prefix.
unfoldable pub contains : NetPrefix → Addr → Bool
contains p a =
    is_valid p
    && str_eq (zone a) ""
    && not (bit_len a == 0)
    && bit_len p.addr == bit_len a
    && mask (p.bits_plus_one - 1 + (128 - bit_len a)) p.addr.value
      == mask (p.bits_plus_one - 1 + (128 - bit_len a)) a.value

unfoldable pub net_prefix_eq : NetPrefix → NetPrefix → Bool
net_prefix_eq p q = addr_eq p.addr q.addr && p.bits_plus_one == q.bits_plus_one

-- A valid IPv6 prefix, as every prefix the program accepts is.
pub record IsIpv6 (p : NetPrefix) : Type 0 where
  pub no_zone : p.addr.kind ≡ ip6 ""
  pub length_set : 1 ≤ p.bits_plus_one
  pub length_fits : p.bits_plus_one ≤ 129
  pub value_fits : p.addr.value < 2 ^ 128

-- The prefix of `n` bits at the value `v`, with no zone.
abbrev pub ipv6_prefix : ℕ → ℕ → NetPrefix
ipv6_prefix v n = record { addr = record { kind = ip6 ""; value = v }; bits_plus_one = suc n }

pub masked-ipv6 : (v n : ℕ) → n ≤ 128 → masked (ipv6_prefix v n) ≡ ipv6_prefix (mask n v) n
unfolding masked
masked-ipv6 v n h = ground arith

pub bits-ipv6 : (v n : ℕ) → bits (ipv6_prefix v n) ≡ pos n
bits-ipv6 v n = ground arith

pub addr_prefix-ipv6 :
    (w n : ℕ)
    → n ≤ 128
    → addr_prefix (record { kind = ip6 ""; value = w }) (pos n) ≡ some (ipv6_prefix (mask n w) n)
unfolding addr_prefix
addr_prefix-ipv6 w n h = ground arith

pub ipv6-shape : (p : NetPrefix) → IsIpv6 p → p ≡ ipv6_prefix p.addr.value (p.bits_plus_one - 1)
ipv6-shape p v = ground arith

bits_back : (n : ℕ) → suc n - 1 + 0 ≡ n
bits_back n = omega arith

-- Membership in an IPv6 prefix is agreement of the leading bits.
pub contains-ipv6 :
    (v n w : ℕ)
    → contains (ipv6_prefix v n) (record { kind = ip6 ""; value = w }) ≡ (mask n v == mask n w)
unfolding contains
contains-ipv6 v n w = rw (bits_back n) (ground arith)
