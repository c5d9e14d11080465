-- ===== src/Resource/Last.antt =====
-- The last address of an IPv6 prefix, as internal/controller/poolsync_backends.go computes it.
use dynamic_prefix_operator.Prelude.{ℕ, ◌+◌, ◌-◌, ◌^◌, ◌≤◌, ◌≡◌, refl, arith, false, some}
use dynamic_prefix_operator.Prelude.Int.{pos, ltb_ℤ, pos_part, ◌-ℤ◌}
use dynamic_prefix_operator.Net.{mask, masked-ipv6, ipv6_prefix, bits-ipv6}
use dynamic_prefix_operator.AddressRange.Suffix.{at_value, mask-mask}
use dynamic_prefix_operator.Resource.{
  last_addr_of_prefix, last_of, addr_to_big_int, big_int_to_addr,
}

shorter :
    (n : ℕ) → n ≤ 128 → (ltb_ℤ (pos 128) (pos n) ≡ false) × (pos_part (pos 128 -ℤ pos n) ≡ 128 - n)
unfolding ◌-ℤ◌
shorter n h = (ground arith, ground arith)

pub last_addr_of_prefix-ipv6 :
    (u n : ℕ)
    → n ≤ 128
    → last_addr_of_prefix (ipv6_prefix u n) ≡ some (at_value (mask n u + (2 ^ (128 - n) - 1)))
unfolding last_addr_of_prefix last_of addr_to_big_int big_int_to_addr ◌-ℤ◌
last_addr_of_prefix-ipv6 u n h =
    rw (masked-ipv6 u n h, bits-ipv6 (mask n u) n, (shorter n h).0, (shorter n h).1, mask-mask n u)
      refl
