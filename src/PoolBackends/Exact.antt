-- ===== src/PoolBackends/Exact.antt =====
-- Ranges that are blocks: `exactCIDRForAddressRange` and `calicoCIDRForConfig` of
-- internal/controller/poolsync_backends.go.
use native.Mathlib.Nat.{mod-lt, mod-add-div'}
use dynamic_prefix_operator.Prelude.{
  ℕ, ◌+◌, ◌-◌, ◌*◌, ◌/◌, ◌%◌, ◌^◌, ◌≤◌, ◌<◌, ◌≡◌, refl, sym, ◌∙◌, subst, arith, ltb, leb, ◌==◌,
  ◌&&◌, if◌then◌else◌, Bool, true, Bool-cases, inl, inr, some, Result, ok, err, ◌≢◌,
}
use dynamic_prefix_operator.Prelude.Powers.{pow_pos}
use dynamic_prefix_operator.Bytes.{bytes}
use dynamic_prefix_operator.Net.{mask, masked-ipv6, ipv6_prefix, contains, contains-ipv6}
use dynamic_prefix_operator.Ownership.Texts.{Text}
use dynamic_prefix_operator.Ownership.{Netip}
use dynamic_prefix_operator.Resource.{last_addr_of_prefix}
use dynamic_prefix_operator.Resource.Last.{last_addr_of_prefix-ipv6}
use dynamic_prefix_operator.AddressRange.{range_to_cidr, common_bits}
use dynamic_prefix_operator.AddressRange.Suffix.{at_value, mask-mask}
use dynamic_prefix_operator.AddressRange.Cidr.{range_to_cidr-ipv6, common_at_most}
use dynamic_prefix_operator.PoolSync.{PoolConfiguration, PoolError}
use dynamic_prefix_operator.PoolBackends.{
  exact_cidr_for_address_range, calico_cidr_for_config, exact_of, only_exact, same_family,
}

next_block : (q r h : ℕ) → q < r → q * h + h ≤ r * h
next_block q r h l = grind arith

block_bounds :
    (q r h l : ℕ)
    → l < h
    → (q * h == r * h) ≡ (leb (q * h) (r * h + l) && leb (r * h + l) (q * h + (h - 1)))
block_bounds q r h l lt = elim (Bool-cases (ltb q r)) [
  | inl before ↦ let s = next_block q r h (ground arith) in ground arith
  | inr other ↦ elim (Bool-cases (ltb r q)) [
    | inl after ↦ let s = next_block r q h (ground arith) in ground arith
    | inr same ↦ let e : q ≡ r = ground arith in rw e (ground arith)
  ]
]

-- The addresses of a prefix lie from its first to its last.
pub contains-bounds :
    (u n x : ℕ)
    → contains (ipv6_prefix u n) (at_value x)
      ≡ (leb (mask n u) x && leb x (mask n u + (2 ^ (128 - n) - 1)))
contains-bounds u n x =
    let h = 2 ^ (128 - n) in
    let e : x / h * h + x % h ≡ x = omega (arith, mod-add-div' x h) in
    contains-ipv6 u n x
    ∙ subst (λ (y : ℕ). (mask n u == mask n x) ≡ (leb (mask n u) y && leb y (mask n u + (h - 1)))) e
        (block_bounds (u / h) (x / h) h (x % h) (mod-lt x (pow_pos (128 - n))))

-- Whether two addresses are the ends of a prefix.
abbrev ends : ℕ → ℕ → ℕ → Bool
ends n v w = mask n v == v && mask n v + (2 ^ (128 - n) - 1) == w

exact_of-ends :
    (lib : Netip) (v w : ℕ)
    → let n = common_bits (bytes 16 v) (bytes 16 w) in
      let cidr = range_to_cidr (at_value v) (at_value w) in
      exact_of lib (at_value v) (at_value w) cidr (last_addr_of_prefix cidr)
      ≡ ok (lib.prefix_string cidr, ends n v w)
unfolding exact_of
exact_of-ends lib v w =
    let n = common_bits (bytes 16 v) (bytes 16 w) in
    let h : n ≤ 128 = common_at_most v w in
    rw
      (
        range_to_cidr-ipv6 v w,
        last_addr_of_prefix-ipv6 (mask n v) n h,
        masked-ipv6 (mask n v) n h,
        mask-mask n v,
      )
      refl

by_ends :
    (m h v w x : ℕ)
    → (m == v && m + h == w) ≡ true
    → (leb m x && leb x (m + h)) ≡ (leb v x && leb x w)
by_ends m h v w x e = ground arith

contains-ends :
    (n v w x : ℕ)
    → ends n v w ≡ true
    → contains (ipv6_prefix (mask n v) n) (at_value x) ≡ (leb v x && leb x w)
contains-ends n v w x e =
    contains-bounds (mask n v) n x
    ∙ rw (mask-mask n v) (by_ends (mask n v) (2 ^ (128 - n) - 1) v w x e)

refused : {t : Text} (e : PoolError) → ◌≢◌ {A = Result PoolError Text} (ok t) (err e)
refused e h = cc

ok_eq : {s t : Text} → ◌≡◌ {A = Result PoolError Text} (ok s) (ok t) → s ≡ t
ok_eq h = cc

module _ (lib : Netip) (c : PoolConfiguration) (v w : ℕ) (ranged : c.use_address_range ≡ true)
    (parsed_start : lib.parse_addr c.start ≡ some (at_value v))
    (parsed_end : lib.parse_addr c.end ≡ some (at_value w)) where
  calico_cases : calico_cidr_for_config lib c ≡ (
      if ltb w v
      then err PoolError.reversed
      else only_exact c (
        lib.prefix_string (range_to_cidr (at_value v) (at_value w)),
        ends (common_bits (bytes 16 v) (bytes 16 w)) v w,
      ))
  unfolding calico_cidr_for_config exact_cidr_for_address_range same_family
  calico_cases = elim (Bool-cases (ltb w v)) [
    | inl after ↦ rw (ranged, parsed_start, parsed_end, after) refl
    | inr ordered ↦ rw (ranged, parsed_start, parsed_end, ordered, exact_of-ends lib v w) refl
  ]

  -- When a range, whose texts parse as IPv6 addresses without zones, is written as one prefix, that is
  -- the prefix found for the range, and it contains exactly the addresses from the first to the last.
  pub calico_cidr_for_config-contains :
      (x : ℕ) (cidr : Text)
      → calico_cidr_for_config lib c ≡ ok cidr
      → (cidr ≡ lib.prefix_string (range_to_cidr (at_value v) (at_value w)))
        × (contains (range_to_cidr (at_value v) (at_value w)) (at_value x) ≡ (leb v x && leb x w))
  unfolding only_exact
  calico_cidr_for_config-contains x cidr written =
      let n = common_bits (bytes 16 v) (bytes 16 w) in
      elim (Bool-cases (ltb w v)) [
        | inl after ↦
            absurd (refused PoolError.reversed (sym written ∙ calico_cases ∙ rw after refl))
        | inr ordered ↦ elim (Bool-cases (ends n v w)) [
          | inl exact ↦ (
            ok_eq (sym written ∙ calico_cases ∙ rw (ordered, exact) refl),
            rw (range_to_cidr-ipv6 v w) (contains-ends n v w x exact),
          )
          | inr inexact ↦ absurd (
              refused (PoolError.not_aligned c.start)
                (sym written ∙ calico_cases ∙ rw (ordered, inexact) refl))
        ]
      ]
