-- ===== src/Policy/Accepts.antt =====
-- What the acceptance rules of internal/prefix/policy.go and validate.go let through.
use dynamic_prefix_operator.Prelude.{
  ℕ, ◌^◌, ◌≤◌, ◌<◌, ◌≡◌, ok, ◌>>◌, arith, true, false, ◌↔◌, ◌⊎◌, refl, Option, err, Result,
}
use dynamic_prefix_operator.Prelude.Int.{pos, ◌≤ℤ◌}
use dynamic_prefix_operator.Net.{
  NetPrefix, ip6, bits, bits-ipv6, ipv6_prefix, is6, Addr, is_loopback, is_multicast,
  is_unspecified, is_link_local_unicast, is4_in6,
}
use dynamic_prefix_operator.Policy.{
  Policy, validate, check_length, validate_delegated_prefix, PolicyError, policy_from_spec,
  prefix_policy_for, PrefixFilterSpec, is_global_unicast,
}

abbrev ip : ℕ → Addr
ip v = record { kind = ip6 ""; value = v }

-- The length is inside the bounds that the policy sets; a bound of zero or below is none.
abbrev pub WithinBounds : Policy → ℕ → Type 0
WithinBounds p n =
    ((p.min_prefix_length ≤ℤ pos 0) ⊎ (p.min_prefix_length ≤ℤ pos n))
    × ((p.max_prefix_length ≤ℤ pos 0) ⊎ (pos n ≤ℤ p.max_prefix_length))

module _ (v : ℕ) (lo : 2 ^ 125 ≤ v) (hi : v < 2 ^ 126) where
  gua-not_mapped : is4_in6 (ip v) ≡ false
  gua-not_mapped = ground arith

  gua-not_loopback : is_loopback (ip v) ≡ false
  unfolding is_loopback
  gua-not_loopback = ground arith

  gua-not_multicast : is_multicast (ip v) ≡ false
  unfolding is_multicast
  gua-not_multicast = ground arith

  gua-not_unspecified : is_unspecified (ip v) ≡ false
  unfolding is_unspecified
  gua-not_unspecified = ground arith

  gua-not_link_local : is_link_local_unicast (ip v) ≡ false
  unfolding is_link_local_unicast
  gua-not_link_local = ground arith

  gua-global : is_global_unicast (ip v) ≡ true
  unfolding is_global_unicast
  gua-global = ground arith

-- `policyFromSpec`, which the receivers are built with, and `prefixPolicyFor`, which the controller
-- checks status with, are the same policy for every spec.
pub prefix_policy_for-eq : (f : Option PrefixFilterSpec) → prefix_policy_for f ≡ policy_from_spec f
unfolding prefix_policy_for policy_from_spec
prefix_policy_for-eq f = ground arith

global_of : (v : ℕ) → v < 2 ^ 128 → is_global_unicast (ip v) ≡ true → (2 ^ 125 ≤ v) × (v < 2 ^ 126)
unfolding is_global_unicast
global_of v h e = ground arith

bounds_checked : (p : Policy) (n : ℕ) → (check_length p (pos n) ≡ ok tt) ↔ WithinBounds p n
unfolding check_length
bounds_checked p n = (λ e. ground arith, λ w. ground arith)

gua_delegated :
    (v n : ℕ)
    → v < 2 ^ 128
    → (validate_delegated_prefix (ipv6_prefix v n) true ≡ ok tt)
      ↔ ((1 ≤ n) × (n ≤ 128) × (2 ^ 125 ≤ v) × (v < 2 ^ 126))
unfolding validate_delegated_prefix
gua_delegated v n h = (
  λ e. ground (arith, global_of v h),
  λ (a, b, lo, hi).
      rw
        (
          gua-not_mapped v lo hi,
          gua-not_loopback v lo hi,
          gua-not_multicast v lo hi,
          gua-not_unspecified v lo hi,
          gua-not_link_local v lo hi,
          gua-global v lo hi,
        )
        (ground arith),
)

guard_both :
    (r q : Result PolicyError (Unit {0})) → ((r >> q) ≡ ok tt) ↔ ((r ≡ ok tt) × (q ≡ ok tt))
guard_both (ok u) q = (λ e. (refl, e), λ (a, b). b)
guard_both (err x) q = (λ e. cc, λ (a, b). cc)

-- With global unicast required, a prefix of IPv6 addresses without a zone is accepted exactly when
-- its length is between 1 and 128 and inside the bounds set, and its address is in 2000::/3.
pub validate-ok_iff :
    (p : Policy) (v n : ℕ)
    → p.require_global_unicast ≡ true
    → v < 2 ^ 128
    → (validate p (ipv6_prefix v n) ≡ ok tt)
      ↔ ((1 ≤ n) × (n ≤ 128) × (2 ^ 125 ≤ v) × (v < 2 ^ 126) × WithinBounds p n)
unfolding validate check_length
validate-ok_iff p v n g h =
    rw (g, bits-ipv6 v n)
      (
        λ e.
            let (d, c) =
              (guard_both (validate_delegated_prefix (ipv6_prefix v n) true)
                  (check_length p (pos n))).0
                e in
            let (a, b, lo, hi) = (gua_delegated v n h).0 d in
            (a, b, lo, hi, (bounds_checked p n).0 c),
        λ (a, b, lo, hi, w).
            (guard_both (validate_delegated_prefix (ipv6_prefix v n) true)
                (check_length p (pos n))).1
              ((gua_delegated v n h).1 (a, b, lo, hi), (bounds_checked p n).1 w),
      )

-- Whatever the policy, an accepted prefix is IPv6 and not IPv4-mapped, has a length from 1 to 128 in
-- the bounds set, and is neither link-local nor multicast, loopback or unspecified.
pub validate_sound :
    (p : Policy) (q : NetPrefix)
    → validate p q ≡ ok tt
    → (is6 q.addr ≡ true)
      × (is4_in6 q.addr ≡ false)
      × (2 ≤ q.bits_plus_one)
      × (q.bits_plus_one ≤ 129)
      × (is_link_local_unicast q.addr ≡ false)
      × (is_multicast q.addr ≡ false)
      × (is_loopback q.addr ≡ false)
      × (is_unspecified q.addr ≡ false)
      × (check_length p (bits q) ≡ ok tt)
unfolding validate validate_delegated_prefix
validate_sound p q e = ground arith
