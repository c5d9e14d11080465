-- ===== src/PoolBackends/Within.antt =====
-- The two tests of internal/controller/poolsync_controller.go and poolsync_backends.go that a range of
-- addresses lies in one managed prefix.
use dynamic_prefix_operator.Prelude.{
  ℕ, ◌+◌, ◌-◌, ◌^◌, ◌≤◌, ◌≡◌, refl, sym, ◌∙◌, subst, arith, ltb, leb, not, ◌&&◌, Bool, false,
  Bool-cases, inl, inr, List, [], ◌∷◌,
}
use dynamic_prefix_operator.Net.{
  NetPrefix, IsIpv6, mask, masked, masked-ipv6, ipv6_prefix, ipv6-shape, contains, Addr,
}
use dynamic_prefix_operator.Resource.{last_addr_of_prefix}
use dynamic_prefix_operator.Resource.Last.{last_addr_of_prefix-ipv6}
use dynamic_prefix_operator.AddressRange.Suffix.{at_value}
use dynamic_prefix_operator.PoolBackends.{
  same_family, within_one, within_managed, address_range_within_managed, contains_both,
}
use dynamic_prefix_operator.PoolBackends.Exact.{contains-bounds}

abbrev pub AllIpv6 : List NetPrefix → Type 0
AllIpv6 [] = Unit
AllIpv6 (p ∷ ps) = IsIpv6 p × AllIpv6 ps

-- The test of one managed prefix.
abbrev one : NetPrefix → Addr → Addr → Bool
one mp start end =
    same_family mp.addr start && within_one start end (masked mp).addr (last_addr_of_prefix mp)

ordered_bounds :
    (m l v w : ℕ)
    → ltb w v ≡ false
    → (not (ltb v m) && not (ltb l w)) ≡ ((leb m v && leb v l) && (leb m w && leb w l))
ordered_bounds m l v w h = ground arith

one-ipv6 :
    (u n v w : ℕ)
    → n ≤ 128
    → ltb w v ≡ false
    → one (ipv6_prefix u n) (at_value v) (at_value w)
      ≡ (contains (ipv6_prefix u n) (at_value v) && contains (ipv6_prefix u n) (at_value w))
unfolding same_family within_one
one-ipv6 u n v w h o =
    rw
      (
        masked-ipv6 u n h,
        last_addr_of_prefix-ipv6 u n h,
        contains-bounds u n v,
        contains-bounds u n w,
      )
      (ordered_bounds (mask n u) (mask n u + (2 ^ (128 - n) - 1)) v w o)

one-contains :
    (p : NetPrefix) (v w : ℕ)
    → IsIpv6 p
    → ltb w v ≡ false
    → one p (at_value v) (at_value w) ≡ (contains p (at_value v) && contains p (at_value w))
one-contains p v w i o =
    subst
      (λ (q : NetPrefix).
        one q (at_value v) (at_value w) ≡ (contains q (at_value v) && contains q (at_value w)))
      (sym (ipv6-shape p i))
      (one-ipv6 p.addr.value (p.bits_plus_one - 1) v w (omega (arith, i.length_fits)) o)

within_managed-contains_both :
    (managed : List NetPrefix) (v w : ℕ)
    → AllIpv6 managed
    → ltb w v ≡ false
    → within_managed (at_value v) (at_value w) managed
      ≡ contains_both (at_value v) (at_value w) managed
unfolding within_managed contains_both
within_managed-contains_both [] v w i o = refl
within_managed-contains_both (p ∷ ps) v w i o =
    rw (one-contains p v w i.0 o, within_managed-contains_both ps v w i.1 o) refl

contains_both_comm :
    (managed : List NetPrefix) (a b : Addr) → contains_both a b managed ≡ contains_both b a managed
unfolding contains_both
contains_both_comm [] a b = refl
contains_both_comm (p ∷ ps) a b = ground (arith, contains_both_comm ps a b)

-- Over valid IPv6 managed prefixes, in either order of the ends, IPv6 addresses without zones: the
-- comparison with the first and the last address, which decides for the backend of MetalLB, holds
-- exactly when one of the prefixes contains both ends, which decides for that of Cilium.
pub address_range_within_managed-contains_both :
    (managed : List NetPrefix) (v w : ℕ)
    → AllIpv6 managed
    → address_range_within_managed (at_value v) (at_value w) managed
      ≡ contains_both (at_value v) (at_value w) managed
unfolding address_range_within_managed
address_range_within_managed-contains_both managed v w i = elim (Bool-cases (ltb w v)) [
  | inl reversed ↦ rw reversed (
      within_managed-contains_both managed w v i (ground arith)
      ∙ contains_both_comm managed (at_value w) (at_value v))
  | inr ordered ↦ rw ordered (within_managed-contains_both managed v w i ordered)
]
