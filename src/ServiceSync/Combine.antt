-- ===== src/ServiceSync/Combine.antt =====
-- `combinePrefixSuffix` of internal/controller/servicesync_controller.go against `parseOffsetSuffix` of
-- internal/prefix/addressrange.go: the same address by two loops.
use native.Mathlib.Nat.{mod-eq_of_lt}
use dynamic_prefix_operator.Prelude.{
  ℕ, zero, suc, ◌+◌, ◌-◌, ◌*◌, ◌/◌, ◌%◌, ◌^◌, ◌<◌, ◌≡◌, refl, sym, ap, ◌∙◌, subst, arith, leb,
  length, Bool-cases, inl, inr, false,
}
use dynamic_prefix_operator.Bytes.{bytes, value_of, as_16}
use dynamic_prefix_operator.Bytes.Combine.{joined, next_byte, joined_step}
use dynamic_prefix_operator.Net.{Addr, NetPrefix, IsIpv6, ipv6_prefix, ipv6-shape, bits-ipv6}
use dynamic_prefix_operator.AddressRange.{join_suffix}
use dynamic_prefix_operator.AddressRange.Suffix.{
  at_value, at_mask, at_suffix, joined-nothing, join_suffix-at_suffix,
}
use dynamic_prefix_operator.ServiceSync.{combine_byte, combine_bytes, combine_prefix_suffix}

combine_byte-next_byte :
    (i n p s : ℕ) → p < 256 → s < 256 → combine_byte i n p s ≡ next_byte (n - 8 * i) p s
unfolding combine_byte
combine_byte-next_byte i n p s hp hs = elim (Bool-cases (leb n (i * 8))) [
  | inl past ↦
      let e : n - 8 * i ≡ 0 = ground arith in
      let l : leb (i * 8 + 8) n ≡ false = ground arith in rw (past, l, e) (ground arith)
  | inr before ↦ let e : n - i * 8 ≡ n - 8 * i = omega arith in rw (before, e) (ground arith)
]

length-combine_bytes : (i n k v w : ℕ) → length (combine_bytes i n (bytes k v) (bytes k w)) ≡ k
unfolding combine_bytes
length-combine_bytes i n zero v w = refl
length-combine_bytes i n (suc k) v w = ap suc (length-combine_bytes (i + 1) n k v w)

value_of-combine_bytes :
    (i n k v w : ℕ)
    → value_of (combine_bytes i n (bytes k v) (bytes k w)) ≡ joined k (n - 8 * i) v w
unfolding combine_bytes
value_of-combine_bytes i n zero v w = sym (joined-nothing (n - 8 * i) v w)
value_of-combine_bytes i n (suc k) v w =
    let p = v / 2 ^ (8 * k) % 256 in
    let s = w / 2 ^ (8 * k) % 256 in
    let e : n - 8 * (i + 1) ≡ n - 8 * i - 8 = omega arith in
    rw
      (
        joined_step k (n - 8 * i) v w,
        length-combine_bytes (i + 1) n k v w,
        value_of-combine_bytes (i + 1) n k v w,
        e,
        combine_byte-next_byte i n p s (omega arith) (omega arith),
      )
      refl

combine_prefix_suffix-ipv6 :
    (v n : ℕ)
    → (a : Addr) → v < 2 ^ 128
    → combine_prefix_suffix (ipv6_prefix v n) (as_16 a) ≡ at_mask v n a
unfolding combine_prefix_suffix
combine_prefix_suffix-ipv6 v n a h =
    let e : n - 8 * 0 ≡ n = omega arith in
    let whole =
      ap (λ (t : ℕ). t / 2 ^ (128 - n) * 2 ^ (128 - n) + a.value % 2 ^ (128 - n))
        (mod-eq_of_lt h) in
    let value =
      subst (λ (m : ℕ). value_of (combine_bytes 0 n (bytes 16 v) (as_16 a)) ≡ joined 16 m v a.value)
        e (value_of-combine_bytes 0 n 16 v a.value) in
    rw (bits-ipv6 v n) (ap at_value (value ∙ whole))

-- The host part of an address in a prefix.
pub combine_prefix_suffix-at_suffix :
    (p : NetPrefix) → (a : Addr) → IsIpv6 p → combine_prefix_suffix p (as_16 a) ≡ at_suffix p a
combine_prefix_suffix-at_suffix p a v =
    subst (λ (q : NetPrefix). combine_prefix_suffix q (as_16 a) ≡ at_suffix p a)
      (sym (ipv6-shape p v))
      (combine_prefix_suffix-ipv6 p.addr.value (p.bits_plus_one - 1) a v.value_fits)

-- Over a valid IPv6 prefix, the loop that gives a Service its address and the loops that give a range
-- its ends build the same address from the bytes of one suffix.
pub combine_prefix_suffix-join_suffix :
    (p : NetPrefix) → (a : Addr) → IsIpv6 p → combine_prefix_suffix p (as_16 a) ≡ join_suffix p a
combine_prefix_suffix-join_suffix p a v =
    combine_prefix_suffix-at_suffix p a v ∙ sym (join_suffix-at_suffix p a v)
