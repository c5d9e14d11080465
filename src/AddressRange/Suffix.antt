-- ===== src/AddressRange/Suffix.antt =====
-- Which addresses internal/prefix/addressrange.go builds from a base and a suffix.
use native.Mathlib.Nat.{mod-lt, mod-add-div', mul-div_cancel, div-eq_of_lt, mod-eq_of_lt}
use dynamic_prefix_operator.Prelude.{
  ℕ, zero, suc, ◌+◌, ◌-◌, ◌*◌, ◌/◌, ◌%◌, ◌^◌, ◌≤◌, ◌<◌, ◌≡◌, refl, sym, ap, ◌∙◌, subst, [], length,
  arith, ltb, leb, if◌then◌else◌, Bool-cases, inl, inr, true, false, Option, some, ok, err,
}
use dynamic_prefix_operator.Prelude.Powers.{pow_pos, mul-add-div-mul}
use dynamic_prefix_operator.Ownership.Texts.{Text}
use dynamic_prefix_operator.Bytes.{bytes, value_of, split_byte}
use dynamic_prefix_operator.Bytes.Values.{length-bytes, value_of-bytes}
use dynamic_prefix_operator.Bytes.Combine.{joined, next_byte, joined_step}
use dynamic_prefix_operator.Net.{
  Addr, ip6, NetPrefix, IsIpv6, ipv6_prefix, ipv6-shape, masked-ipv6, bits-ipv6, is6, mask,
  contains, contains-ipv6,
}
use dynamic_prefix_operator.AddressRange.{
  join_bytes, join_suffix, with_suffix, parse_offset_suffix, calculate_address_range, RangeError,
  AddressRangeConfig,
}

joined-zero : (k v w : ℕ) → joined k 0 v w ≡ w % 2 ^ (8 * k)
joined-zero k v w =
    let e : 8 * k - 0 ≡ 8 * k = omega arith in
    rw (e, div-eq_of_lt (mod-lt v (pow_pos (8 * k)))) (omega arith)

-- What the loops write at the boundary byte.
boundary_byte :
    (m p s : ℕ)
    → m < 8
    → p < 256
    → s < 256
    → (if ltb 0 (m % 8) then split_byte (m % 8) p s else s) ≡ next_byte m p s
boundary_byte m p s h a b = elim (Bool-cases (ltb 0 m)) [
  | inl some_bits ↦
      let e : m % 8 ≡ m = mod-eq_of_lt h in
      let l : leb 8 m ≡ false = ground arith in rw (e, some_bits, l) refl
  | inr no_bits ↦ let e : m ≡ 0 = ground arith in rw e (ground arith)
]

join_bytes-empty : (full r : ℕ) → join_bytes full r [] [] ≡ []
unfolding join_bytes
join_bytes-empty zero r = refl
join_bytes-empty (suc full) r = refl

pub joined-nothing : (m v w : ℕ) → joined 0 m v w ≡ 0
joined-nothing m v w = let e : 8 * 0 - m ≡ 0 = omega arith in rw e (omega arith)

length-join_bytes : (full r k v w : ℕ) → length (join_bytes full r (bytes k v) (bytes k w)) ≡ k
unfolding join_bytes
length-join_bytes full r zero v w = ap length (join_bytes-empty full r)
length-join_bytes zero r (suc k) v w = ap suc (length-bytes k w)
length-join_bytes (suc full) r (suc k) v w = ap suc (length-join_bytes full r k v w)

value_of-join_bytes :
    (k m v w : ℕ) → value_of (join_bytes (m / 8) (m % 8) (bytes k v) (bytes k w)) ≡ joined k m v w
unfolding join_bytes
value_of-join_bytes zero m v w =
    ap value_of (join_bytes-empty (m / 8) (m % 8)) ∙ sym (joined-nothing m v w)
value_of-join_bytes (suc k) m v w = elim (Bool-cases (leb 8 m)) [
  | inl whole ↦
      let d : m / 8 ≡ suc ((m - 8) / 8) = ground arith in
      let r : m % 8 ≡ (m - 8) % 8 = ground arith in
      let ih = value_of-join_bytes k (m - 8) v w in
      let n = length-join_bytes ((m - 8) / 8) ((m - 8) % 8) k v w in
      rw (joined_step k m v w, whole, d, r, n, ih) refl
  | inr part ↦
      let d : m / 8 ≡ 0 = ground arith in
      let z : m - 8 ≡ 0 = ground arith in
      let b =
        boundary_byte m (v / 2 ^ (8 * k) % 256) (w / 2 ^ (8 * k) % 256) (ground arith) (omega arith)
          (omega arith) in
      rw (joined_step k m v w, d, b, length-bytes k w, value_of-bytes k w, z, joined-zero k v w)
        refl
]

abbrev pub at_value : ℕ → Addr
at_value v = record { kind = ip6 ""; value = v }

abbrev pub at_mask : ℕ → ℕ → Addr → Addr
at_mask v n a = at_value (mask n v + a.value % 2 ^ (128 - n))

-- The address of a prefix with the low bits of another address.
abbrev pub at_suffix : NetPrefix → Addr → Addr
at_suffix p a = at_mask p.addr.value (p.bits_plus_one - 1) a

pub mask_le : (n v : ℕ) → mask n v ≤ v
mask_le n v = omega (arith, mod-add-div' v (2 ^ (128 - n)))

cleared_twice : (x h : ℕ) → 0 < h → x / h * h / h * h ≡ x / h * h
cleared_twice x h p = ap (λ (t : ℕ). t * h) (mul-div_cancel (x / h) p)

pub mask-mask : (n v : ℕ) → mask n (mask n v) ≡ mask n v
mask-mask n v = cleared_twice v (2 ^ (128 - n)) (pow_pos (128 - n))

joined-masked : (n v w : ℕ) → v < 2 ^ 128 → joined 16 n (mask n v) w ≡ mask n v + w % 2 ^ (128 - n)
joined-masked n v w f =
    let small : mask n v < 2 ^ 128 = omega (arith, mask_le n v) in
    rw (mod-eq_of_lt small, mask-mask n v) refl

join_suffix-ipv6 :
    (v n : ℕ) → (a : Addr) → n ≤ 128 → v < 2 ^ 128 → join_suffix (ipv6_prefix v n) a ≡ at_mask v n a
unfolding join_suffix
join_suffix-ipv6 v n a h f =
    rw (masked-ipv6 v n h, bits-ipv6 v n)
      (ap at_value (value_of-join_bytes 16 n (mask n v) a.value ∙ joined-masked n v a.value f))

pub join_suffix-at_suffix :
    (p : NetPrefix) → (a : Addr) → IsIpv6 p → join_suffix p a ≡ at_suffix p a
join_suffix-at_suffix p a v =
    let h : p.bits_plus_one - 1 ≤ 128 = omega (arith, v.length_fits) in
    subst (λ (q : NetPrefix). join_suffix q a ≡ at_suffix p a) (sym (ipv6-shape p v))
      (join_suffix-ipv6 p.addr.value (p.bits_plus_one - 1) a h v.value_fits)

-- A suffix that is an IPv6 address replaces exactly the bits below the prefix's length.
pub parse_offset_suffix-at_suffix :
    (parse_addr : Text → Option Addr)
    → (p : NetPrefix) → (suffix : Text) → (a : Addr) → IsIpv6 p
    → parse_addr suffix ≡ some a
    → is6 a ≡ true
    → parse_offset_suffix parse_addr p suffix ≡ ok (at_suffix p a)
unfolding parse_offset_suffix with_suffix
parse_offset_suffix-at_suffix parse_addr p suffix a v e six =
    rw (e, six) (ap ok (join_suffix-at_suffix p a v))

at_suffix_low : (v n w : ℕ) → mask n (mask n v + w % 2 ^ (128 - n)) ≡ mask n v
at_suffix_low v n w =
    ap (λ (t : ℕ). t * 2 ^ (128 - n))
      (mul-add-div-mul (v / 2 ^ (128 - n)) (2 ^ (128 - n)) (w % 2 ^ (128 - n))
        (mod-lt w (pow_pos (128 - n))))

contains-at_suffix-ipv6 : (v n : ℕ) → (a : Addr) → contains (ipv6_prefix v n) (at_mask v n a) ≡ true
contains-at_suffix-ipv6 v n a =
    rw (contains-ipv6 v n (mask n v + a.value % 2 ^ (128 - n)), at_suffix_low v n a.value)
      (ground arith)

-- Whatever the suffix, the address is inside the prefix.
pub contains-at_suffix : (p : NetPrefix) → (a : Addr) → IsIpv6 p → contains p (at_suffix p a) ≡ true
contains-at_suffix p a v =
    subst (λ (q : NetPrefix). contains q (at_suffix p a) ≡ true) (sym (ipv6-shape p v))
      (contains-at_suffix-ipv6 p.addr.value (p.bits_plus_one - 1) a)

same_offset : (m y x : ℕ) → ltb (m + y) (m + x) ≡ ltb y x
same_offset m y x = ground arith

module _ (parse_addr : Text → Option Addr) (p : NetPrefix) (cfg : AddressRangeConfig)
    (v : IsIpv6 p) where
  -- A range of a valid IPv6 prefix whose two suffixes parse as IPv6 addresses: it is refused as
  -- reversed exactly when the bits of the end below the prefix's length are below those of the start,
  -- and otherwise each end is the prefix's address with those bits of its suffix, so that the checks of
  -- being inside the prefix never refuse.
  pub calculate_address_range_lem :
      (a b : Addr)
      → parse_addr cfg.start ≡ some a
      → is6 a ≡ true
      → parse_addr cfg.end ≡ some b
      → is6 b ≡ true
      → calculate_address_range parse_addr p cfg ≡ (
          if ltb
            (b.value % 2 ^ (128 - (p.bits_plus_one - 1)))
            (a.value % 2 ^ (128 - (p.bits_plus_one - 1)))
          then err RangeError.start_after_end
          else ok (record { name = cfg.name; start = at_suffix p a; end = at_suffix p b }))
  unfolding calculate_address_range
  calculate_address_range_lem a b pa sa pb sb =
      let ea = parse_offset_suffix-at_suffix parse_addr p cfg.start a v pa sa in
      let eb = parse_offset_suffix-at_suffix parse_addr p cfg.end b v pb sb in
      let m = mask (p.bits_plus_one - 1) p.addr.value in
      let low = 2 ^ (128 - (p.bits_plus_one - 1)) in
      rw
        (
          ea,
          eb,
          contains-at_suffix p a v,
          contains-at_suffix p b v,
          same_offset m (b.value % low) (a.value % low),
        )
        refl
