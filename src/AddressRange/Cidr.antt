-- ===== src/AddressRange/Cidr.antt =====
-- The smallest prefix around a range, as internal/prefix/addressrange.go finds it.
use native.Mathlib.Nat.{mod-lt, mod-eq_of_lt, div-div-eq-div-mul, mod-mod, mul-div_cancel}
use dynamic_prefix_operator.Prelude.{
  ℕ, zero, suc, ◌+◌, ◌-◌, ◌*◌, ◌/◌, ◌%◌, ◌^◌, ◌≤◌, ◌<◌, ◌≡◌, ◌≢◌, ◌⊎◌, refl, sym, ap, ◌∙◌, subst,
  arith, leb, ◌==◌, Bool-cases, inl, inr, true, false, ==_iff,
}
use dynamic_prefix_operator.Prelude.Powers.{pow_pos, pow-add}
use dynamic_prefix_operator.Bytes.{bytes}
use dynamic_prefix_operator.Bytes.Values.{mod-mul}
use dynamic_prefix_operator.Bytes.Combine.{shifted, quotient}
use dynamic_prefix_operator.Net.{
  NetPrefix, ipv6_prefix, masked-ipv6, addr_prefix-ipv6, mask, contains, contains-ipv6, IsIpv6,
  ipv6-shape,
}
use dynamic_prefix_operator.AddressRange.Suffix.{at_value, mask-mask}
use dynamic_prefix_operator.AddressRange.{
  leading_bits, common_bits, or_no_prefix, range_to_cidr, bit_at,
}

-- The first `c` of the low `k` bits of a number.
abbrev first_bits : ℕ → ℕ → ℕ → ℕ
first_bits k c v = v % 2 ^ k / 2 ^ (k - c)

-- `c` is how many of the leading bits, of the low `k`, two numbers share.
record IsLongest (k v w c : ℕ) : Type 0 where
  at_most : c ≤ k
  shared : first_bits k c v ≡ first_bits k c w
  longest : (c ≡ k) ⊎ ((c < k) × (first_bits k (c + 1) v ≢ first_bits k (c + 1) w))

top_and_rest : (a k v : ℕ) → v % 2 ^ (a + k) ≡ v / 2 ^ k % 2 ^ a * 2 ^ k + v % 2 ^ k
top_and_rest a k v = rw (pow-add a k) (mod-mul v (2 ^ a) (2 ^ k) (pow_pos k) (pow_pos a))

-- More than the top `a` bits: those, then bits of the rest.
first_bits-past :
    (a k c v : ℕ)
    → c ≤ k
    → first_bits (a + k) (a + c) v ≡ v / 2 ^ k % 2 ^ a * 2 ^ c + first_bits k c v
first_bits-past a k c v h =
    let e : a + k - (a + c) ≡ k - c = omega arith in
    let sum : c + (k - c) ≡ k = omega arith in
    rw (top_and_rest a k v, e)
      (subst
        (λ (t : ℕ).
          (v / 2 ^ k % 2 ^ a * 2 ^ t + v % 2 ^ k) / 2 ^ (k - c)
          ≡ v / 2 ^ k % 2 ^ a * 2 ^ c + first_bits k c v)
        sum
        (rw (pow-add c (k - c))
          (shifted (v / 2 ^ k % 2 ^ a) (2 ^ c) (2 ^ (k - c)) (v % 2 ^ k) (pow_pos (k - c)))))

-- No more than those: bits of the top.
first_bits-within : (a k c v : ℕ) → c ≤ a → first_bits (a + k) c v ≡ first_bits a c (v / 2 ^ k)
first_bits-within a k c v h =
    let e : a + k - c ≡ a - c + k = omega arith in
    rw (top_and_rest a k v, e, pow-add (a - c) k)
      (quotient (v / 2 ^ k % 2 ^ a) (2 ^ (a - c)) (2 ^ k) (v % 2 ^ k) (pow_pos k)
        (mod-lt v (pow_pos k)))

cancel_top :
    (a k v w c : ℕ)
    → c < k
    → v / 2 ^ k % 2 ^ a ≡ w / 2 ^ k % 2 ^ a
    → first_bits (a + k) (a + c + 1) v ≡ first_bits (a + k) (a + c + 1) w
    → first_bits k (c + 1) v ≡ first_bits k (c + 1) w
cancel_top a k v w c h same e =
    let r : a + c + 1 ≡ a + (c + 1) = omega arith in
    let pv = first_bits-past a k (c + 1) v (omega arith) in
    let pw = first_bits-past a k (c + 1) w (omega arith) in
    let top = ap (λ (t : ℕ). t * 2 ^ (c + 1)) same in
    let both = subst (λ (t : ℕ). first_bits (a + k) t v ≡ first_bits (a + k) t w) r e in
    omega (arith, pv, pw, top, both)

IsLongest-past :
    (a k v w c : ℕ)
    → v / 2 ^ k % 2 ^ a ≡ w / 2 ^ k % 2 ^ a
    → IsLongest k v w c
    → IsLongest (a + k) v w (a + c)
IsLongest-past a k v w c same l = record {
  at_most = omega (arith, l.at_most);
  shared =
      rw (first_bits-past a k c v l.at_most, first_bits-past a k c w l.at_most, same, l.shared)
        refl;
  longest = elim l.longest [
    | inl whole ↦ inl (ap (λ (t : ℕ). a + t) whole)
    | inr (below, differ) ↦ inr (omega arith, λ e. differ (cancel_top a k v w c below same e))
  ];
}

IsLongest-within :
    (a k v w c : ℕ) → c < a → IsLongest a (v / 2 ^ k) (w / 2 ^ k) c → IsLongest (a + k) v w c
IsLongest-within a k v w c h l = record {
  at_most = omega arith;
  shared =
      rw (first_bits-within a k c v (omega arith), first_bits-within a k c w (omega arith))
        l.shared;
  longest = elim l.longest [
    | inl whole ↦ absurd (omega arith)
    | inr (below, differ) ↦ inr (
      omega arith,
      λ e. differ (
          sym (first_bits-within a k (c + 1) v (omega arith))
          ∙ e
          ∙ first_bits-within a k (c + 1) w (omega arith)),
    )
  ];
}

-- With two moduli, the places of a number above `suc b` bits.
to_suc : (b s e c d : ℕ) → d ≡ c → IsLongest (1 + b) s e c → IsLongest (suc b) s e d
to_suc b s e c d h l =
    let n : 1 + b ≡ suc b = omega arith in
    subst (λ (t : ℕ). IsLongest t s e d) n (subst (λ (t : ℕ). IsLongest (1 + b) s e t) (sym h) l)

to_bytes : (k s e c : ℕ) → IsLongest (8 + 8 * k) s e c → IsLongest (8 * suc k) s e c
to_bytes k s e c l =
    let n : 8 + 8 * k ≡ 8 * suc k = omega arith in subst (λ (t : ℕ). IsLongest t s e c) n l

differ_at_once : (x y : ℕ) → (x % 2 == y % 2) ≡ false → IsLongest 1 x y 0
differ_at_once x y h = record {
  at_most = omega arith;
  shared = omega arith;
  longest = inr (omega arith, λ e. ground arith);
}

leading_bits-IsLongest : (b s e : ℕ) → IsLongest b s e (leading_bits b s e)
unfolding leading_bits
leading_bits-IsLongest zero s e = record {
  at_most = omega arith;
  shared = omega arith;
  longest = inl refl;
}
leading_bits-IsLongest (suc b) s e = elim (Bool-cases (bit_at b s == bit_at b e)) [
  | inl same ↦ rw same (
      to_suc b s e (1 + leading_bits b s e) (suc (leading_bits b s e)) (omega arith) (
        IsLongest-past 1 b s e (leading_bits b s e) ((==_iff (bit_at b s) (bit_at b e)).0 same)
          (leading_bits-IsLongest b s e)))
  | inr differ ↦ rw differ (
      to_suc b s e 0 0 refl
        (IsLongest-within 1 b s e 0 (omega arith) (differ_at_once (s / 2 ^ b) (e / 2 ^ b) differ)))
]

one_byte : (x c : ℕ) → first_bits 8 c (x % 256) ≡ first_bits 8 c x
one_byte x c = ap (λ (t : ℕ). t / 2 ^ (8 - c)) (mod-mod x 256)

of_bytes : (x y c : ℕ) → IsLongest 8 (x % 256) (y % 256) c → IsLongest 8 x y c
of_bytes x y c l = record {
  at_most = l.at_most;
  shared = sym (one_byte x c) ∙ l.shared ∙ one_byte y c;
  longest = elim l.longest [
    | inl whole ↦ inl whole
    | inr (below, differ) ↦
        inr (below, λ e. differ (one_byte x (c + 1) ∙ e ∙ sym (one_byte y (c + 1))))
  ];
}

byte_shared : (p s : ℕ) → (p % 256 == s % 256) ≡ false → first_bits 8 8 p ≢ first_bits 8 8 s
byte_shared p s h e = ground arith

below_8 : (p s c : ℕ) → (p % 256 == s % 256) ≡ false → IsLongest 8 p s c → c < 8
below_8 p s c h l = elim l.longest [
  | inl whole ↦
      absurd
        (byte_shared p s h (subst (λ (t : ℕ). first_bits 8 t p ≡ first_bits 8 t s) whole l.shared))
  | inr (below, differ) ↦ below
]

common_bits-IsLongest : (k v w : ℕ) → IsLongest (8 * k) v w (common_bits (bytes k v) (bytes k w))
unfolding common_bits
common_bits-IsLongest zero v w = record {
  at_most = omega arith;
  shared = omega arith;
  longest = inl refl;
}
common_bits-IsLongest (suc k) v w =
    elim (Bool-cases (v / 2 ^ (8 * k) % 256 == w / 2 ^ (8 * k) % 256)) [
      | inl same ↦ rw same (
          to_bytes k v w (8 + common_bits (bytes k v) (bytes k w)) (
            IsLongest-past 8 (8 * k) v w (common_bits (bytes k v) (bytes k w))
              ((==_iff (v / 2 ^ (8 * k) % 256) (w / 2 ^ (8 * k) % 256)).0 same)
              (common_bits-IsLongest k v w)))
      | inr differ ↦
          let p = v / 2 ^ (8 * k) in
          let s = w / 2 ^ (8 * k) in
          let c = leading_bits 8 (p % 256) (s % 256) in
          let l = of_bytes p s c (leading_bits-IsLongest 8 (p % 256) (s % 256)) in
          rw differ (to_bytes k v w c (IsLongest-within 8 (8 * k) v w c (below_8 p s c differ l) l))
    ]

pub common_at_most : (v w : ℕ) → common_bits (bytes 16 v) (bytes 16 w) ≤ 128
common_at_most v w = (common_bits-IsLongest 16 v w).at_most

first_bits-mask : (n v : ℕ) → v < 2 ^ 128 → first_bits 128 n v ≡ v / 2 ^ (128 - n)
first_bits-mask n v h = ap (λ (t : ℕ). t / 2 ^ (128 - n)) (mod-eq_of_lt h)

-- The prefix of the length at which the two ends part.
pub range_to_cidr-ipv6 :
    (v w : ℕ)
    → range_to_cidr (at_value v) (at_value w)
      ≡ (let n = common_bits (bytes 16 v) (bytes 16 w) in ipv6_prefix (mask n v) n)
unfolding range_to_cidr or_no_prefix
range_to_cidr-ipv6 v w =
    let n = common_bits (bytes 16 v) (bytes 16 w) in
    let h : n ≤ 128 = common_at_most v w in
    rw (addr_prefix-ipv6 v n h, masked-ipv6 (mask n v) n h, mask-mask n v) refl

coarser : (v w a d : ℕ) → v / 2 ^ a ≡ w / 2 ^ a → v / 2 ^ (a + d) ≡ w / 2 ^ (a + d)
coarser v w a d e =
    rw
      (
        pow-add a d,
        ← div-div-eq-div-mul v (2 ^ a) (2 ^ d),
        ← div-div-eq-div-mul w (2 ^ a) (2 ^ d),
        e,
      )
      refl

same_quotient : (x y h : ℕ) → 0 < h → x / h * h ≡ y / h * h → x / h ≡ y / h
same_quotient x y h p e =
    sym (mul-div_cancel (x / h) p) ∙ ap (λ (t : ℕ). t / h) e ∙ mul-div_cancel (y / h) p

module _ (v w : ℕ) (fits_v : v < 2 ^ 128) (fits_w : w < 2 ^ 128) where
  shares : (let n = common_bits (bytes 16 v) (bytes 16 w) in mask n v ≡ mask n w)
  shares =
      let n = common_bits (bytes 16 v) (bytes 16 w) in
      ap (λ (t : ℕ). t * 2 ^ (128 - n))
        (sym (first_bits-mask n v fits_v)
          ∙ (common_bits-IsLongest 16 v w).shared
          ∙ first_bits-mask n w fits_w)

  -- Of two IPv6 addresses without zones, of 128 bits: the prefix found for the range contains both.
  pub contains-range_to_cidr :
      (contains (range_to_cidr (at_value v) (at_value w)) (at_value v) ≡ true)
      × (contains (range_to_cidr (at_value v) (at_value w)) (at_value w) ≡ true)
  contains-range_to_cidr =
      let n = common_bits (bytes 16 v) (bytes 16 w) in
      rw (range_to_cidr-ipv6 v w) (
        rw (contains-ipv6 (mask n v) n v, mask-mask n v) (ground arith),
        rw (contains-ipv6 (mask n v) n w, mask-mask n v, shares) (ground arith),
      )

  no_longer :
      (m c : ℕ) → IsLongest 128 v w c → m ≤ 128 → v / 2 ^ (128 - m) ≡ w / 2 ^ (128 - m) → m ≤ c
  no_longer m c l h e = elim l.longest [
    | inl whole ↦ omega arith
    | inr (below, differ) ↦ elim (Bool-cases (leb m c)) [
      | inl within ↦ ground arith
      | inr past ↦
          let more : c < m = ground arith in
          let sum : 128 - m + (m - (c + 1)) ≡ 128 - (c + 1) = omega arith in
          absurd (
            differ (
              first_bits-mask (c + 1) v fits_v
              ∙ subst (λ (t : ℕ). v / 2 ^ t ≡ w / 2 ^ t) sum (coarser v w (128 - m) (m - (c + 1)) e)
              ∙ sym (first_bits-mask (c + 1) w fits_w)))
    ]
  ]

  no_longer-ipv6 :
      (u m : ℕ)
      → m ≤ 128
      → contains (ipv6_prefix u m) (at_value v) ≡ true
      → contains (ipv6_prefix u m) (at_value w) ≡ true
      → m ≤ common_bits (bytes 16 v) (bytes 16 w)
  no_longer-ipv6 u m h cv cw =
      let ev = (==_iff (mask m u) (mask m v)).0 (sym (contains-ipv6 u m v) ∙ cv) in
      let ew = (==_iff (mask m u) (mask m w)).0 (sym (contains-ipv6 u m w) ∙ cw) in
      no_longer m (common_bits (bytes 16 v) (bytes 16 w)) (common_bits-IsLongest 16 v w) h
        (same_quotient v w (2 ^ (128 - m)) (pow_pos (128 - m)) (sym ev ∙ ew))

  -- No valid IPv6 prefix that contains both ends of a range, IPv6 addresses without zones, is longer
  -- than the prefix found for the range.
  pub range_to_cidr_smallest :
      (q : NetPrefix)
      → IsIpv6 q
      → contains q (at_value v) ≡ true
      → contains q (at_value w) ≡ true
      → q.bits_plus_one ≤ (range_to_cidr (at_value v) (at_value w)).bits_plus_one
  range_to_cidr_smallest q i cv cw =
      let n = q.bits_plus_one - 1 in
      let shape = ipv6-shape q i in
      let at = λ (x : ℕ). λ (c : contains q (at_value x) ≡ true).
        subst (λ (t : NetPrefix). contains t (at_value x) ≡ true) shape c in
      let most = no_longer-ipv6 q.addr.value n (omega (arith, i.length_fits)) (at v cv) (at w cw) in
      rw (range_to_cidr-ipv6 v w) (omega (arith, most))
