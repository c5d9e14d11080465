-- ===== src/AddressRange/Count.antt =====
-- How many addresses a range has, as internal/prefix/addressrange.go counts them.
use native.Mathlib.Nat.{mod-lt, mod-eq_of_lt, div-div-eq-div-mul, pow-le-pow_right}
use dynamic_prefix_operator.Prelude.{
  ℕ, zero, suc, ◌+◌, ◌-◌, ◌*◌, ◌/◌, ◌%◌, ◌^◌, ◌≤◌, ◌<◌, ◌≡◌, refl, sym, ap, ◌∙◌, subst, arith, leb,
  ◌==◌, ◌&&◌, if◌then◌else◌, Bool-cases, ==_iff, inl, inr,
}
use dynamic_prefix_operator.Prelude.Powers.{pow_pos, pow-add, mul-add-div-mul, index-lt-pow}
use dynamic_prefix_operator.Bytes.{bytes}
use dynamic_prefix_operator.Bytes.Values.{mod_step}
use dynamic_prefix_operator.AddressRange.{same_first, low_word, address_count}
use dynamic_prefix_operator.AddressRange.Suffix.{at_value}

upper_byte : (n k v : ℕ) → v / 2 ^ (8 * (n + k)) ≡ v / 2 ^ (8 * k) / 2 ^ (8 * n)
upper_byte n k v =
    let e : 8 * (n + k) ≡ 8 * k + 8 * n = omega arith in
    rw (e, pow-add (8 * k) (8 * n)) (sym (div-div-eq-div-mul v (2 ^ (8 * k)) (2 ^ (8 * n))))

place_eq : (p s b x y : ℕ) → x < b → y < b → ((p == s) && (x == y)) ≡ (p * b + x == s * b + y)
place_eq p s b x y hx hy = elim (Bool-cases (p * b + x == s * b + y)) [
  | inl same ↦
      let e = (==_iff (p * b + x) (s * b + y)).0 same in
      let q : p ≡ s =
        sym (mul-add-div-mul p b x hx) ∙ ap (λ (t : ℕ). t / b) e ∙ mul-add-div-mul s b y hy in
      let pb = ap (λ (t : ℕ). t * b) q in
      let r : x ≡ y = omega arith in rw (same, q, r) (ground arith)
  | inr differ ↦ elim (Bool-cases (p == s)) [
    | inl same ↦
        let q = (==_iff p s).0 same in
        let pb = ap (λ (t : ℕ). t * b) q in rw (same, differ) (ground arith)
    | inr other ↦ rw (other, differ) refl
  ]
]

same_first-bytes :
    (n k v w : ℕ)
    → same_first n (bytes (n + k) v) (bytes (n + k) w)
      ≡ (v / 2 ^ (8 * k) % 2 ^ (8 * n) == w / 2 ^ (8 * k) % 2 ^ (8 * n))
unfolding same_first
same_first-bytes zero k v w = ground arith
same_first-bytes (suc n) k v w =
    let x = v / 2 ^ (8 * k) in
    let y = w / 2 ^ (8 * k) in
    let e : suc n + k ≡ suc (n + k) = omega arith in
    rw (e, mod_step n x, mod_step n y, upper_byte n k v, upper_byte n k w, same_first-bytes n k v w)
      (place_eq (x / 2 ^ (8 * n) % 256) (y / 2 ^ (8 * n) % 256) (2 ^ (8 * n)) (x % 2 ^ (8 * n))
        (y % 2 ^ (8 * n)) (mod-lt x (pow_pos (8 * n))) (mod-lt y (pow_pos (8 * n))))

low_word-bytes :
    (k acc v : ℕ)
    → k ≤ 8
    → acc < 2 ^ (64 - 8 * k)
    → low_word acc (bytes k v) ≡ acc * 2 ^ (8 * k) + v % 2 ^ (8 * k)
unfolding low_word
low_word-bytes zero acc v h f = omega arith
low_word-bytes (suc k) acc v h f =
    let b = v / 2 ^ (8 * k) % 256 in
    let e : 64 - 8 * k ≡ 64 - 8 * suc k + 8 = omega arith in
    let room : acc * 256 + b < 2 ^ (64 - 8 * k) =
      subst (λ (t : ℕ). acc * 256 + b < 2 ^ t) (sym e)
        (index-lt-pow (64 - 8 * suc k) 8 acc b f (omega arith)) in
    let top : 2 ^ (64 - 8 * k) ≤ 2 ^ 64 = pow-le-pow_right (omega arith) {j = 64} (omega arith) in
    let fits : acc * 256 % 2 ^ 64 ≡ acc * 256 = mod-eq_of_lt (omega arith) in
    let p : 8 * suc k ≡ 8 + 8 * k = omega arith in
    rw
      (
        low_word,
        fits,
        low_word-bytes k (acc * 256 + b) v (omega arith) room,
        mod_step k v,
        p,
        pow-add 8 (8 * k),
      )
      (omega arith)

-- The count of a range of two IPv6 addresses without zones: 0 when they are reversed or differ above
-- the last 64 bits, however few addresses are between them, and otherwise their distance plus one,
-- modulo 2 ^ 64, which is 0 for a range of 2 ^ 64 addresses.
pub address_count_lem :
    (v w : ℕ)
    → v < 2 ^ 128
    → w < 2 ^ 128
    → address_count (at_value v) (at_value w)
      ≡ (if v / 2 ^ 64 == w / 2 ^ 64 && leb v w then (w - v + 1) % 2 ^ 64 else 0)
unfolding address_count
address_count_lem v w hv hw =
    let hi : v / 2 ^ 64 < 2 ^ 64 = omega arith in
    let hj : w / 2 ^ 64 < 2 ^ 64 = omega arith in
    rw
      (
        same_first-bytes 8 8 v w,
        low_word-bytes 8 0 v (omega arith) (omega arith),
        low_word-bytes 8 0 w (omega arith) (omega arith),
      )
      (ground arith)
