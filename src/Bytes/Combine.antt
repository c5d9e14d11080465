-- ===== src/Bytes/Combine.antt =====
-- Joining the leading bits of one address to the rest of another, byte by byte.
use native.Mathlib.Nat.{
  mod-lt, mul-add-div_right, div-div-eq-div-mul, mod-eq_of_lt, div-eq_of_lt, mul-add-mod_self_right,
  mul_comm, mod-mod,
}
use dynamic_prefix_operator.Prelude.{
  ℕ, suc, ◌+◌, ◌-◌, ◌*◌, ◌/◌, ◌%◌, ◌^◌, ◌<◌, ◌≡◌, refl, sym, ◌∙◌, subst, arith, leb, if◌then◌else◌,
  Bool-cases, inl, inr,
}
use dynamic_prefix_operator.Prelude.Powers.{pow-add, pow_pos, mul-add-div-mul}
use dynamic_prefix_operator.Bytes.{split_byte}
use dynamic_prefix_operator.Bytes.Values.{mod-mul, mod_step}

-- The first `m` of `8 * k` bits of `v`, then the rest of `w`.
abbrev pub joined : ℕ → ℕ → ℕ → ℕ → ℕ
joined k m v w = v % 2 ^ (8 * k) / 2 ^ (8 * k - m) * 2 ^ (8 * k - m) + w % 2 ^ (8 * k - m)

-- The byte that a loop writes, with `m` bits of the first address to come.
abbrev pub next_byte : ℕ → ℕ → ℕ → ℕ
next_byte m p s = if leb 8 m then p else split_byte m p s

pub shifted : (p c e v : ℕ) → 0 < e → (p * (c * e) + v) / e ≡ p * c + v / e
shifted p c e v h =
    let q : p * (c * e) ≡ p * c * e = omega arith in rw q (mul-add-div_right h (p * c) v)

-- A byte of the first address whole,
whole_byte :
    (p c e v w : ℕ)
    → (p * 2 ^ (c + e) + v) / 2 ^ e * 2 ^ e + w ≡ p * 2 ^ (c + e) + (v / 2 ^ e * 2 ^ e + w)
whole_byte p c e v w = rw (pow-add c e, shifted p (2 ^ c) (2 ^ e) v (pow_pos e)) (omega arith)

pub quotient : (p r h v : ℕ) → 0 < h → v < h → (p * h + v) / (r * h) ≡ p / r
quotient p r h v hp hv =
    rw (mul_comm r h, ← div-div-eq-div-mul (p * h + v) h r, mul-add-div-mul p h v hv) refl

remainder : (s r h w : ℕ) → 0 < h → 0 < r → w < h → (s * h + w) % (r * h) ≡ s % r * h + w
remainder s r h w hp rp hw =
    mod-mul (s * h + w) r h hp rp
    ∙ rw (mul-add-div-mul s h w hw, mul-add-mod_self_right s h w, mod-eq_of_lt hw) refl

-- and one in part, or not at all.
part_byte :
    (p s r h v w : ℕ)
    → v < 2 ^ h
    → w < 2 ^ h
    → (p * 2 ^ h + v) / 2 ^ (r + h) * 2 ^ (r + h) + (s * 2 ^ h + w) % 2 ^ (r + h)
      ≡ (p / 2 ^ r * 2 ^ r + s % 2 ^ r) * 2 ^ h + w
part_byte p s r h v w hv hw =
    rw
      (
        pow-add r h,
        quotient p (2 ^ r) (2 ^ h) v (pow_pos h) hv,
        remainder s (2 ^ r) (2 ^ h) w (pow_pos h) (pow_pos r) hw,
      )
      (omega arith)

low_bits : (x a r : ℕ) → x % 2 ^ (a + r) % 2 ^ r ≡ x % 2 ^ r
low_bits x a r =
    rw
      (
        pow-add a r,
        mod-mul x (2 ^ a) (2 ^ r) (pow_pos r) (pow_pos a),
        mul-add-mod_self_right (x / 2 ^ r % 2 ^ a) (2 ^ r) (x % 2 ^ r),
      )
      (mod-mod x (2 ^ r))

-- The low bits of a number are those of its last byte and what follows.
low_byte :
    (k m w : ℕ)
    → m < 8
    → w % 2 ^ (8 - m + 8 * k)
      ≡ (w / 2 ^ (8 * k) % 256 * 2 ^ (8 * k) + w % 2 ^ (8 * k)) % 2 ^ (8 - m + 8 * k)
low_byte k m w h =
    let e : m + (8 - m + 8 * k) ≡ 8 * suc k = omega arith in
    sym (low_bits w m (8 - m + 8 * k)) ∙ rw (e, mod_step k w) refl

-- One byte more: its place value, and what follows it.
pub joined_step :
    (k m v w : ℕ)
    → joined (suc k) m v w
      ≡ next_byte m (v / 2 ^ (8 * k) % 256) (w / 2 ^ (8 * k) % 256) * 2 ^ (8 * k)
        + joined k (m - 8) v w
joined_step k m v w = elim (Bool-cases (leb 8 m)) [
  | inl whole ↦
      let rest = 8 * k - (m - 8) in
      let c = 8 * k - rest in
      let e : 8 * suc k - m ≡ rest = ground arith in
      let sum : c + rest ≡ 8 * k = omega arith in
      rw (whole, mod_step k v, e)
        (subst
          (λ (t : ℕ).
            (v / 2 ^ (8 * k) % 256 * 2 ^ t + v % 2 ^ (8 * k)) / 2 ^ rest * 2 ^ rest + w % 2 ^ rest
            ≡ v / 2 ^ (8 * k) % 256 * 2 ^ t + joined k (m - 8) v w)
          sum (whole_byte (v / 2 ^ (8 * k) % 256) c rest (v % 2 ^ (8 * k)) (w % 2 ^ rest)))
  | inr part ↦
      let e : 8 * suc k - m ≡ 8 - m + 8 * k = ground arith in
      let z : 8 * k - (m - 8) ≡ 8 * k = ground arith in
      let none_left = div-eq_of_lt (mod-lt v (pow_pos (8 * k))) in
      rw (part, mod_step k v, e, z, none_left, low_byte k m w (ground arith))
        (part_byte (v / 2 ^ (8 * k) % 256) (w / 2 ^ (8 * k) % 256) (8 - m) (8 * k) (v % 2 ^ (8 * k))
            (w % 2 ^ (8 * k)) (mod-lt v (pow_pos (8 * k))) (mod-lt w (pow_pos (8 * k)))
          ∙ omega arith)
]
