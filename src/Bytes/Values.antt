-- ===== src/Bytes/Values.antt =====
-- The bytes of a number spell that number.
use native.Mathlib.Nat.{mod-lt, mod-add-div', mod-eq_of_lt, add-mul-mod_self_right}
use dynamic_prefix_operator.Prelude.{
  ℕ, zero, suc, ◌+◌, ◌*◌, ◌/◌, ◌%◌, ◌^◌, ◌<◌, ◌≡◌, refl, sym, ap, ◌∙◌, length, arith,
}
use dynamic_prefix_operator.Prelude.Powers.{pow-add, pow_pos}
use dynamic_prefix_operator.Bytes.{bytes, value_of}

regroup : (x y d b r : ℕ) → x * b + r + y * (d * b) ≡ (x + y * d) * b + r
regroup x y d b r = omega arith

-- The remainder by a product: the quotient's remainder, then the remainder.
pub mod-mul : (w d b : ℕ) → 0 < b → 0 < d → w % (d * b) ≡ w / b % d * b + w % b
mod-mul w d b hb hd =
    let low = mod-lt w hb in
    let high = mod-lt (w / b) hd in
    let small : w / b % d * b + w % b < d * b = grind arith in
    let whole : w ≡ w / b % d * b + w % b + w / b / d * (d * b) = sym (
      regroup (w / b % d) (w / b / d) d b (w % b)
      ∙ ap (λ (t : ℕ). t * b + w % b) (mod-add-div' (w / b) d)
      ∙ omega (arith, mod-add-div' w b)) in
    ap (λ (t : ℕ). t % (d * b)) whole
    ∙ add-mul-mod_self_right (w / b % d * b + w % b) (w / b / d) (d * b)
    ∙ mod-eq_of_lt small

byte_power : (k : ℕ) → 2 ^ (8 * suc k) ≡ 256 * 2 ^ (8 * k)
byte_power k =
    let e : 8 * suc k ≡ 8 + 8 * k = omega arith in ap (λ (t : ℕ). 2 ^ t) e ∙ pow-add 8 (8 * k)

pub mod_step :
    (k v : ℕ) → v % 2 ^ (8 * suc k) ≡ v / 2 ^ (8 * k) % 256 * 2 ^ (8 * k) + v % 2 ^ (8 * k)
mod_step k v = rw (byte_power k) (mod-mul v 256 (2 ^ (8 * k)) (pow_pos (8 * k)) (omega arith))

pub length-bytes : (k v : ℕ) → length (bytes k v) ≡ k
length-bytes zero v = refl
length-bytes (suc k) v = ap suc (length-bytes k v)

pub value_of-bytes : (k v : ℕ) → value_of (bytes k v) ≡ v % 2 ^ (8 * k)
value_of-bytes zero v = omega arith
value_of-bytes (suc k) v = rw (length-bytes k v, value_of-bytes k v) (sym (mod_step k v))
