-- ===== src/Prelude/Powers.antt =====
-- Powers of two, and division by them.
use Prim.Native.Nat.{ℕ, zero, suc, ◌+◌, ◌*◌, ◌/◌, ◌^◌, ◌<◌}
use mathlib.Core.Path.{◌≡◌, refl}
use native.Mathlib.Omega.{arith}
use native.Mathlib.Nat.{pow-suc, mul_assoc, add-zero, add-suc, div-eq_of_lt-le}

pub pow-add : (a b : ℕ) → 2 ^ (a + b) ≡ 2 ^ a * 2 ^ b
pow-add a zero = rw add-zero (omega arith)
pow-add a (suc b) = rw (add-suc, pow-suc, pow-suc, pow-add a b, mul_assoc) refl

pub pow_pos : (a : ℕ) → 0 < 2 ^ a
pow_pos zero = omega arith
pow_pos (suc a) = rw pow-suc (omega (arith, pow_pos a))

-- A number below one power, shifted by another, is below the product.
pub index-lt-pow : (a b i x : ℕ) → i < 2 ^ a → x < 2 ^ b → i * 2 ^ b + x < 2 ^ (a + b)
index-lt-pow a b i x hi hx = rw (pow-add a b) (grind arith)

-- Clearing the low bits of a number that only differs in them.
pub mul-add-div-mul : (q m x : ℕ) → x < m → (q * m + x) / m ≡ q
mul-add-div-mul q m x h = div-eq_of_lt-le m (omega arith) (grind arith)
