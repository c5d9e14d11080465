-- ===== src/Subnet/Arithmetic.antt =====
-- What the address arithmetic of subnet.go computes, over plain numbers.
use native.Mathlib.Nat.{mul-div_left, div-lt_iff_lt-mul}
use dynamic_prefix_operator.Prelude.{ℕ, ◌+◌, ◌*◌, ◌/◌, ◌^◌, ◌≤◌, ◌<◌, ◌≡◌, ap, arith}
use dynamic_prefix_operator.Prelude.Powers.{pow-add, pow_pos, index-lt-pow, mul-add-div-mul}

-- An aligned number below the bound, plus an index times the block size, stays below the bound.
pub block-lt :
    (a b c q i : ℕ) → q < 2 ^ a → i < 2 ^ b → q * 2 ^ (b + c) + i * 2 ^ c < 2 ^ (a + (b + c))
block-lt a b c q i hq hi =
    index-lt-pow a (b + c) q (i * 2 ^ c) hq (rw (pow-add b c) (grind (arith, pow_pos c)))

block_sum : (b c q i : ℕ) → q * 2 ^ (b + c) + i * 2 ^ c ≡ (q * 2 ^ b + i) * 2 ^ c
block_sum b c q i = rw (pow-add b c) (omega arith)

-- It is itself aligned to the block size,
pub block-aligned :
    (b c q i : ℕ) → (q * 2 ^ (b + c) + i * 2 ^ c) / 2 ^ c * 2 ^ c ≡ q * 2 ^ (b + c) + i * 2 ^ c
block-aligned b c q i =
    rw (block_sum b c q i) (ap (λ (t : ℕ). t * 2 ^ c) (mul-div_left (q * 2 ^ b + i) (pow_pos c)))

-- and has the leading bits of the base.
pub block-leading : (b c q i : ℕ) → i < 2 ^ b → (q * 2 ^ (b + c) + i * 2 ^ c) / 2 ^ (b + c) ≡ q
block-leading b c q i hi =
    mul-add-div-mul q (2 ^ (b + c)) (i * 2 ^ c) (rw (pow-add b c) (grind (arith, pow_pos c)))

-- The whole block lies below the end of the base.
pub block-end :
    (b c q i : ℕ) → i < 2 ^ b → q * 2 ^ (b + c) + i * 2 ^ c + 2 ^ c ≤ (q + 1) * 2 ^ (b + c)
block-end b c q i hi = rw (pow-add b c) (grind (arith, pow_pos c))

-- The index of a block is recovered from its address.
pub div-lt-pow : (a h v : ℕ) → v < 2 ^ (a + h) → v / 2 ^ h < 2 ^ a
div-lt-pow a h v hv = (div-lt_iff_lt-mul (pow_pos h)).1 (rw pow-add at hv)
