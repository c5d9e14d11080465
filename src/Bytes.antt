-- ===== src/Bytes.antt =====
-- Addresses as 16 bytes, the way the byte loops of internal/prefix/addressrange.go and
-- internal/controller/servicesync_controller.go handle them: `As16`, `AddrFrom16` and byte masks.
pub mod Values
pub mod Combine
use dynamic_prefix_operator.Prelude.{
  ℕ, zero, suc, ◌+◌, ◌-◌, ◌*◌, ◌/◌, ◌%◌, ◌^◌, List, [], ◌∷◌, length,
}
use dynamic_prefix_operator.Net.{Addr, ip6}

-- The last `k` bytes of a number, the most significant one first.
abbrev pub bytes : ℕ → ℕ → List ℕ
bytes zero v = []
bytes (suc k) v = v / 2 ^ (8 * k) % 256 ∷ bytes k v

-- The number that some bytes spell.
abbrev pub value_of : List ℕ → ℕ
value_of [] = 0
value_of (b ∷ bs) = b * 2 ^ (8 * length bs) + value_of bs

-- `As16` and `AddrFrom16`
abbrev pub as_16 : Addr → List ℕ
as_16 a = bytes 16 a.value

abbrev pub addr_from_16 : List ℕ → Addr
addr_from_16 bs = record { kind = ip6 ""; value = value_of bs }

-- `(p & mask) | (s & ^mask)` with `mask = byte(0xFF << (8 - r))`: the first `r` bits of one byte, then
-- the rest of another.
abbrev pub split_byte : ℕ → ℕ → ℕ → ℕ
split_byte r p s = p / 2 ^ (8 - r) * 2 ^ (8 - r) + s % 2 ^ (8 - r)
