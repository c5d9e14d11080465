-- ===== src/AddressRange.antt =====
-- internal/prefix/addressrange.go: ranges of addresses at suffixes of a delegated prefix, the smallest
-- prefix around a range, and how many addresses a range has. `netip.ParseAddr` is a parameter.
pub mod Suffix
pub mod Cidr
pub mod Count
mod Examples
use dynamic_prefix_operator.Prelude.{
  ℕ, zero, suc, ◌+◌, ◌-◌, ◌*◌, ◌/◌, ◌%◌, ◌^◌, Bool, true, false, not, ◌&&◌, ◌||◌, Option, none,
  some, List, [], ◌∷◌, ltb, ◌==◌, if◌then◌else◌, drop, Result, ok, err, ◌>>=◌, wrap_err,
}
use dynamic_prefix_operator.Prelude.Int.{pos, pos_part}
use dynamic_prefix_operator.Net.{
  Addr, NetPrefix, is6, bit_len, bits, masked, contains, addr_prefix, no_prefix,
}
use dynamic_prefix_operator.Ownership.Texts.{Text}
use dynamic_prefix_operator.Bytes.{as_16, addr_from_16, split_byte}

pub record AddressRangeConfig : Type 0 where
  pub name : Text
  pub start : Text
  pub end : Text

pub record AddressRange : Type 0 where
  pub name : Text
  pub start : Addr
  pub end : Addr

pub data RangeError : Type 0 where
  invalid_suffix suffix_not_ipv6 not_ipv6 start_after_end start_outside end_outside : RangeError
  invalid_start invalid_end : Text → RangeError → RangeError
  failed_range : Text → RangeError → RangeError

-- The three loops over the bytes: those before the boundary from the base, the one at the boundary
-- from both, the rest from the suffix.
join_bytes : ℕ → ℕ → List ℕ → List ℕ → List ℕ
join_bytes (suc full) remaining (p ∷ ps) (s ∷ ss) = p ∷ join_bytes full remaining ps ss
join_bytes zero remaining (p ∷ ps) (s ∷ ss) =
    (if ltb 0 remaining then split_byte remaining p s else s) ∷ ss
join_bytes full remaining _ _ = []

-- A parsed suffix and the base. A length of -1, of an invalid base, is 0 here: no bits of it are taken
-- in either case.
unfoldable pub join_suffix : NetPrefix → Addr → Addr
unfolding join_bytes
join_suffix base suffix =
    let prefix_bits = pos_part (bits base) in
    addr_from_16
      (join_bytes (prefix_bits / 8) (prefix_bits % 8) (as_16 (masked base).addr) (as_16 suffix))

with_suffix : NetPrefix → Option Addr → Result RangeError Addr
unfolding join_suffix
with_suffix base none = err invalid_suffix
with_suffix base (some a) = if not (is6 a) then err suffix_not_ipv6 else ok (join_suffix base a)

unfoldable pub parse_offset_suffix :
    (Text → Option Addr) → NetPrefix → Text → Result RangeError Addr
unfolding with_suffix
parse_offset_suffix parse_addr base suffix = with_suffix base (parse_addr suffix)

-- `a.Compare(b) > 0`, of addresses without zones.
abbrev pub is_after : Addr → Addr → Bool
is_after a b = ltb (bit_len b) (bit_len a) || (bit_len a == bit_len b && ltb b.value a.value)

unfoldable pub calculate_address_range :
    (Text → Option Addr) → NetPrefix → AddressRangeConfig → Result RangeError AddressRange
calculate_address_range parse_addr base cfg = do
  start ← wrap_err (invalid_start cfg.start) (parse_offset_suffix parse_addr base cfg.start)
  end ← wrap_err (invalid_end cfg.end) (parse_offset_suffix parse_addr base cfg.end)
  if is_after start end
      then err start_after_end
      else if not (contains base start)
      then err start_outside
      else if not (contains base end)
      then err end_outside
      else ok (record { name = cfg.name; start = start; end = end })

collect_ranges :
    (Text → Option Addr)
    → NetPrefix
    → List AddressRangeConfig
    → Result RangeError (List AddressRange)
collect_ranges parse_addr base [] = ok []
collect_ranges parse_addr base (cfg ∷ cfgs) =
    let rest = collect_ranges parse_addr base cfgs in
    do
      r ← wrap_err (failed_range cfg.name) (calculate_address_range parse_addr base cfg)
      rs ← rest
      ok (r ∷ rs)

unfoldable pub calculate_address_ranges :
    (Text → Option Addr)
    → NetPrefix
    → List AddressRangeConfig
    → Result RangeError (List AddressRange)
unfolding collect_ranges
calculate_address_ranges parse_addr base cfgs =
    if not (is6 base.addr) then err not_ipv6 else collect_ranges parse_addr base cfgs

-- The bit `b` of a byte. The code tests a bit of `start ^ end`, which is set where the two differ.
abbrev pub bit_at : ℕ → ℕ → ℕ
bit_at b x = x / 2 ^ b % 2

-- The loop over the bits of the byte where start and end part, from the bit below `b` on.
leading_bits : ℕ → ℕ → ℕ → ℕ
leading_bits zero s e = 0
leading_bits (suc b) s e =
    let rest = leading_bits b s e in if bit_at b s == bit_at b e then suc rest else 0

unfoldable pub common_bits : List ℕ → List ℕ → ℕ
unfolding leading_bits
common_bits (s ∷ ss) (e ∷ es) =
    let rest = common_bits ss es in if s == e then 8 + rest else leading_bits 8 s e
common_bits _ _ = 0

or_no_prefix : Option NetPrefix → NetPrefix
or_no_prefix none = no_prefix
or_no_prefix (some p) = masked p

unfoldable pub range_to_cidr : Addr → Addr → NetPrefix
unfolding common_bits or_no_prefix
range_to_cidr start end =
    or_no_prefix (addr_prefix start (pos (common_bits (as_16 start) (as_16 end))))

-- Whether the first `n` bytes are equal.
same_first : ℕ → List ℕ → List ℕ → Bool
same_first (suc n) (s ∷ ss) (e ∷ es) = s == e && same_first n ss es
same_first _ _ _ = true

-- `low = (low << 8) | b` over the bytes, in uint64.
low_word : ℕ → List ℕ → ℕ
low_word acc [] = acc
low_word acc (b ∷ bs) = low_word (acc * 256 % 2 ^ 64 + b) bs

-- The last sum is in uint64.
unfoldable pub address_count : Addr → Addr → ℕ
unfolding same_first low_word
address_count start end =
    let s = low_word 0 (drop 8 (as_16 start)) in
    let e = low_word 0 (drop 8 (as_16 end)) in
    if not (same_first 8 (as_16 start) (as_16 end))
    then 0
    else if ltb e s
    then 0
    else (e - s + 1) % 2 ^ 64
