-- ===== src/Subnet/Placed.antt =====
-- What `CalculateSubnet` of subnet.go returns, computed through its guards.
use dynamic_prefix_operator.Prelude.{
  ℕ, suc, ◌+◌, ◌-◌, ◌*◌, ◌/◌, ◌^◌, ◌≤◌, ◌<◌, ◌≡◌, refl, ap, subst, true, false, ok, arith, is_ok,
}
use dynamic_prefix_operator.Prelude.Int.{ℤ, pos, negsuc, ltb_ℤ}
use dynamic_prefix_operator.Ownership.Texts.{Text}
use dynamic_prefix_operator.Net.{
  NetPrefix, IsIpv6, ip6, bits, mask, ipv6_prefix, masked-ipv6, addr_prefix-ipv6, ipv6-shape,
}
use dynamic_prefix_operator.Subnet.{
  SubnetConfig, Subnet, pack, from_big_int, calculate_subnet, max_subnets, subnet_size,
  offset_in_range, place_subnet,
}
use dynamic_prefix_operator.Subnet.Arithmetic.{
  block-lt, block-aligned, block-leading, block-end, div-lt-pow,
}

-- 128 bits are the base's, those that number the subnet, and the host's.
split_128 : (b n : ℕ) → b ≤ n → n ≤ 128 → b + ((n - b) + (128 - n)) ≡ 128
split_128 b n p q = omega arith

pub split_host : (b n : ℕ) → b ≤ n → n ≤ 128 → n - b + (128 - n) ≡ 128 - b
split_host b n p q = omega arith

from_big_int_lt : (w : ℕ) → w < 2 ^ 128 → from_big_int w ≡ ok (record { kind = ip6 ""; value = w })
unfolding from_big_int
from_big_int_lt w h = ground arith

module _ (v b n i : ℕ) (bn : b ≤ n) (nb : n ≤ 128) (name : Text) where
  explicit_cfg : SubnetConfig
  explicit_cfg = record { name = name; offset = pos i; prefix_length = pos n }

  explicit_max : max_subnets (ipv6_prefix v b) explicit_cfg ≡ 2 ^ (n - b)
  unfolding max_subnets explicit_cfg
  explicit_max = ap (λ (t : ℕ). 2 ^ t) (ground arith)

  explicit_size : subnet_size explicit_cfg ≡ 2 ^ (128 - n)
  unfolding subnet_size explicit_cfg
  explicit_size = ap (λ (t : ℕ). 2 ^ t) (ground arith)

  explicit_offset : i < 2 ^ (n - b) → offset_in_range (ipv6_prefix v b) explicit_cfg ≡ true
  unfolding offset_in_range explicit_cfg
  explicit_offset h = ground (arith, explicit_max)

  unfoldable pub placed_value : ℕ
  placed_value = mask b v + i * 2 ^ (128 - n)

  pub placed_lt : i < 2 ^ (n - b) → v < 2 ^ 128 → placed_value < 2 ^ 128
  unfolding placed_value
  placed_lt h hv =
      subst (λ t. placed_value < 2 ^ t) (split_128 b n bn nb)
        (subst (λ t. v / 2 ^ t * 2 ^ t + i * 2 ^ (128 - n) < 2 ^ (b + (n - b + (128 - n))))
          (split_host b n bn nb)
          (block-lt b (n - b) (128 - n) (v / 2 ^ (n - b + (128 - n))) i
            (div-lt-pow b (n - b + (128 - n)) v (rw (split_128 b n bn nb) hv)) h))

  pub placed_masked : mask n placed_value ≡ placed_value
  unfolding placed_value
  placed_masked =
      subst
        (λ t.
          (v / 2 ^ t * 2 ^ t + i * 2 ^ (128 - n)) / 2 ^ (128 - n) * 2 ^ (128 - n)
          ≡ v / 2 ^ t * 2 ^ t + i * 2 ^ (128 - n))
        (split_host b n bn nb) (block-aligned (n - b) (128 - n) (v / 2 ^ (n - b + (128 - n))) i)

  -- It keeps the leading bits of the base, and its block ends in the base.
  pub placed_leading : i < 2 ^ (n - b) → mask b placed_value ≡ mask b v
  unfolding placed_value
  placed_leading h =
      subst (λ t. (v / 2 ^ t * 2 ^ t + i * 2 ^ (128 - n)) / 2 ^ t * 2 ^ t ≡ v / 2 ^ t * 2 ^ t)
        (split_host b n bn nb)
        (ap (λ (t : ℕ). t * 2 ^ (n - b + (128 - n)))
          (block-leading (n - b) (128 - n) (v / 2 ^ (n - b + (128 - n))) i h))

  pub placed_end :
      i < 2 ^ (n - b) → placed_value + 2 ^ (128 - n) ≤ (v / 2 ^ (128 - b) + 1) * 2 ^ (128 - b)
  unfolding placed_value
  placed_end h =
      subst (λ t. v / 2 ^ t * 2 ^ t + i * 2 ^ (128 - n) + 2 ^ (128 - n) ≤ (v / 2 ^ t + 1) * 2 ^ t)
        (split_host b n bn nb) (block-end (n - b) (128 - n) (v / 2 ^ (n - b + (128 - n))) i h)

  explicit_place :
      i < 2 ^ (n - b)
      → v < 2 ^ 128
      → place_subnet (ipv6_prefix v b) explicit_cfg
        ≡ ok (record { name = name; cidr = ipv6_prefix placed_value n })
  unfolding place_subnet explicit_cfg placed_value pack
  explicit_place h hv = rw (
    masked-ipv6 v b (omega arith),
    explicit_size,
    from_big_int_lt placed_value (placed_lt h hv),
    addr_prefix-ipv6 placed_value n nb,
    placed_masked,
  )

  explicit_calculate :
      i < 2 ^ (n - b)
      → v < 2 ^ 128
      → calculate_subnet (ipv6_prefix v b) explicit_cfg
        ≡ ok (record { name = name; cidr = ipv6_prefix placed_value n })
  unfolding calculate_subnet explicit_cfg
  explicit_calculate h hv = ground (arith, explicit_offset h, explicit_place h hv)

-- What a success says: the guards as numbers, and where the subnet lies.
pub record Placed (v b : ℕ) (cfg : SubnetConfig) (s : Subnet) (n i : ℕ) : Type 0 where
  pub length_given : cfg.prefix_length ≡ pos n
  pub offset_given : cfg.offset ≡ pos i
  pub not_shorter : b ≤ n
  pub at_most_128 : n ≤ 128
  pub index_fits : i < 2 ^ (n - b)
  pub name_kept : s.name ≡ cfg.name
  pub cidr_at : s.cidr ≡ ipv6_prefix (mask b v + i * 2 ^ (128 - n)) n

guards :
    (base : NetPrefix) (cfg : SubnetConfig) {s : Subnet}
    → calculate_subnet base cfg ≡ ok s
    → (ltb_ℤ cfg.prefix_length (bits base) ≡ false)
      × (ltb_ℤ (pos 128) cfg.prefix_length ≡ false)
      × (offset_in_range base cfg ≡ true)
unfolding calculate_subnet
guards base cfg h = ground arith

abbrev config : Text → ℤ → ℤ → SubnetConfig
config name o l = record { name = name; offset = o; prefix_length = l }

index_bound :
    (v b n i : ℕ) (name : Text)
    → b ≤ n
    → n ≤ 128
    → offset_in_range (ipv6_prefix v b) (config name (pos i) (pos n)) ≡ true
    → i < 2 ^ (n - b)
unfolding offset_in_range explicit_cfg
index_bound v b n i name bn nb h = ground (arith, explicit_max v b n i bn nb name)

calculate_cases :
    (v b : ℕ) (name : Text) (l o : ℤ) (s : Subnet)
    → v < 2 ^ 128
    → calculate_subnet (ipv6_prefix v b) (config name o l) ≡ ok s
    → (n : ℕ) × (i : ℕ) × Placed v b (config name o l) s n i
unfolding explicit_cfg placed_value offset_in_range
calculate_cases v b name (pos n) (pos i) s hv e =
    let g = guards (ipv6_prefix v b) (config name (pos i) (pos n)) e in
    let bn : b ≤ n = ground arith in
    let nb : n ≤ 128 = ground arith in
    let hi = index_bound v b n i name bn nb g.2 in
    let found = explicit_calculate v b n i bn nb name hi hv in
    (
      n,
      i,
      record {
        length_given = refl;
        offset_given = refl;
        not_shorter = bn;
        at_most_128 = nb;
        index_fits = hi;
        name_kept = cc;
        cidr_at = cc;
      },
    )
calculate_cases v b name (negsuc n) o s hv e =
    let g = guards (ipv6_prefix v b) (config name o (negsuc n)) e in ground arith
calculate_cases v b name (pos n) (negsuc i) s hv e =
    let g = guards (ipv6_prefix v b) (config name (negsuc i) (pos n)) e in ground arith

pub calculate-Placed :
    (base : NetPrefix) (cfg : SubnetConfig) (s : Subnet)
    → IsIpv6 base
    → calculate_subnet base cfg ≡ ok s
    → (n : ℕ) × (i : ℕ) × Placed base.addr.value (base.bits_plus_one - 1) cfg s n i
calculate-Placed base cfg s v e =
    calculate_cases base.addr.value (base.bits_plus_one - 1) cfg.name cfg.prefix_length cfg.offset s
      v.value_fits (subst (λ p. calculate_subnet p cfg ≡ ok s) (ipv6-shape base v) e)

index_bits : (b n : ℕ) → 1 ≤ b → b ≤ suc n → suc n - b ≡ n - (b - 1)
index_bits b n h k = omega arith

pub placed_calculate :
    (base : NetPrefix) (cfg : SubnetConfig) (n i : ℕ)
    → IsIpv6 base
    → cfg.prefix_length ≡ pos n
    → cfg.offset ≡ pos i
    → base.bits_plus_one ≤ suc n
    → n ≤ 128
    → i < 2 ^ (suc n - base.bits_plus_one)
    → is_ok (calculate_subnet base cfg) ≡ true
unfolding explicit_cfg
placed_calculate base cfg n i v el eo bn nb hi =
    let here =
      explicit_calculate base.addr.value (base.bits_plus_one - 1) n i (omega arith) nb cfg.name
        (subst (λ (t : ℕ). i < 2 ^ t) (index_bits base.bits_plus_one n v.length_set bn) hi)
        v.value_fits in
    let shape = ipv6-shape base v in
    let same : cfg ≡ config cfg.name (pos i) (pos n) = ground arith in
    rw (shape, same) (rw here refl)
