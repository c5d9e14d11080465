-- ===== src/Subnet/Inside.antt =====
-- Where the subnets of internal/prefix/subnet.go lie: inside the delegation, aligned and disjoint.
use mathlib.Core.Bool.{false≢true}
use mathlib.Core.Path.{subst₂}
use dynamic_prefix_operator.Prelude.{
  ℕ, suc, ◌+◌, ◌-◌, ◌*◌, ◌/◌, ◌^◌, ◌≤◌, ◌<◌, ◌≡◌, refl, sym, ap, ◌∙◌, subst, true, ok, err, ==_iff,
  ◌>>=◌, inl, inr, Result-cases, wrap_err, arith, is_ok, ◌↔◌, List, [], ◌∷◌, Result,
}
use dynamic_prefix_operator.Prelude.Int.{pos, ltb_ℤ}
use dynamic_prefix_operator.Net.{
  NetPrefix, IsIpv6, bits, masked, contains, mask, ipv6_prefix, masked-ipv6, ipv6-shape, is6,
  bits-ipv6, contains-ipv6,
}
use dynamic_prefix_operator.Subnet.{
  SubnetConfig, Subnet, SubnetError, failed_subnet, calculate_subnet, calculate_subnets,
  collect_subnets, validate_subnet_fits_in_prefix,
}
use dynamic_prefix_operator.Subnet.Placed.{
  Placed, calculate-Placed, placed_calculate, placed_lt, placed_masked, placed_value,
  placed_leading, placed_end,
}

-- The network of `p`: its addresses are those whose leading bits are these.
abbrev pub block_of : NetPrefix → ℕ
block_of p = p.addr.value / 2 ^ (129 - p.bits_plus_one)

-- The number of addresses in `p`.
abbrev pub size_of : NetPrefix → ℕ
size_of p = 2 ^ (129 - p.bits_plus_one)

host_bits : (n : ℕ) → 128 - n ≡ 129 - suc n
host_bits n = omega arith

base_bits : (k : ℕ) → 1 ≤ k → 128 - (k - 1) ≡ 129 - k
base_bits k h = omega arith

index_at_least : (k n : ℕ) → 1 ≤ k → k - 1 ≤ n → k ≤ suc n
index_at_least k n h g = omega arith

index_span : (k n : ℕ) → 1 ≤ k → n - (k - 1) ≡ suc n - k
index_span k n h = omega arith

inside_shape :
    (v b : ℕ) (cfg : SubnetConfig) (s : Subnet) (n i : ℕ)
    → v < 2 ^ 128
    → Placed v b cfg s n i
    → IsIpv6 s.cidr
      × (bits s.cidr ≡ cfg.prefix_length)
      × (masked s.cidr ≡ s.cidr)
      × (contains (ipv6_prefix v b) s.cidr.addr ≡ true)
      × (s.cidr.addr.value + size_of s.cidr ≤ (v / 2 ^ (128 - b) + 1) * 2 ^ (128 - b))
unfolding placed_value
inside_shape v b cfg s n i hv p =
    rw (p.cidr_at, p.length_given)
      (
        record {
          no_zone = refl;
          length_set = omega arith;
          length_fits = omega (arith, p.at_most_128);
          value_fits = placed_lt v b n i p.not_shorter p.at_most_128 s.name p.index_fits hv;
        },
        bits-ipv6 (mask b v + i * 2 ^ (128 - n)) n,
        masked-ipv6 (mask b v + i * 2 ^ (128 - n)) n p.at_most_128
            ∙ ap (λ t. ipv6_prefix t n) (placed_masked v b n i p.not_shorter p.at_most_128 s.name),
        contains-ipv6 v b (mask b v + i * 2 ^ (128 - n))
            ∙ (==_iff _ _).1
                (sym (placed_leading v b n i p.not_shorter p.at_most_128 s.name p.index_fits)),
        subst (λ t. mask b v + i * 2 ^ (128 - n) + 2 ^ t ≤ (v / 2 ^ (128 - b) + 1) * 2 ^ (128 - b))
            (host_bits n) (placed_end v b n i p.not_shorter p.at_most_128 s.name p.index_fits),
      )

-- A subnet that `CalculateSubnet` returns for a valid IPv6 base is a valid IPv6 prefix of the length
-- asked for, has no host bits, is in the base, and so is its last address.
pub calculate_subnet-inside :
    (base : NetPrefix) (cfg : SubnetConfig) (s : Subnet)
    → IsIpv6 base
    → calculate_subnet base cfg ≡ ok s
    → IsIpv6 s.cidr
      × (bits s.cidr ≡ cfg.prefix_length)
      × (masked s.cidr ≡ s.cidr)
      × (contains base s.cidr.addr ≡ true)
      × (s.cidr.addr.value + size_of s.cidr ≤ (block_of base + 1) * size_of base)
calculate_subnet-inside base cfg s v e =
    let (n, i, p) = calculate-Placed base cfg s v e in
    let (a, b, c, d, l) =
      inside_shape base.addr.value (base.bits_plus_one - 1) cfg s n i v.value_fits p in
    (
      a,
      b,
      c,
      subst (λ q. contains q s.cidr.addr ≡ true) (sym (ipv6-shape base v)) d,
      subst (λ t. s.cidr.addr.value + size_of s.cidr ≤ (base.addr.value / 2 ^ t + 1) * 2 ^ t)
          (base_bits base.bits_plus_one v.length_set) l,
    )

disjoint_blocks : (m h i j : ℕ) → i < j → m + i * h + h ≤ m + j * h
disjoint_blocks m h i j lt = grind arith

place_order :
    (w n m i j : ℕ)
    → n ≡ m
    → i < j
    → w + i * 2 ^ (128 - n) + 2 ^ (129 - suc n) ≤ w + j * 2 ^ (128 - m)
place_order w n m i j e lt =
    subst (λ k. w + i * 2 ^ (128 - n) + 2 ^ (129 - suc n) ≤ w + j * 2 ^ (128 - k)) e
      (subst (λ t. w + i * 2 ^ (128 - n) + 2 ^ t ≤ w + j * 2 ^ (128 - n)) (host_bits n)
        (disjoint_blocks w (2 ^ (128 - n)) i j lt))

pos-injective : (n m : ℕ) → pos n ≡ pos m → n ≡ m
pos-injective n m e = ground arith

ltb_pos : (i j : ℕ) → ltb_ℤ (pos i) (pos j) ≡ true → i < j
ltb_pos i j h = ground arith

-- Two subnets of one length at different offsets of a valid IPv6 base do not meet: the block at the
-- smaller offset ends where or before the other one starts.
pub calculate_subnet-disjoint :
    (base : NetPrefix) (cfg cfg' : SubnetConfig) (s t : Subnet)
    → IsIpv6 base
    → cfg.prefix_length ≡ cfg'.prefix_length
    → ltb_ℤ cfg.offset cfg'.offset ≡ true
    → calculate_subnet base cfg ≡ ok s
    → calculate_subnet base cfg' ≡ ok t
    → s.cidr.addr.value + size_of s.cidr ≤ t.cidr.addr.value
calculate_subnet-disjoint base cfg cfg' s t v el lt es et =
    let (n, i, p) = calculate-Placed base cfg s v es in
    let (m, j, q) = calculate-Placed base cfg' t v et in
    let lengths : n ≡ m = pos-injective n m (sym p.length_given ∙ el ∙ q.length_given) in
    let order : i < j =
      ltb_pos i j (subst₂ (λ x y. ltb_ℤ x y ≡ true) p.offset_given q.offset_given lt) in
    rw (p.cidr_at, q.cidr_at)
      (place_order (mask (base.bits_plus_one - 1) base.addr.value) n m i j lengths order)

-- For a valid IPv6 base `CalculateSubnet` succeeds exactly when the length lies between the base's
-- and 128 and the offset numbers one of the subnets that fit.
pub calculate_subnet-is_ok :
    (base : NetPrefix) (cfg : SubnetConfig)
    → IsIpv6 base
    → (is_ok (calculate_subnet base cfg) ≡ true) ↔ (
        (n : ℕ) × (i : ℕ) × (cfg.prefix_length ≡ pos n)
        × (cfg.offset ≡ pos i)
        × (base.bits_plus_one ≤ suc n)
        × (n ≤ 128)
        × (i < 2 ^ (suc n - base.bits_plus_one)))
calculate_subnet-is_ok base cfg v = (
  λ h. elim (Result-cases (calculate_subnet base cfg)) [
    | inl (s, e) ↦
        let (n, i, p) = calculate-Placed base cfg s v e in
        (
          n,
          i,
          p.length_given,
          p.offset_given,
          index_at_least base.bits_plus_one n v.length_set p.not_shorter,
          p.at_most_128,
          subst (λ t. i < 2 ^ t) (index_span base.bits_plus_one n v.length_set) p.index_fits,
        )
    | inr (r, e) ↦ absurd (false≢true (sym (ap is_ok e) ∙ h))
  ],
  λ (n, i, a, b, c, d, e). placed_calculate base cfg n i v a b c d e,
)

-- When `CalculateSubnet` succeeds on a valid IPv6 base, the second check of
-- `ValidateSubnetFitsInPrefix` passes too, so it fails exactly with the error of the first.
pub validate_subnet-eq-calculate :
    (base : NetPrefix) (cfg : SubnetConfig)
    → IsIpv6 base
    → validate_subnet_fits_in_prefix base cfg ≡ (calculate_subnet base cfg >>= λ s. ok tt)
unfolding validate_subnet_fits_in_prefix
validate_subnet-eq-calculate base cfg v = elim (Result-cases (calculate_subnet base cfg)) [
  | inl (s, e) ↦ let inside = (calculate_subnet-inside base cfg s v e).3 in rw (e, inside)
  | inr (r, e) ↦ rw e
]

-- Each entry of a list of subnets is the one its configuration gives.
abbrev pub Carved : NetPrefix → List SubnetConfig → List Subnet → Type 0
Carved base [] [] = Unit
Carved base (cfg ∷ cfgs) (s ∷ ss) = (calculate_subnet base cfg ≡ ok s) × Carved base cfgs ss
Carved base _ _ = ⊥

both_ok :
    (f : SubnetError → SubnetError) (r : Result SubnetError Subnet)
    (rest : Result SubnetError (List Subnet)) (ss : List Subnet)
    → (wrap_err f r >>= λ s. rest >>= λ ts. ok (s ∷ ts)) ≡ ok ss
    → (s : Subnet) × (ts : List Subnet) × (r ≡ ok s) × (rest ≡ ok ts) × (ss ≡ s ∷ ts)
both_ok f (ok s) (ok ts) ss e = (s, ts, refl, refl, ground arith)
both_ok f (ok s) (err x) ss e = cc
both_ok f (err x) rest ss e = cc

collect-Carved :
    (base : NetPrefix) (cfgs : List SubnetConfig) (ss : List Subnet)
    → collect_subnets base cfgs ≡ ok ss
    → Carved base cfgs ss
unfolding collect_subnets
collect-Carved base [] [] e = tt
collect-Carved base [] (s ∷ ss) e = cc
collect-Carved base (cfg ∷ cfgs) ss e =
    let (s, ts, head, rest, split) =
      both_ok (failed_subnet cfg.name) (calculate_subnet base cfg) (collect_subnets base cfgs) ss
        e in
    subst (Carved base (cfg ∷ cfgs)) (sym split) (head, collect-Carved base cfgs ts rest)

Carved-collect :
    (base : NetPrefix) (cfgs : List SubnetConfig) (ss : List Subnet)
    → Carved base cfgs ss
    → collect_subnets base cfgs ≡ ok ss
unfolding collect_subnets
Carved-collect base [] [] c = refl
Carved-collect base [] (s ∷ ss) c = elim c [ ]
Carved-collect base (cfg ∷ cfgs) [] c = elim c [ ]
Carved-collect base (cfg ∷ cfgs) (s ∷ ss) c = rw (c.0, Carved-collect base cfgs ss c.1)

-- On an IPv6 base `CalculateSubnets` returns a list exactly when every configuration succeeds, and
-- then it is the list of their subnets in order.
pub calculate_subnets-Carved :
    (base : NetPrefix) (cfgs : List SubnetConfig) (ss : List Subnet)
    → is6 base.addr ≡ true
    → (calculate_subnets base cfgs ≡ ok ss) ↔ Carved base cfgs ss
unfolding calculate_subnets
calculate_subnets-Carved base cfgs ss h =
    (λ e. collect-Carved base cfgs ss (rw h at e), λ c. rw h (Carved-collect base cfgs ss c))
