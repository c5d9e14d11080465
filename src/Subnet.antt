-- ===== src/Subnet.antt =====
-- internal/prefix/subnet.go: carving the numbered subnets of one length out of a delegated prefix.
-- Go's `int` and `int64` arguments are integers here; `big.Int` is exact.
mod Arithmetic
mod Placed
pub mod Inside
mod Examples
use dynamic_prefix_operator.Prelude.{
  ℕ, ◌+◌, ◌*◌, ◌^◌, ◌≡◌, Bool, true, false, ◌||◌, not, Option, none, some, List, [], ◌∷◌, leb,
  if◌then◌else◌, Result, ok, err, ◌>>=◌, wrap_err,
}
use dynamic_prefix_operator.Prelude.Int.{ℤ, pos, ltb_ℤ, pos_part, ◌-ℤ◌}
use dynamic_prefix_operator.Ownership.Texts.{Text}
use dynamic_prefix_operator.Net.{NetPrefix, Addr, ip6, is6, bits, masked, contains, addr_prefix}

pub record SubnetConfig : Type 0 where
  pub name : Text
  pub offset : ℤ
  pub prefix_length : ℤ

pub record Subnet : Type 0 where
  pub name : Text
  pub cidr : NetPrefix

-- `fill_bytes_panic` is the panic of `FillBytes` on a value over 16 bytes.
pub data SubnetError : Type 0 where
  not_ipv6 too_short exceeds_128 offset_out_of_range fill_bytes_panic no_subnet_prefix : SubnetError
  outside_base : SubnetError
  failed_subnet : Text → SubnetError → SubnetError

-- `subnetAddr.Prefix(cfg.PrefixLength)`, packed with the name.
pack : SubnetConfig → Option NetPrefix → Result SubnetError Subnet
pack cfg none = err no_subnet_prefix
pack cfg (some p) = ok (record { name = cfg.name; cidr = p })

-- `AddrFrom16` of the 16 bytes of `n`.
from_big_int : ℕ → Result SubnetError Addr
from_big_int n =
    if leb (2 ^ 128) n then err fill_bytes_panic else ok (record { kind = ip6 ""; value = n })

max_subnets : NetPrefix → SubnetConfig → ℕ
unfolding ◌-ℤ◌
max_subnets base cfg = 2 ^ pos_part (cfg.prefix_length -ℤ bits base)

subnet_size : SubnetConfig → ℕ
unfolding ◌-ℤ◌
subnet_size cfg = 2 ^ pos_part (pos 128 -ℤ cfg.prefix_length)

offset_in_range : NetPrefix → SubnetConfig → Bool
offset_in_range base cfg =
    not (ltb_ℤ cfg.offset (pos 0) || leb (max_subnets base cfg) (pos_part cfg.offset))

-- The address arithmetic behind the guards.
place_subnet : NetPrefix → SubnetConfig → Result SubnetError Subnet
place_subnet base cfg = do
  addr ← from_big_int ((masked base).addr.value + pos_part cfg.offset * subnet_size cfg)
  pack cfg (addr_prefix addr cfg.prefix_length)

pub calculate_subnet : NetPrefix → SubnetConfig → Result SubnetError Subnet
calculate_subnet base cfg =
    if ltb_ℤ cfg.prefix_length (bits base)
    then err too_short
    else if ltb_ℤ (pos 128) cfg.prefix_length
    then err exceeds_128
    else if not (offset_in_range base cfg)
    then err offset_out_of_range
    else place_subnet base cfg

collect_subnets : NetPrefix → List SubnetConfig → Result SubnetError (List Subnet)
collect_subnets base [] = ok []
collect_subnets base (cfg ∷ cfgs) =
    let rest = collect_subnets base cfgs in
    do s ← wrap_err (failed_subnet cfg.name) (calculate_subnet base cfg); ss ← rest; ok (s ∷ ss)

pub calculate_subnets : NetPrefix → List SubnetConfig → Result SubnetError (List Subnet)
unfolding collect_subnets
calculate_subnets base cfgs =
    if not (is6 base.addr) then err not_ipv6 else collect_subnets base cfgs

pub validate_subnet_fits_in_prefix : NetPrefix → SubnetConfig → Result SubnetError (Unit {0})
validate_subnet_fits_in_prefix base cfg = do
  s ← calculate_subnet base cfg
  if not (contains base s.cidr.addr) then err outside_base else ok tt
