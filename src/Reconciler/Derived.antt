-- ===== src/Reconciler/Derived.antt =====
-- What `DynamicPrefixReconciler` of internal/controller/dynamicprefix_controller.go computes from an
-- acquired prefix: the subnets and ranges of its status, and when to look again.
use dynamic_prefix_operator.Prelude.{
  Bool, false, not, ◌&&◌, Option, none, some, List, [], ◌∷◌, ◌++◌, if◌then◌else◌, map, Result, ok,
  ◌>>=◌,
}
use dynamic_prefix_operator.Prelude.Int.{ℤ, pos, ltb_ℤ, ◌-ℤ◌, ◌+ℤ◌}
use dynamic_prefix_operator.Net.{NetPrefix}
use dynamic_prefix_operator.Ownership.Texts.{Text, text_eq}
use dynamic_prefix_operator.Ownership.{Netip}
use dynamic_prefix_operator.Subnet
use dynamic_prefix_operator.Subnet.{Subnet, SubnetError}
use dynamic_prefix_operator.AddressRange
use dynamic_prefix_operator.AddressRange.{AddressRange, RangeError, range_to_cidr}
use dynamic_prefix_operator.Resource.{
  SubnetSpec, BgpSpec, SubnetStatus, AddressRangeSpec, AddressRangeStatus,
}
use dynamic_prefix_operator.ServiceSync.{subnet_config, range_config}
use dynamic_prefix_operator.Types.{Prefix}

abbrev pub advertises : Option BgpSpec → Bool
advertises none = false
advertises (some b) = b.advertise

-- "dp-", the name, "-" and the subnet's name.
unfoldable pub advertisement_name : Text → Text → Text
advertisement_name name subnet = b'd' ∷ b'p' ∷ b'-' ∷ (name ++ b'-' ∷ subnet)

-- What the map of the advertised subnets has for a name.
unfoldable pub advertised : Text → List SubnetSpec → Text → Text
unfolding advertisement_name
advertised name [] subnet = []
advertised name (s ∷ ss) subnet =
    let rest = advertised name ss subnet in
    if (advertises s.bgp && text_eq s.name subnet) then advertisement_name name subnet else rest

subnet_statuses : Netip → Text → List SubnetSpec → List Subnet → List SubnetStatus
subnet_statuses lib name specs [] = []
subnet_statuses lib name specs (s ∷ ss) =
    record {
      name = s.name;
      cidr = lib.prefix_string s.cidr;
      bgp_advertisement = advertised name specs s.name;
    }
    ∷ subnet_statuses lib name specs ss

-- Without specs the code leaves out the calculation, whatever the prefix.
unfoldable pub calculate_subnets :
    Netip → Text → NetPrefix → List SubnetSpec → Result SubnetError (List SubnetStatus)
unfolding subnet_statuses
calculate_subnets lib name base [] = ok []
calculate_subnets lib name base (s ∷ ss) = do
  subnets ← Subnet.calculate_subnets base (map subnet_config (s ∷ ss))
  ok (subnet_statuses lib name (s ∷ ss) subnets)

range_statuses : Netip → List AddressRange → List AddressRangeStatus
range_statuses lib [] = []
range_statuses lib (r ∷ rs) =
    record {
      name = r.name;
      start = lib.addr_string r.start;
      end = lib.addr_string r.end;
      cidr = lib.prefix_string (range_to_cidr r.start r.end);
    }
    ∷ range_statuses lib rs

unfoldable pub calculate_address_ranges :
    Netip → NetPrefix → List AddressRangeSpec → Result RangeError (List AddressRangeStatus)
unfolding range_statuses
calculate_address_ranges lib base [] = ok []
calculate_address_ranges lib base (s ∷ ss) = do
  ranges ← AddressRange.calculate_address_ranges lib.parse_addr base (map range_config (s ∷ ss))
  ok (range_statuses lib ranges)

-- One minute and five minutes, in nanoseconds.
abbrev pub minute : ℤ
minute = pos 60_000_000_000

abbrev pub five_minutes : ℤ
five_minutes = pos 300_000_000_000

abbrev pub is_zero : ℤ → Bool
is_zero t = not (ltb_ℤ t (pos 0)) && not (ltb_ℤ (pos 0) t)

-- `if requeue < time.Minute` and `if requeue > 5*time.Minute`
clamped : ℤ → ℤ
clamped t = if ltb_ℤ t minute then minute else if ltb_ℤ five_minutes t then five_minutes else t

unfoldable pub calculate_requeue_time : (ℤ → ℤ) → ℤ → Prefix → ℤ
unfolding clamped ◌+ℤ◌ ◌-ℤ◌
calculate_requeue_time scaled now p =
    if is_zero p.valid_lifetime
    then five_minutes
    else clamped (scaled (p.received_at +ℤ p.valid_lifetime -ℤ now))
