-- ===== src/PoolSync.antt =====
-- internal/controller/poolsync_controller.go: the configurations of a load balancer's pool for the
-- current and the earlier prefixes.
pub mod Configs
mod Examples
use dynamic_prefix_operator.Prelude.{
  ℕ, ◌==◌, Bool, true, false, not, ◌&&◌, ◌||◌, Option, none, some, List, [], ◌∷◌, ◌++◌,
  if◌then◌else◌, ltb, leb, Result, ok, err, ◌>>=◌, wrap_err,
}
use dynamic_prefix_operator.Prelude.Int.{ℤ}
use dynamic_prefix_operator.Net.{Addr, NetPrefix, is4, is6, addr_eq, masked, contains, bit_len}
use dynamic_prefix_operator.Ownership.Texts.{Text, text_eq, is_blank, trim_space}
use dynamic_prefix_operator.Ownership.{
  Netip, OwnershipRecord, canonical_entry, parse_ownership_record, owns, is_owned_cidr, is_owned,
  is_prefix_subset_of_managed, OwnedEntry, Pool, preserved, sync_owned_list,
}
use dynamic_prefix_operator.History.{PrefixHistoryEntry, max_history}
use dynamic_prefix_operator.Subnet.{SubnetError, Subnet, calculate_subnet}
use dynamic_prefix_operator.AddressRange.{
  RangeError, AddressRange, calculate_address_range, range_to_cidr, is_after,
}
use dynamic_prefix_operator.Resource.{
  DynamicPrefix, AddressRangeSpec, SubnetSpec, AddressRangeStatus, SubnetStatus,
  find_address_range_spec, find_subnet_spec, over_history, last_addr_of_prefix,
}
use dynamic_prefix_operator.ServiceSync.{range_config, subnet_config}

pub record PoolConfiguration : Type 0 where
  pub use_address_range : Bool
  pub start : Text
  pub end : Text
  pub cidr : Text

abbrev pub cidr_configuration : Text → PoolConfiguration
cidr_configuration cidr = record { use_address_range = false; start = []; end = []; cidr = cidr }

pub data PoolError : Type 0 where
  no_current_prefix : PoolError
  not_found invalid_prefix invalid_start invalid_end not_aligned : Text → PoolError
  range_failed : RangeError → PoolError
  subnet_failed : SubnetError → PoolError
  failed_current : PoolError → PoolError
  mixed_families reversed not_ipv6 no_last_addr no_cidr : PoolError

abbrev pub or_err {ℓ} : {A : Type ℓ} → PoolError → Option A → Result PoolError A
or_err e none = err e
or_err e (some a) = ok a

find_address_range_in_status : Text → List AddressRangeStatus → Option PoolConfiguration
find_address_range_in_status name [] = none
find_address_range_in_status name (s ∷ ss) =
    let rest = find_address_range_in_status name ss in
    if text_eq s.name name
    then some (record { use_address_range = true; start = s.start; end = s.end; cidr = s.cidr })
    else rest

find_subnet_in_status : Text → List SubnetStatus → Option PoolConfiguration
find_subnet_in_status name [] = none
find_subnet_in_status name (s ∷ ss) =
    let rest = find_subnet_in_status name ss in
    if text_eq s.name name then some (cidr_configuration s.cidr) else rest

printed_range : Netip → AddressRange → PoolConfiguration
printed_range lib r = record {
  use_address_range = true;
  start = lib.addr_string r.start;
  end = lib.addr_string r.end;
  cidr = lib.prefix_string (range_to_cidr r.start r.end);
}

unfoldable pub calculate_address_range_config :
    Netip → Text → AddressRangeSpec → Result PoolError PoolConfiguration
unfolding printed_range
calculate_address_range_config lib prefix spec = do
  base ← or_err (invalid_prefix prefix) (lib.parse_prefix prefix)
  r ← wrap_err range_failed (calculate_address_range lib.parse_addr base (range_config spec))
  ok (printed_range lib r)

unfoldable pub calculate_subnet_config :
    Netip → Text → SubnetSpec → Result PoolError PoolConfiguration
calculate_subnet_config lib prefix spec = do
  base ← or_err (invalid_prefix prefix) (lib.parse_prefix prefix)
  s ← wrap_err subnet_failed (calculate_subnet base (subnet_config spec))
  ok (cidr_configuration (lib.prefix_string s.cidr))

abbrev if_ok : Result PoolError PoolConfiguration → Option PoolConfiguration
if_ok (ok c) = some c
if_ok (err e) = none

-- `buildModeConfigs`, of what the lookups find.
module _ {S : Type 0} where
  current_config :
      Text
      → Text
      → (Text → S → Result PoolError PoolConfiguration)
      → Option S
      → Option PoolConfiguration
      → Result PoolError PoolConfiguration
  current_config name prefix calculate spec (some c) = ok c
  current_config name prefix calculate none none = err (not_found name)
  current_config name prefix calculate (some s) none = wrap_err failed_current (calculate prefix s)

  historical_configs :
      (Text → S → Result PoolError PoolConfiguration)
      → ℕ
      → List PrefixHistoryEntry
      → Option S
      → List PoolConfiguration
  historical_configs calculate most history none = []
  historical_configs calculate most history (some s) =
      over_history (λ prefix. if_ok (calculate prefix s)) most history

  unfoldable pub build_mode_configs :
      DynamicPrefix
      → Text
      → ℕ
      → Option S
      → Option PoolConfiguration
      → (Text → S → Result PoolError PoolConfiguration)
      → Result PoolError (List PoolConfiguration)
  unfolding current_config historical_configs
  build_mode_configs dp name most spec in_status calculate = do
    current ← current_config name dp.current_prefix calculate spec in_status
    ok (current ∷ historical_configs calculate most dp.history spec)

unfoldable pub build_raw_prefix_configs : DynamicPrefix → ℕ → List PoolConfiguration
build_raw_prefix_configs dp most =
    cidr_configuration dp.current_prefix
    ∷ over_history (λ prefix. some (cidr_configuration prefix)) most dp.history

-- A name is blank where the annotation is missing or "".
unfoldable pub build_pool_configurations :
    Netip → DynamicPrefix → Text → Text → Result PoolError (List PoolConfiguration)
unfolding find_address_range_in_status find_subnet_in_status
build_pool_configurations lib dp range_name subnet_name =
    let most = max_history dp.transition in
    if is_blank dp.current_prefix
    then err no_current_prefix
    else if not (is_blank range_name)
    then build_mode_configs dp range_name most
        (find_address_range_spec range_name dp.address_ranges)
        (find_address_range_in_status range_name dp.status_ranges)
        (calculate_address_range_config lib)
    else if not (is_blank subnet_name)
    then build_mode_configs dp subnet_name most (find_subnet_spec subnet_name dp.subnets)
        (find_subnet_in_status subnet_name dp.status_subnets) (calculate_subnet_config lib)
    else ok (build_raw_prefix_configs dp most)
