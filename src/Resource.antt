-- ===== src/Resource.antt =====
-- The fields of a DynamicPrefix (api/v1alpha1) that pool and service synchronisation read, and what
-- internal/controller/poolsync_controller.go and poolsync_backends.go compute from them for both.
pub mod Last
use dynamic_prefix_operator.Prelude.{
  ℕ, zero, suc, ◌-◌, ◌*◌, ◌/◌, ◌+◌, ◌^◌, ◌%◌, ◌==◌, Bool, Option, none, some, List, [], ◌∷◌,
  if◌then◌else◌,
}
use dynamic_prefix_operator.Prelude.Int.{ℤ, pos, pos_part, ltb_ℤ, ◌-ℤ◌}
use dynamic_prefix_operator.Net.{Addr, ip4, ip6, NetPrefix, is4, is6, masked, bits}
use dynamic_prefix_operator.Ownership.Texts.{Text, text_eq, is_blank}
use dynamic_prefix_operator.Ownership.{Netip}
use dynamic_prefix_operator.History.{PrefixHistoryEntry}

pub record AddressRangeSpec : Type 0 where
  pub name : Text
  pub start : Text
  pub end : Text

-- `advertise` and `community`; a spec may leave the whole out.
pub record BgpSpec : Type 0 where
  pub advertise : Bool
  pub community : Text

pub record SubnetSpec : Type 0 where
  pub name : Text
  pub offset : ℤ
  pub prefix_length : ℤ
  pub bgp : Option BgpSpec

pub record AddressRangeStatus : Type 0 where
  pub name : Text
  pub start : Text
  pub end : Text
  pub cidr : Text

pub record SubnetStatus : Type 0 where
  pub name : Text
  pub cidr : Text
  pub bgp_advertisement : Text

-- `transition` is `MaxPrefixHistory`, of a spec that may leave the transition out.
pub record DynamicPrefix : Type 0 where
  pub transition : Option ℤ
  pub address_ranges : List AddressRangeSpec
  pub subnets : List SubnetSpec
  pub current_prefix : Text
  pub history : List PrefixHistoryEntry
  pub status_ranges : List AddressRangeStatus
  pub status_subnets : List SubnetStatus

abbrev pub find_address_range_spec : Text → List AddressRangeSpec → Option AddressRangeSpec
find_address_range_spec name [] = none
find_address_range_spec name (s ∷ ss) =
    let rest = find_address_range_spec name ss in if text_eq s.name name then some s else rest

abbrev pub find_subnet_spec : Text → List SubnetSpec → Option SubnetSpec
find_subnet_spec name [] = none
find_subnet_spec name (s ∷ ss) =
    let rest = find_subnet_spec name ss in if text_eq s.name name then some s else rest

abbrev pub cons_some {ℓ} : {A : Type ℓ} → Option A → List A → List A
cons_some none xs = xs
cons_some (some x) xs = x ∷ xs

-- A loop over the history that stops after `most` entries and skips those for which it finds nothing.
abbrev pub over_history {ℓ} :
    {A : Type ℓ} → (Text → Option A) → ℕ → List PrefixHistoryEntry → List A
over_history f zero es = []
over_history f (suc most) [] = []
over_history f (suc most) (e ∷ es) = cons_some (f e.prefix) (over_history f most es)

-- `collectManagedPrefixes`
parsed_history : Netip → List PrefixHistoryEntry → List NetPrefix
parsed_history lib [] = []
parsed_history lib (e ∷ es) = cons_some (lib.parse_prefix e.prefix) (parsed_history lib es)

unfoldable pub collect_managed_prefixes : Netip → DynamicPrefix → List NetPrefix
unfolding parsed_history
collect_managed_prefixes lib dp =
    if is_blank dp.current_prefix
    then parsed_history lib dp.history
    else cons_some (lib.parse_prefix dp.current_prefix) (parsed_history lib dp.history)

-- `addrToBigInt`: the value of the address in its own family, and its width.
unfoldable pub addr_to_big_int : Addr → Option (ℕ × ℕ)
addr_to_big_int a =
    if is4 a then some (a.value % 2 ^ 32, 32) else if is6 a then some (a.value, 128) else none

-- `bigIntToAddr` of a value that fits.
unfoldable pub big_int_to_addr : ℕ → ℕ → Addr
big_int_to_addr value bit_len =
    if bit_len == 32
    then record { kind = ip4; value = 0xffff_0000_0000 + value }
    else record { kind = ip6 ""; value = value }

-- Setting the low `h` bits of a number.
abbrev pub or_low : ℕ → ℕ → ℕ
or_low h v = v / 2 ^ h * 2 ^ h + (2 ^ h - 1)

last_of : NetPrefix → Option (ℕ × ℕ) → Option Addr
unfolding big_int_to_addr
last_of p none = none
last_of p (some (base, bit_len)) =
    if ltb_ℤ (pos bit_len) (bits p)
    then none
    else some (big_int_to_addr (or_low (pos_part (pos bit_len -ℤ bits p)) base) bit_len)

-- `none` is its error.
unfoldable pub last_addr_of_prefix : NetPrefix → Option Addr
unfolding last_of addr_to_big_int
last_addr_of_prefix p = last_of (masked p) (addr_to_big_int (masked p).addr)
