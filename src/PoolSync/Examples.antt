-- ===== src/PoolSync/Examples.antt =====
-- The configurations of internal/controller/poolsync_controller.go for a delegation that has changed.
use dynamic_prefix_operator.Prelude.{ℕ, ◌≡◌, Option, some, none, ok, [], ◌∷◌, arith, if◌then◌else◌}
use dynamic_prefix_operator.Prelude.Int.{pos}
use dynamic_prefix_operator.Net.{Addr}
use dynamic_prefix_operator.Ownership.Texts.{Text, text_eq}
use dynamic_prefix_operator.Ownership.{Netip}
use dynamic_prefix_operator.History.{PrefixHistoryEntry, max_history}
use dynamic_prefix_operator.Resource.{DynamicPrefix}
use dynamic_prefix_operator.AddressRange.Suffix.{at_value}
use dynamic_prefix_operator.PoolSync.{
  build_pool_configurations, build_raw_prefix_configs, cidr_configuration,
}
use dynamic_prefix_operator.PoolSync.Configs.{with_history, build_pool_configurations-append}

abbrev first : ℕ
first = 0x2001_0db8_abcd_1200_f000_0000_0000_0000

abbrev last : ℕ
last = 0x2001_0db8_abcd_1200_ffff_ffff_ffff_ffff

abbrev parse_addr : Text → Option Addr
parse_addr t =
    if text_eq t (b's' ∷ [])
    then some (at_value first)
    else if text_eq t (b'e' ∷ [])
    then some (at_value last)
    else none

-- A prefix is printed as one code point, its length plus one.
abbrev lib : Netip
lib = record {
  parse_addr = parse_addr;
  addr_string = λ a. a.value ∷ [];
  parse_prefix = λ t. none;
  prefix_string = λ p. p.bits_plus_one ∷ [];
}

abbrev entry : ℕ → PrefixHistoryEntry
entry name = record { prefix = name ∷ []; acquired_at = pos 0; deprecated_at = pos 1 }

abbrev resource : DynamicPrefix
resource = record {
  transition = some (pos 1);
  address_ranges = [];
  subnets = [];
  current_prefix = b'c' ∷ [];
  history = [];
  status_ranges = [];
  status_subnets = [];
}

-- Of the entries "o" and "n", where one may be used, the newer one is left out.
build_pool_configurations-append_example :
    build_pool_configurations lib (with_history resource (entry b'o' ∷ entry b'n' ∷ [])) [] []
    ≡ ok (cidr_configuration (b'c' ∷ []) ∷ cidr_configuration (b'o' ∷ []) ∷ [])
unfolding build_pool_configurations build_raw_prefix_configs max_history
build_pool_configurations-append_example =
    build_pool_configurations-append lib resource (entry b'o' ∷ []) (entry b'n' ∷ []) [] []
      (omega arith)
