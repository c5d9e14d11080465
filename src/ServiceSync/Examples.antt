-- ===== src/ServiceSync/Examples.antt =====
-- A Service of internal/controller/servicesync_controller.go whose prefix has changed once.
use dynamic_prefix_operator.Prelude.{
  ℕ, ◌≡◌, refl, true, Option, some, none, ok, [], ◌∷◌, arith, if◌then◌else◌, inr,
}
use dynamic_prefix_operator.Prelude.Int.{pos}
use dynamic_prefix_operator.Bytes.{as_16}
use dynamic_prefix_operator.Net.{Addr, NetPrefix, IsIpv6, ipv6_prefix, contains}
use dynamic_prefix_operator.Ownership.Texts.{Text, text_eq}
use dynamic_prefix_operator.Ownership.{Netip}
use dynamic_prefix_operator.History.{max_history}
use dynamic_prefix_operator.Resource.{DynamicPrefix, AddressRangeSpec}
use dynamic_prefix_operator.AddressRange.{join_suffix}
use dynamic_prefix_operator.AddressRange.Suffix.{at_value}
use dynamic_prefix_operator.ServiceSync.{
  ServiceAnnotations, addresses, combine_prefix_suffix, combine_bytes, combine_byte, combined,
  combined_text, suffix_addresses, calculate_ip_offset, apply_ip_offset, calculate_suffix_ips,
  check_suffix, calculate_address_range_ips, addresses_for_service, answer,
}
use dynamic_prefix_operator.ServiceSync.Combine.{combine_prefix_suffix-join_suffix}
use dynamic_prefix_operator.ServiceSync.Offset.{apply-calculate_ip_offset}
use dynamic_prefix_operator.ServiceSync.Rotate.{calculate_address_range_ips-suffix_addresses}
use dynamic_prefix_operator.ServiceSync.Addresses.{Led, addresses_for_service-Led}

-- 2001:db8:abcd:1200::/56, and 2001:db8:9999:ff00::/56 before it.
abbrev current : NetPrefix
current = ipv6_prefix 0x2001_0db8_abcd_1200_0000_0000_0000_0000 56

abbrev earlier : NetPrefix
earlier = ipv6_prefix 0x2001_0db8_9999_ff00_0000_0000_0000_0000 56

current-IsIpv6 : IsIpv6 current
current-IsIpv6 = record {
  no_zone = refl;
  length_set = omega arith;
  length_fits = omega arith;
  value_fits = omega arith;
}

earlier-IsIpv6 : IsIpv6 earlier
earlier-IsIpv6 = record {
  no_zone = refl;
  length_set = omega arith;
  length_fits = omega arith;
  value_fits = omega arith;
}

-- The address at ::f000:0:0:5 in each.
abbrev assigned : ℕ
assigned = 0x2001_0db8_abcd_1200_f000_0000_0000_0005

abbrev moved : ℕ
moved = 0x2001_0db8_9999_ff00_f000_0000_0000_0005

abbrev parse_addr : Text → Option Addr
parse_addr t =
    if text_eq t (b's' ∷ [])
    then some (at_value 0xf000_0000_0000_0000)
    else if text_eq t (b'e' ∷ [])
    then some (at_value 0xffff_ffff_ffff_ffff)
    else if text_eq t (b'h' ∷ [])
    then some (at_value 0xf000_0000_0000_0005)
    else none

abbrev parse_prefix : Text → Option NetPrefix
parse_prefix t =
    if text_eq t (b'p' ∷ [])
    then some current
    else if text_eq t (b'q' ∷ [])
    then some earlier
    else none

-- An address is printed as one code point, its value.
abbrev lib : Netip
lib = record {
  parse_addr = parse_addr;
  addr_string = λ a. a.value ∷ [];
  parse_prefix = parse_prefix;
  prefix_string = λ p. [];
}

abbrev services : AddressRangeSpec
services = record { name = b'r' ∷ []; start = b's' ∷ []; end = b'e' ∷ [] }

abbrev resource : DynamicPrefix
resource = record {
  transition = none;
  address_ranges = services ∷ [];
  subnets = [];
  current_prefix = b'p' ∷ [];
  history = record { prefix = b'q' ∷ []; acquired_at = pos 0; deprecated_at = pos 1 } ∷ [];
  status_ranges = [];
  status_subnets = [];
}

combine_prefix_suffix-join_suffix_example :
    combine_prefix_suffix current (as_16 (at_value 0xf000_0000_0000_0005))
    ≡ join_suffix current (at_value 0xf000_0000_0000_0005)
combine_prefix_suffix-join_suffix_example =
    combine_prefix_suffix-join_suffix current (at_value 0xf000_0000_0000_0005) current-IsIpv6

apply-calculate_ip_offset_example :
    apply_ip_offset (at_value moved) (calculate_ip_offset (at_value moved) (at_value assigned)).0
    ≡ (at_value assigned, (calculate_ip_offset (at_value moved) (at_value assigned)).1)
apply-calculate_ip_offset_example =
    apply-calculate_ip_offset (at_value moved) (at_value assigned) (omega arith) (omega arith)

current-assigned : contains current (at_value assigned) ≡ true
unfolding contains
current-assigned = refl

calculate_address_range_ips-suffix_addresses_example :
    calculate_address_range_ips lib resource (at_value assigned) (b'r' ∷ []) 2
    ≡ ok (assigned ∷ [], (assigned ∷ []) ∷ (moved ∷ []) ∷ [])
unfolding suffix_addresses combined_text combined combine_prefix_suffix combine_bytes combine_byte
    max_history
calculate_address_range_ips-suffix_addresses_example =
    calculate_address_range_ips-suffix_addresses lib resource (b'r' ∷ []) services current
      (at_value 0xf000_0000_0000_0000) (at_value 0xffff_ffff_ffff_ffff) assigned refl refl
      current-IsIpv6 refl refl refl refl (omega arith) current-assigned (omega arith) (omega arith)
      (inr (earlier, refl, earlier-IsIpv6, refl), tt)

abbrev annotations : ServiceAnnotations
annotations = record {
  suffix = b'h' ∷ [];
  service_address_range = [];
  service_subnet = [];
  address_range = [];
  subnet = [];
}

answered :
    addresses_for_service lib resource annotations []
    ≡ ok (addresses ((assigned ∷ []) ∷ (moved ∷ []) ∷ []) (assigned ∷ []))
unfolding addresses_for_service answer calculate_suffix_ips check_suffix suffix_addresses
    combined_text combined combine_prefix_suffix combine_bytes combine_byte max_history
answered = refl

addresses_for_service-Led_example : Led 2 (assigned ∷ []) ((assigned ∷ []) ∷ (moved ∷ []) ∷ [])
unfolding max_history
addresses_for_service-Led_example =
    addresses_for_service-Led lib resource annotations [] ((assigned ∷ []) ∷ (moved ∷ []) ∷ [])
      (assigned ∷ []) answered
