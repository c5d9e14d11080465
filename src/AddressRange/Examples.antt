-- ===== src/AddressRange/Examples.antt =====
-- Runs of internal/prefix/addressrange.go on a delegation.
use dynamic_prefix_operator.Prelude.{
  ℕ, ◌≤◌, ◌≡◌, refl, true, Option, some, none, ok, [], ◌∷◌, arith, if◌then◌else◌,
}
use dynamic_prefix_operator.Net.{Addr, NetPrefix, IsIpv6, ipv6_prefix, contains}
use dynamic_prefix_operator.Ownership.Texts.{Text, text_eq}
use dynamic_prefix_operator.AddressRange.{
  AddressRangeConfig, calculate_address_range, range_to_cidr, address_count,
}
use dynamic_prefix_operator.AddressRange.Suffix.{at_value, calculate_address_range_lem}
use dynamic_prefix_operator.AddressRange.Cidr.{range_to_cidr_smallest}
use dynamic_prefix_operator.AddressRange.Count.{address_count_lem}

-- 2001:db8:abcd:1200::/56
abbrev delegation : NetPrefix
delegation = ipv6_prefix 0x2001_0db8_abcd_1200_0000_0000_0000_0000 56

delegation-IsIpv6 : IsIpv6 delegation
delegation-IsIpv6 = record {
  no_zone = refl;
  length_set = omega arith;
  length_fits = omega arith;
  value_fits = omega arith;
}

-- "s" is ::f000:0:0:0 and "e" is ::ffff:ffff:ffff:ffff.
abbrev parse : Text → Option Addr
parse t =
    if text_eq t (b's' ∷ [])
    then some (at_value 0xf000_0000_0000_0000)
    else if text_eq t (b'e' ∷ [])
    then some (at_value 0xffff_ffff_ffff_ffff)
    else none

abbrev services : AddressRangeConfig
services = record { name = []; start = b's' ∷ []; end = b'e' ∷ [] }

abbrev first : ℕ
first = 0x2001_0db8_abcd_1200_f000_0000_0000_0000

abbrev last : ℕ
last = 0x2001_0db8_abcd_1200_ffff_ffff_ffff_ffff

calculate_address_range_lem_example :
    calculate_address_range parse delegation services
    ≡ ok (record { name = []; start = at_value first; end = at_value last })
calculate_address_range_lem_example =
    calculate_address_range_lem parse delegation services delegation-IsIpv6
      (at_value 0xf000_0000_0000_0000) (at_value 0xffff_ffff_ffff_ffff) refl refl refl refl

delegation-first : contains delegation (at_value first) ≡ true
unfolding contains
delegation-first = refl

delegation-last : contains delegation (at_value last) ≡ true
unfolding contains
delegation-last = refl

range_to_cidr_smallest_example : 57 ≤ (range_to_cidr (at_value first) (at_value last)).bits_plus_one
range_to_cidr_smallest_example =
    range_to_cidr_smallest first last (omega arith) (omega arith) delegation delegation-IsIpv6
      delegation-first delegation-last

-- The last address of a block of 2 ^ 64 and the first of the next: two addresses, counted as 0.
across : address_count (at_value 0xffff_ffff_ffff_ffff) (at_value 0x1_0000_0000_0000_0000) ≡ 0
across = address_count_lem 0xffff_ffff_ffff_ffff 0x1_0000_0000_0000_0000 (omega arith) (omega arith)

address_count_lem_example : address_count (at_value first) (at_value last) ≡ 0x1000_0000_0000_0000
address_count_lem_example = address_count_lem first last (omega arith) (omega arith)
