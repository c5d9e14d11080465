-- ===== src/PoolBackends/Examples.antt =====
-- Pools of internal/controller/poolsync_backends.go for a delegation that has changed.
use dynamic_prefix_operator.Prelude.{
  ℕ, ◌≡◌, refl, Bool, true, false, Option, some, none, ok, List, [], ◌∷◌, arith, if◌then◌else◌, inr,
}
use dynamic_prefix_operator.Prelude.Int.{◌-ℤ◌}
use dynamic_prefix_operator.Net.{
  Addr, NetPrefix, IsIpv6, ipv6_prefix, contains, masked, addr_prefix, prefix_from,
}
use dynamic_prefix_operator.Ownership.Texts.{Text, text_eq, texts_eq, texts_eq→eq}
use dynamic_prefix_operator.Ownership.{
  Netip, OwnedEntry, Pool, canonical_entry, preserved, sync_owned_list,
}
use dynamic_prefix_operator.Resource.{last_addr_of_prefix, addr_to_big_int, big_int_to_addr}
use dynamic_prefix_operator.AddressRange.{range_to_cidr, common_bits}
use dynamic_prefix_operator.AddressRange.Suffix.{at_value}
use dynamic_prefix_operator.PoolSync.{PoolConfiguration}
use dynamic_prefix_operator.PoolBackends.{
  release_recorded_slice, calico_cidr_for_config, exact_cidr_for_address_range, exact_of,
  only_exact, same_family,
}
use dynamic_prefix_operator.PoolBackends.Release.{release-sync}
use dynamic_prefix_operator.PoolBackends.Exact.{calico_cidr_for_config-contains}

-- 2001:db8:abcd:1200::/56, and its addresses at ::f000:0:0:0 and ::ffff:ffff:ffff:ffff
abbrev delegation : NetPrefix
delegation = ipv6_prefix 0x2001_0db8_abcd_1200_0000_0000_0000_0000 56

delegation-IsIpv6 : IsIpv6 delegation
delegation-IsIpv6 = record {
  no_zone = refl;
  length_set = omega arith;
  length_fits = omega arith;
  value_fits = omega arith;
}

abbrev first : ℕ
first = 0x2001_0db8_abcd_1200_f000_0000_0000_0000

abbrev last : ℕ
last = 0x2001_0db8_abcd_1200_ffff_ffff_ffff_ffff

abbrev parse_addr : Text → Option Addr
parse_addr t =
    if text_eq t (b's' ∷ [])
    then some (at_value first)
    else if text_eq t (b'e' ∷ [])
    then some (at_value last)
    else none

-- A prefix is printed as one code point, its length plus one.
abbrev lib : Netip
lib = record {
  parse_addr = parse_addr;
  addr_string = λ a. a.value ∷ [];
  parse_prefix = λ t. none;
  prefix_string = λ p. p.bits_plus_one ∷ [];
}

abbrev plain : Netip
plain = record {
  parse_addr = λ t. none;
  addr_string = λ a. [];
  parse_prefix = λ t. none;
  prefix_string = λ p. [];
}

canonical_plain : (item : Text) → canonical_entry plain item ≡ item
unfolding canonical_entry
canonical_plain item = refl

-- The entry "o" is the operator's, "u" a user's, and "n" is desired.
abbrev shared : Pool Text
shared = record { field = (b'u' ∷ []) ∷ (b'o' ∷ []) ∷ []; annotation = some (b'o' ∷ []) }

abbrev old_entry : Text → Bool
old_entry t = text_eq t (b'o' ∷ [])

abbrev wanted : List (OwnedEntry Text)
wanted = record { value = b'n' ∷ []; key = b'n' ∷ [] } ∷ []

release-sync_example :
    release_recorded_slice plain
      (λ t. t)
      (sync_owned_list texts_eq (λ t. t) old_entry wanted shared).0
    ≡ (record { field = (b'u' ∷ []) ∷ []; annotation = none }, true)
unfolding preserved
release-sync_example =
    release-sync plain (λ t. t) texts_eq old_entry wanted shared texts_eq→eq canonical_plain
      (inr (refl, refl, canonical_plain (b'n' ∷ [])), tt) (refl, tt)

abbrev services : PoolConfiguration
services = record { use_address_range = true; start = b's' ∷ []; end = b'e' ∷ []; cidr = [] }

written : calico_cidr_for_config lib services ≡ ok (69 ∷ [])
unfolding calico_cidr_for_config exact_cidr_for_address_range exact_of only_exact same_family
    range_to_cidr common_bits masked addr_prefix prefix_from last_addr_of_prefix addr_to_big_int
    big_int_to_addr ◌-ℤ◌
written = refl

calico_cidr_for_config-contains_example :
    (◌≡◌ {A = Text} (69 ∷ []) ((range_to_cidr (at_value first) (at_value last)).bits_plus_one ∷ []))
    × (contains (range_to_cidr (at_value first) (at_value last)) (at_value 5) ≡ false)
calico_cidr_for_config-contains_example =
    calico_cidr_for_config-contains lib services first last refl refl refl 5 (69 ∷ []) written
