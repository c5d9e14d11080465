-- ===== src/Subnet/Examples.antt =====
-- Runs of internal/prefix/subnet.go on a delegation.
use dynamic_prefix_operator.Prelude.{◌+◌, ◌*◌, ◌≤◌, ◌≡◌, refl, true, ok, [], ◌∷◌, arith}
use dynamic_prefix_operator.Prelude.Int.{pos}
use dynamic_prefix_operator.Net.{
  NetPrefix, IsIpv6, bits, masked, addr_prefix, contains, ipv6_prefix,
}
use dynamic_prefix_operator.Subnet.{
  SubnetConfig, Subnet, calculate_subnet, place_subnet, pack, from_big_int, max_subnets,
  subnet_size, offset_in_range,
}
use dynamic_prefix_operator.Subnet.Inside.{
  block_of, size_of, calculate_subnet-inside, calculate_subnet-disjoint,
}

-- 2001:db8:abcd:1200::/56
abbrev delegation : NetPrefix
delegation = ipv6_prefix 0x2001_0db8_abcd_1200_0000_0000_0000_0000 56

abbrev lan : SubnetConfig
lan = record { name = (b'l' ∷ b'a' ∷ b'n' ∷ []); offset = pos 3; prefix_length = pos 64 }

abbrev dmz : SubnetConfig
dmz = record { name = (b'd' ∷ b'm' ∷ b'z' ∷ []); offset = pos 5; prefix_length = pos 64 }

abbrev lan_subnet : Subnet
lan_subnet = record {
  name = (b'l' ∷ b'a' ∷ b'n' ∷ []);
  cidr = ipv6_prefix 0x2001_0db8_abcd_1203_0000_0000_0000_0000 64;
}

abbrev dmz_subnet : Subnet
dmz_subnet = record {
  name = (b'd' ∷ b'm' ∷ b'z' ∷ []);
  cidr = ipv6_prefix 0x2001_0db8_abcd_1205_0000_0000_0000_0000 64;
}

delegation-IsIpv6 : IsIpv6 delegation
delegation-IsIpv6 = record {
  no_zone = refl;
  length_set = omega arith;
  length_fits = omega arith;
  value_fits = omega arith;
}

lan_runs : calculate_subnet delegation lan ≡ ok lan_subnet
unfolding calculate_subnet place_subnet pack from_big_int max_subnets subnet_size offset_in_range
    masked addr_prefix
lan_runs = refl

dmz_runs : calculate_subnet delegation dmz ≡ ok dmz_subnet
unfolding calculate_subnet place_subnet pack from_big_int max_subnets subnet_size offset_in_range
    masked addr_prefix
dmz_runs = refl

calculate_subnet-inside_example :
    IsIpv6 lan_subnet.cidr
    × (bits lan_subnet.cidr ≡ pos 64)
    × (masked lan_subnet.cidr ≡ lan_subnet.cidr)
    × (contains delegation lan_subnet.cidr.addr ≡ true)
    × (lan_subnet.cidr.addr.value + size_of lan_subnet.cidr
        ≤ (block_of delegation + 1) * size_of delegation)
calculate_subnet-inside_example =
    calculate_subnet-inside delegation lan lan_subnet delegation-IsIpv6 lan_runs

calculate_subnet-disjoint_example :
    lan_subnet.cidr.addr.value + size_of lan_subnet.cidr ≤ dmz_subnet.cidr.addr.value
calculate_subnet-disjoint_example =
    calculate_subnet-disjoint delegation lan dmz lan_subnet dmz_subnet delegation-IsIpv6 refl refl
      lan_runs dmz_runs
