-- ===== src/Policy/Examples.antt =====
-- Runs of internal/prefix/policy.go and validate.go.
use dynamic_prefix_operator.Prelude.{◌^◌, ◌≤◌, ◌<◌, ◌≡◌, ◌↔◌, refl, true, ok, some, none, arith}
use dynamic_prefix_operator.Prelude.Int.{pos}
use dynamic_prefix_operator.Net.{
  NetPrefix, ipv6_prefix, is_link_local_unicast, is_multicast, is_loopback, is_unspecified,
}
use dynamic_prefix_operator.Policy.{
  Policy, validate, validate_delegated_prefix, check_length, is_global_unicast, is_ula,
  PrefixFilterSpec,
}
use dynamic_prefix_operator.Policy.Accepts.{WithinBounds, validate-ok_iff}

abbrev bounded_policy : Policy
bounded_policy = record {
  require_global_unicast = true;
  min_prefix_length = pos 48;
  max_prefix_length = pos 60;
}

-- 2001:db8:abcd:1200::/56
abbrev delegation : NetPrefix
delegation = ipv6_prefix 0x2001_0db8_abcd_1200_0000_0000_0000_0000 56

delegation_accepted : validate bounded_policy delegation ≡ ok tt
unfolding validate validate_delegated_prefix check_length is_global_unicast is_ula is_loopback
    is_multicast is_unspecified is_link_local_unicast
delegation_accepted = refl

validate-ok_iff_example : (validate bounded_policy delegation ≡ ok tt) ↔ (
    (1 ≤ 56)
    × (56 ≤ 128)
    × (2 ^ 125 ≤ 0x2001_0db8_abcd_1200_0000_0000_0000_0000)
    × (0x2001_0db8_abcd_1200_0000_0000_0000_0000 < 2 ^ 126)
    × WithinBounds bounded_policy 56)
validate-ok_iff_example =
    validate-ok_iff bounded_policy 0x2001_0db8_abcd_1200_0000_0000_0000_0000 56 refl (omega arith)

abbrev filter : PrefixFilterSpec
filter = record {
  require_global_unicast = none;
  min_prefix_length = some (pos 48);
  max_prefix_length = none;
}
