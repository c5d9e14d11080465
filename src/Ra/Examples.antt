-- ===== src/Ra/Examples.antt =====
-- Runs of internal/prefix/ra_receiver.go on advertisements.
use dynamic_prefix_operator.Prelude.{
  ℕ, ◌+◌, ◌%◌, ◌^◌, ◌≡◌, refl, true, false, Option, none, some, List, [], ◌∷◌,
}
use dynamic_prefix_operator.Prelude.Int.{pos, ltb_ℤ, ◌+ℤ◌}
use dynamic_prefix_operator.Net.{Addr, ip6, is_link_local_unicast, ipv6_prefix}
use dynamic_prefix_operator.Types.{Prefix, router_advertisement}
use dynamic_prefix_operator.Policy.{RaPolicy}
use dynamic_prefix_operator.Ra.{
  RaReceiver, PrefixInformation, RaOption, prefix_information, other_option, new_ra_receiver,
  receive, advertisement, handle_router_advertisement, StartEnv, start, expire_lease_if_stale,
}
use dynamic_prefix_operator.Ra.Select.{handle-selected, out_of_bounds, prefix_after, selected}
use dynamic_prefix_operator.Ra.Guard.{
  Guarded, Reach, here, next, starts, receives, ticks, Reach-new-Guarded,
}

abbrev policy : RaPolicy
policy = record {
  policy = record {
    require_global_unicast = true;
    min_prefix_length = pos 0;
    max_prefix_length = pos 0;
  };
  trusted_routers = [];
}

abbrev on_link_hops : Option ℕ
on_link_hops = some 255

abbrev env : StartEnv
env = record { interface_by_name = none; listen = none; set_control_message = none }

-- fe80::1
abbrev router : Addr
router = record { kind = ip6 "eth0"; value = 0xfe80_0000_0000_0000_0000_0000_0000_0001 }

-- 2001:db8:1:2::1, which is no link-local source.
abbrev stranger : Addr
stranger = record { kind = ip6 ""; value = 0x2001_0db8_0001_0002_0000_0000_0000_0001 }

abbrev offered : PrefixInformation
offered = record {
  prefix = record { kind = ip6 ""; value = 0x2001_0db8_0001_0002_0000_0000_0000_0000 };
  prefix_length = 64;
  on_link = true;
  valid_lifetime = pos 3600_000_000_000;
  preferred_lifetime = pos 1800_000_000_000;
}

abbrev local : PrefixInformation
local = record offered {
  prefix = record { kind = ip6 ""; value = 0xfd00_0000_0000_0000_0000_0000_0000_0000 };
}

abbrev options : List RaOption
options = prefix_information local ∷ other_option ∷ prefix_information offered ∷ []

abbrev listening : RaReceiver
unfolding new_ra_receiver start
listening = (start env (new_ra_receiver policy)).0

handle-selected_example :
    let s = handle_router_advertisement (pos 7) options listening in
    (s.rejected % 2 ^ 64
      ≡ (listening.rejected + out_of_bounds listening.ra_policy.policy options) % 2 ^ 64)
    × (s.current_prefix
        ≡ prefix_after
            (pos 7)
            (selected listening.ra_policy.policy options)
            listening.current_prefix)
handle-selected_example = handle-selected (pos 7) options listening

stranger_refused : is_link_local_unicast stranger ≡ false
unfolding is_link_local_unicast
stranger_refused = refl

-- A router on the link repeats the advertisement, and the receiver ticks after each.
life : Reach (new_ra_receiver policy) (
    expire_lease_if_stale (pos 9) (
      receive
        (pos 7)
        (advertisement router (some 255) options)
        (start env (new_ra_receiver policy)).0))
life =
    next
      (next (next here (starts env (new_ra_receiver policy))) (
        receives (pos 7) (advertisement router (some 255) options)
          (start env (new_ra_receiver policy)).0))
      (ticks (pos 9) (
        receive (pos 7) (advertisement router (some 255) options)
          (start env (new_ra_receiver policy)).0))

Reach-new-Guarded_example : Guarded (
    expire_lease_if_stale (pos 9) (
      receive
        (pos 7)
        (advertisement router (some 255) options)
        (start env (new_ra_receiver policy)).0))
Reach-new-Guarded_example =
    Reach-new-Guarded policy
      (expire_lease_if_stale (pos 9) (
        receive (pos 7) (advertisement router (some 255) options)
          (start env (new_ra_receiver policy)).0))
      refl life

abbrev leased : Prefix
leased = record {
  network = ipv6_prefix 0x2001_0db8_0001_0002_0000_0000_0000_0000 64;
  valid_lifetime = pos 3600;
  preferred_lifetime = pos 1800;
  source = router_advertisement;
  received_at = pos 7;
}

abbrev holding : RaReceiver
holding = record listening { current_prefix = some leased }

not_yet : ltb_ℤ (pos 4000 +ℤ pos 3600) (pos 7000) ≡ false
unfolding ◌+ℤ◌
not_yet = refl
