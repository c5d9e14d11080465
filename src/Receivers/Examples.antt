-- ===== src/Receivers/Examples.antt =====
-- Runs of internal/prefix/composite_receiver.go over a DHCPv6-PD and a Router Advertisement receiver.
use dynamic_prefix_operator.Prelude.{
  ◌≡◌, ◌⊎◌, refl, true, false, none, some, [], ◌∷◌, ◌+◌, leb, arith,
}
use dynamic_prefix_operator.Prelude.Int.{pos}
use dynamic_prefix_operator.Net.{ipv6_prefix}
use dynamic_prefix_operator.Types.{
  Prefix, dhcpv6_pd, router_advertisement, Event, acquired, expired, Error, message, prefix_event,
}
use dynamic_prefix_operator.Policy.{Policy}
use dynamic_prefix_operator.Receiver.{Receiver}
use dynamic_prefix_operator.Dhcpv6.Message.{PdReceiver}
use dynamic_prefix_operator.Ra.{RaReceiver}
use dynamic_prefix_operator.Receivers.{dhcpv6_receiver, ra_receiver}
use dynamic_prefix_operator.Composite.{
  CompositeReceiver, primary, start, current_prefix, source, is_using_fallback,
  new_composite_receiver,
}
use dynamic_prefix_operator.Composite.Switch.{after_failures, after_failures-switched}
use dynamic_prefix_operator.Composite.Lifecycle.{
  Inv, Reach, here, next, starts, is_none, start-all_or_nothing, Reach-new-Inv,
}

abbrev policy : Policy
policy = record {
  require_global_unicast = true;
  min_prefix_length = pos 0;
  max_prefix_length = pos 0;
}

abbrev P : Receiver
P = dhcpv6_receiver

abbrev F : Receiver
F =
    ra_receiver (record { interface_by_name = none; listen = none; set_control_message = none })
      none

abbrev client : PdReceiver
client = record {
  requested_prefix_length = pos 56;
  policy = policy;
  current_prefix = none;
  lease = none;
  events = [];
  started = false;
  looping = false;
  claimed = true;
  health = record { err = none };
}

abbrev listener : RaReceiver
listener = record {
  ra_policy = record { policy = policy; trusted_routers = [] };
  current_prefix = none;
  events = [];
  started = false;
  looping = false;
  conn_open = false;
  verify_hop_limit = false;
  rejected = 0;
  last_reason = none;
  health = record { err = none };
}

abbrev fresh : CompositeReceiver P F
fresh = record {
  primary_receiver = client;
  fallback_receiver = listener;
  active = primary;
  events = [];
  started = false;
  ctx_live = false;
  merging = false;
  consecutive_failures = 0;
  max_failures = 3;
}

abbrev lost : Error
lost = message "no answer"

abbrev delegated : Prefix
delegated = record {
  network = ipv6_prefix 0x2001_0db8_abcd_1200_0000_0000_0000_0000 56;
  valid_lifetime = pos 3600;
  preferred_lifetime = pos 1800;
  source = dhcpv6_pd;
  received_at = pos 7;
}

abbrev advertised : Prefix
advertised = record {
  network = ipv6_prefix 0x2001_0db8_0001_0002_0000_0000_0000_0000 64;
  valid_lifetime = pos 3600;
  preferred_lifetime = pos 1800;
  source = router_advertisement;
  received_at = pos 8;
}

abbrev news : Event
news = prefix_event acquired (some delegated)

abbrev with_fallback : CompositeReceiver P F
with_fallback = record fresh {
  fallback_receiver = record listener { current_prefix = some advertised };
  consecutive_failures = 2;
}

abbrev gone : Event
gone = prefix_event expired none

-- Started, and with a prefix of each of the two since.
abbrev with_both : CompositeReceiver P F
with_both =
    let s = (start P F fresh).0 in
    record s {
      primary_receiver = record s.primary_receiver { current_prefix = some delegated };
      fallback_receiver = record s.fallback_receiver { current_prefix = some advertised };
    }

on_primary : with_both.active ≡ primary
unfolding start dynamic_prefix_operator.Dhcpv6.Message.start dynamic_prefix_operator.Ra.start
on_primary = refl

after_failures-switched_example :
    let d = after_failures P F with_both (lost ∷ lost ∷ lost ∷ []) in
    (is_using_fallback P F d ≡ leb with_both.max_failures (with_both.consecutive_failures + 3))
    × (current_prefix P F d ≡ current_prefix P F with_both)
    × (source P F d ≡ source P F with_both)
after_failures-switched_example =
    after_failures-switched P F lost (lost ∷ lost ∷ []) with_both on_primary

-- The fallback is in use, and the prefix of the primary is reported.
switched :
    (leb with_both.max_failures (with_both.consecutive_failures + 3) ≡ true)
    × (current_prefix P F with_both ≡ some delegated)
unfolding start dynamic_prefix_operator.Dhcpv6.Message.start dynamic_prefix_operator.Ra.start
    current_prefix
switched = (refl, refl)

fresh-Inv : Inv P F fresh
fresh-Inv = record {
  primary_runs = refl;
  fallback_runs = refl;
  merges = refl;
  context = refl;
  bounded = omega arith;
}

start-all_or_nothing_example :
    Inv P F (start P F fresh).0
    × ((false ≡ false) × ((start P F fresh).0.started ≡ is_none (start P F fresh).1)
        ⊎ (false ≡ true) × (start P F fresh ≡ (fresh, none)))
start-all_or_nothing_example = start-all_or_nothing P F fresh fresh-Inv

life :
    Reach P F
      (new_composite_receiver P F client listener)
      (start P F (new_composite_receiver P F client listener)).0
life = next here (starts (new_composite_receiver P F client listener))

Reach-new-Inv_example : Inv P F (start P F (new_composite_receiver P F client listener)).0
Reach-new-Inv_example =
    Reach-new-Inv P F client listener (start P F (new_composite_receiver P F client listener)).0
      refl refl life
