-- ===== src/Dhcpv6/Examples.antt =====
-- Runs of internal/prefix/dhcpv6pd_receiver.go against servers that grant, refuse and fall silent.
use dynamic_prefix_operator.Prelude.{◌≡◌, refl, true, false, none, some, [], ◌∷◌, ok, err, arith}
use dynamic_prefix_operator.Prelude.Int.{ℤ, pos, negsuc, leb_ℤ, ◌≤ℤ◌, ◌-ℤ◌, ◌+ℤ◌}
use dynamic_prefix_operator.Net.{
  ip6, ipv6_prefix, masked, prefix_from, is_loopback, is_multicast, is_unspecified,
  is_link_local_unicast,
}
use dynamic_prefix_operator.Types.{Error, message, wrapped, no_binding}
use dynamic_prefix_operator.Policy.{
  Policy, validate, validate_delegated_prefix, check_length, is_global_unicast, is_ula,
}
use dynamic_prefix_operator.Dhcpv6.Message.{
  OptIaPrefix, OptIaPd, ia_pd, Message, Lease, PdReceiver, no_binding_status, status_error,
  status_code_error, send_error,
}
use dynamic_prefix_operator.Dhcpv6.Reply.{
  lease_from_reply, matching_ia_pd, best_prefix, usable, or_else, network_of, lease_of, t1_of,
  t2_of, times_four, process_iapd_reply, settle,
}
use dynamic_prefix_operator.Dhcpv6.Granted.{default_t2-wraps}
use dynamic_prefix_operator.Dhcpv6.Exchange.{
  Network, open_client, ask, renew_answer, rebind_answer, conclude, renew_prefix, rebind_prefix,
}
use dynamic_prefix_operator.Dhcpv6.Loop.{Round, LoopState, run, initial}
use dynamic_prefix_operator.Dhcpv6.Loop.Held.{Held, run-initial-Held}

abbrev policy : Policy
policy = record {
  require_global_unicast = true;
  min_prefix_length = pos 0;
  max_prefix_length = pos 0;
}

-- 2001:db8:abcd:1200::/56 for an hour, with T1 and T2 left to the client.
abbrev offer : OptIaPrefix
offer = record {
  preferred_lifetime = pos 1800_000_000_000;
  valid_lifetime = pos 3600_000_000_000;
  prefix = some (record {
    addr = some (record { kind = ip6 ""; value = 0x2001_0db8_abcd_1200_0000_0000_0000_0000 });
    ones = 56;
    mask_bits = 128;
  });
}

abbrev association : OptIaPd
association = record { iaid = 2; t1 = pos 0; t2 = pos 0; status = none; prefixes = offer ∷ [] }

abbrev granting : Message
granting = record { status = none; ia_options = ia_pd association ∷ []; server_id = some 9 }

abbrev lease : Lease
lease = record {
  iaid = 2;
  prefix = ipv6_prefix 0x2001_0db8_abcd_1200_0000_0000_0000_0000 56;
  t1 = pos 1800_000_000_000;
  t2 = pos 2880_000_000_000;
  valid_lifetime = pos 3600_000_000_000;
  preferred_lifetime = pos 1800_000_000_000;
  received_at = pos 7;
  server_id = 9;
}

granted_runs : lease_from_reply policy granting 2 9 (pos 7) ≡ ok lease
unfolding lease_from_reply network_of lease_of t1_of t2_of times_four ◌+ℤ◌ matching_ia_pd
    best_prefix usable or_else status_error masked prefix_from validate validate_delegated_prefix
    check_length is_global_unicast is_ula is_loopback is_multicast is_unspecified
    is_link_local_unicast
granted_runs = refl

-- An infinite lifetime, as the message carries it.
abbrev infinite : OptIaPrefix
infinite = record offer { valid_lifetime = pos 4294967295_000_000_000 }

default_t2-wraps_example : t2_of association infinite ≤ℤ negsuc 0
default_t2-wraps_example =
    default_t2-wraps association infinite 4294967295_000_000_000 refl refl (omega arith)
      (omega arith)

abbrev draw : ℤ → ℤ
draw n = pos 0

-- A network whose every answer is the message.
abbrev answering : Message → Network
answering m = record {
  interface_index = ok (pos 2);
  dial = ok tt;
  new_message = λ t. ok tt;
  send_and_read = λ r. ok m;
  now = pos 9;
}

-- A network where nobody answers.
abbrev silent : Network
silent = record (answering granting) { send_and_read = λ r. err (message "no answer") }

-- A server that has forgotten the lease.
abbrev forgetful : Network
forgetful = answering (record {
  status = some (record { code = no_binding_status; text = "unknown" });
  ia_options = [];
  server_id = some 9;
})

abbrev fresh : PdReceiver
fresh = record {
  requested_prefix_length = pos 56;
  policy = policy;
  current_prefix = none;
  lease = none;
  events = [];
  started = true;
  looping = true;
  claimed = true;
  health = record { err = none };
}

abbrev round_with : Network → Network → ℤ → Round
round_with w rebinding now = record {
  stopped = false;
  now = now;
  network = w;
  rebind_network = rebinding;
  draw = draw;
  wait_cut = λ d. false;
}

run-initial-Held_example :
    Held
      (run
        (round_with silent silent (pos 2000)
          ∷ round_with (answering granting) silent (pos 3000)
          ∷ [])
        (initial (pos 5) (pos 300) (answering granting) fresh)).receiver
run-initial-Held_example =
    run-initial-Held (pos 5) (pos 300) (answering granting)
      (round_with silent silent (pos 2000) ∷ round_with (answering granting) silent (pos 3000) ∷ [])
      fresh refl refl refl

abbrev holding : LoopState
holding = record {
  receiver = record fresh { lease = some lease };
  backoff = record { min = pos 5; max = pos 300; cur = pos 5 };
}

abbrev no_answer : Error
no_answer = wrapped "failed to receive REPLY for RENEW" (message "no answer")

silent_renewal : (renew_prefix silent holding.receiver).1 ≡ some no_answer
unfolding renew_prefix conclude renew_answer open_client ask
silent_renewal = refl

abbrev forgotten : Error
forgotten = wrapped "REPLY was refused" (wrapped "unknown" no_binding)

forgotten_renewal : (renew_prefix forgetful holding.receiver).1 ≡ some forgotten
unfolding renew_prefix conclude renew_answer open_client ask process_iapd_reply settle
    lease_from_reply status_error status_code_error
forgotten_renewal = refl

past_t1 : leb_ℤ lease.t1 (pos 2000_000_000_000 -ℤ lease.received_at) ≡ true
unfolding ◌-ℤ◌
past_t1 = refl

before_t2 : leb_ℤ lease.t2 (pos 2000_000_000_000 -ℤ lease.received_at) ≡ false
unfolding ◌-ℤ◌
before_t2 = refl

past_t1_late : leb_ℤ lease.t1 (pos 3000_000_000_000 -ℤ lease.received_at) ≡ true
unfolding ◌-ℤ◌
past_t1_late = refl

past_t2 : leb_ℤ lease.t2 (pos 3000_000_000_000 -ℤ lease.received_at) ≡ true
unfolding ◌-ℤ◌
past_t2 = refl

abbrev no_rebind : Error
no_rebind = wrapped "failed to receive REPLY for REBIND" (message "no answer")

silent_rebind :
    (rebind_prefix silent
      (send_error (wrapped "prefix renewal failed" no_answer) holding.receiver)).1
    ≡ some no_rebind
unfolding rebind_prefix conclude rebind_answer open_client ask send_error
silent_rebind = refl
