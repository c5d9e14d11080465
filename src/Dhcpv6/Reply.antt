-- ===== src/Dhcpv6/Reply.antt =====
-- `processIAPDReply` of dhcpv6pd_receiver.go: from a REPLY to a lease.
use dynamic_prefix_operator.Prelude.{
  ℕ, Bool, true, false, not, ◌&&◌, ◌||◌, Option, none, some, List, [], ◌∷◌, ◌==◌, if◌then◌else◌,
  Result, ok, err, ◌>>=◌, ◌>>◌, wrap_err, guard,
}
use dynamic_prefix_operator.Prelude.Int.{ℤ, pos, leb_ℤ, ltb_ℤ, ◌+ℤ◌, wrap64, quot_ℤ}
use dynamic_prefix_operator.Net.{NetPrefix, prefix_from, masked}
use dynamic_prefix_operator.Types.{
  Prefix, dhcpv6_pd, Error, message, wrapped, record_success, event_type,
}
use dynamic_prefix_operator.Policy.{Policy, validate}
use dynamic_prefix_operator.Dhcpv6.Message.{
  IpNet, OptIaPrefix, OptIaPd, IaOption, ia_pd, generic, Message, Lease, PdReceiver, send_event,
  status_error,
}

abbrev pub fail_if {ℓ} : {E : Type ℓ} → Option E → Result E (Unit {0})
fail_if none = ok tt
fail_if (some e) = err e

abbrev pub or_fail {ℓ κ} : {E : Type ℓ} {A : Type κ} → Option A → E → Result E A
or_fail none e = err e
or_fail (some a) e = ok a

abbrev is_empty {ℓ} : {A : Type ℓ} → List A → Bool
is_empty [] = true
is_empty (x ∷ xs) = false

-- The loop over the options: the first decoded IA_PD with our IAID.
unfoldable pub matching_ia_pd : ℕ → List IaOption → Option OptIaPd
matching_ia_pd iaid [] = none
matching_ia_pd iaid (generic ∷ os) = matching_ia_pd iaid os
matching_ia_pd iaid (ia_pd pd ∷ os) = if pd.iaid == iaid then some pd else matching_ia_pd iaid os

-- A candidate: the option and its prefix, which is not nil.
unfoldable pub usable : OptIaPrefix → Option IpNet → Option (OptIaPrefix × IpNet)
usable p none = none
usable p (some n) = if ltb_ℤ (pos 0) p.valid_lifetime then some (p, n) else none

unfoldable pub or_else {ℓ} : {A : Type ℓ} → Option A → Option A → Option A
or_else none later = later
or_else (some a) later = some a

unfoldable pub best_prefix : List OptIaPrefix → Option (OptIaPrefix × IpNet)
unfolding usable or_else
best_prefix [] = none
best_prefix (p ∷ ps) = or_else (usable p p.prefix) (best_prefix ps)

-- The network of the chosen option, checked and masked.
unfoldable pub network_of : IpNet → Result Error NetPrefix
network_of n = do
  addr ← or_fail n.addr (message "invalid prefix address")
  if (not (n.mask_bits == 128) || n.ones == 0)
      then err (message "invalid prefix length in IA_PD")
      else ok (masked (prefix_from addr (pos n.ones)))

-- T1 and T2, defaulted to 50% and 80% of the valid lifetime, in int64.
unfoldable pub t1_of : OptIaPd → OptIaPrefix → ℤ
t1_of pd p =
    if (leb_ℤ pd.t1 (pos 0) && leb_ℤ (pos 0) pd.t1) then quot_ℤ p.valid_lifetime 2 else pd.t1

unfoldable pub times_four : ℤ → ℤ
unfolding ◌+ℤ◌
times_four d = wrap64 (d +ℤ d +ℤ (d +ℤ d))

unfoldable pub t2_of : OptIaPd → OptIaPrefix → ℤ
unfolding times_four
t2_of pd p =
    if (leb_ℤ pd.t2 (pos 0) && leb_ℤ (pos 0) pd.t2)
    then quot_ℤ (times_four p.valid_lifetime) 5
    else pd.t2

unfoldable pub lease_of : OptIaPd → OptIaPrefix → NetPrefix → ℕ → ℕ → ℤ → Lease
lease_of pd p network iaid server now = record {
  iaid = iaid;
  prefix = network;
  t1 = t1_of pd p;
  t2 = t2_of pd p;
  valid_lifetime = p.valid_lifetime;
  preferred_lifetime = p.preferred_lifetime;
  received_at = now;
  server_id = server;
}

-- Everything up to the lock: the lease that the reply grants.
unfoldable pub lease_from_reply : Policy → Message → ℕ → ℕ → ℤ → Result Error Lease
unfolding network_of lease_of
lease_from_reply policy reply iaid server now = do
  wrap_err (wrapped "REPLY was refused") (fail_if (status_error reply.status))
  pd ←
      or_fail (matching_ia_pd iaid reply.ia_options)
        (message "REPLY did not contain matching IA_PD")
  wrap_err (wrapped "IA_PD was refused") (fail_if (status_error pd.status))
  guard (not (is_empty pd.prefixes)) (message "IA_PD did not contain any prefixes")
  best ← or_fail (best_prefix pd.prefixes) (message "no valid prefix in IA_PD")
  network ← network_of best.1
  wrap_err (λ e. message "rejecting delegated prefix from IA_PD") (validate policy network)
  ok (lease_of pd best.0 network iaid server now)

unfoldable pub prefix_of_lease : Lease → Prefix
prefix_of_lease l = record {
  network = l.prefix;
  valid_lifetime = l.valid_lifetime;
  preferred_lifetime = l.preferred_lifetime;
  source = dhcpv6_pd;
  received_at = l.received_at;
}

-- What the receiver does with a new lease.
unfoldable pub install : Lease → PdReceiver → PdReceiver
unfolding prefix_of_lease send_event
install l r =
    send_event (event_type r.current_prefix l.prefix) (some (prefix_of_lease l)) (record r {
      current_prefix = some (prefix_of_lease l);
      lease = some l;
      health = record_success r.health;
    })

unfoldable pub settle : Result Error Lease → PdReceiver → PdReceiver × Option Error
unfolding install
settle (err e) r = (r, some e)
settle (ok l) r = (install l r, none)

unfoldable pub process_iapd_reply : Message → ℕ → ℕ → ℤ → PdReceiver → PdReceiver × Option Error
unfolding settle
process_iapd_reply reply iaid server now r =
    settle (lease_from_reply r.policy reply iaid server now) r
