-- ===== src/Dhcpv6/Loop/Held.antt =====
-- What the loop of dhcpv6pd_receiver.go holds between its iterations, and when it gives it up.
use dynamic_prefix_operator.Prelude.{
  ℕ, ◌≤◌, ◌≡◌, Bool, Option, none, some, List, [], ◌∷◌, Result, ok, err, arith, length,
  Result-cases, inl, inr,
}
use dynamic_prefix_operator.Prelude.Int.{ℤ, leb_ℤ, ◌-ℤ◌}
use dynamic_prefix_operator.Types.{
  Prefix, Error, expired, capacity, send-le-capacity, wrapped, prefix_event, failed_event,
  event_type,
}
use dynamic_prefix_operator.Policy.{Policy, validate}
use dynamic_prefix_operator.Dhcpv6.Message.{Lease, Message, PdReceiver, send_error, drop_lease}
use dynamic_prefix_operator.Dhcpv6.Reply.{
  prefix_of_lease, process_iapd_reply, lease_from_reply, install,
}
use dynamic_prefix_operator.Dhcpv6.Granted.{lease_from_reply-Granted}
use dynamic_prefix_operator.Dhcpv6.Exchange.{
  Answer, conclude, Network, acquire_prefix, renew_prefix, rebind_prefix, renew_answer,
  rebind_answer, acquire_answer,
}
use dynamic_prefix_operator.Dhcpv6.Loop.{
  Round, LoopState, Outcome, go_on, exit, iterate, run, initial, after_acquire, after_rebind,
  renew_failed, after_renew, without_lease, with_lease, by_lease, continue, initial_of,
}
use dynamic_prefix_operator.Dhcpv6.Backoff.{AcquireBackoff, new_acquire_backoff}

abbrev pub held_prefix : Option Lease → Option Prefix
held_prefix none = none
held_prefix (some l) = some (prefix_of_lease l)

abbrev pub Accepted : Policy → Option Lease → Type 0
Accepted p none = Unit
Accepted p (some l) = validate p l.prefix ≡ ok tt

-- The prefix served is that of the lease held, the policy accepts it, and the channel is not
-- overfull.
pub record Held (r : PdReceiver) : Type 0 where
  pub served : r.current_prefix ≡ held_prefix r.lease
  pub accepted : Accepted r.policy r.lease
  pub bounded : length r.events ≤ capacity

install-Held :
    (l : Lease) (r : PdReceiver) → validate r.policy l.prefix ≡ ok tt → Held r → Held (install l r)
unfolding install prefix_of_lease
install-Held l r a v = ground (
  arith,
  send-le-capacity (prefix_event (event_type r.current_prefix l.prefix) (some (prefix_of_lease l)))
      r.events,
)

process-Held :
    (m : Message) (iaid server : ℕ) (now : ℤ) (r : PdReceiver)
    → Held r
    → Held (process_iapd_reply m iaid server now r).0
unfolding process_iapd_reply
process-Held m iaid server now r v =
    elim (Result-cases (lease_from_reply r.policy m iaid server now)) [
      | inl (l, e) ↦
          rw (e, process_iapd_reply)
            (install-Held l r (lease_from_reply-Granted r.policy m iaid server now l e).accepted v)
      | inr (x, e) ↦ rw (e, process_iapd_reply) v
    ]

conclude-Held :
    (now : ℤ) (a : Result Error Answer) (r : PdReceiver) → Held r → Held (conclude now a r).0
unfolding conclude
conclude-Held now (ok a) r v = process-Held a.reply a.iaid a.server now r v
conclude-Held now (err e) r v = v

send_error-Held : (e : Error) (r : PdReceiver) → Held r → Held (send_error e r)
unfolding send_error
send_error-Held e r v = ground (arith, send-le-capacity (failed_event e) r.events)

drop_lease-Held : (r : PdReceiver) → Held r → Held (drop_lease r)
unfolding drop_lease
drop_lease-Held r v = ground (arith, send-le-capacity (prefix_event expired none) r.events)

abbrev pub state_of : Outcome → LoopState
state_of (go_on s) = s
state_of (exit s) = s

acquire-Held :
    (s : LoopState) (x : PdReceiver × Option Error)
    → Held x.0
    → Held (after_acquire s.backoff x).receiver
unfolding after_acquire
acquire-Held s (r, none) v = v
acquire-Held s (r, some e) v = send_error-Held (wrapped "prefix acquisition failed" e) r v

rebind-Held : (x : PdReceiver × Option Error) → Held x.0 → Held (after_rebind x)
unfolding after_rebind
rebind-Held (r, none) v = v
rebind-Held (r, some e) v =
    drop_lease-Held (send_error (wrapped "prefix rebind failed" e) r)
      (send_error-Held (wrapped "prefix rebind failed" e) r v)

renew_failed-Held :
    (round : Round) (past : Bool) (e : Error) (s : LoopState)
    → Held s.receiver
    → Held (state_of (renew_failed round past e s)).receiver
unfolding renew_failed
renew_failed-Held round past e s v =
    let reported = send_error (wrapped "prefix renewal failed" e) s.receiver in
    let kept = send_error-Held (wrapped "prefix renewal failed" e) s.receiver v in
    let dropped = drop_lease-Held reported kept in
    let rebound = rebind-Held (rebind_prefix round.rebind_network reported) (
      unfold rebind_prefix in
      conclude-Held round.rebind_network.now (rebind_answer round.rebind_network reported.lease)
        reported kept) in
    ground arith

after_renew-Held :
    (round : Round) (past : Bool) (b : AcquireBackoff) (x : PdReceiver × Option Error)
    → Held x.0
    → Held (state_of (after_renew round past b x)).receiver
unfolding after_renew
after_renew-Held round past b (r, none) v = v
after_renew-Held round past b (r, some e) v =
    renew_failed-Held round past e (record { receiver = r; backoff = b }) v

without_lease-Held :
    (round : Round) (s : LoopState)
    → Held s.receiver
    → Held (state_of (without_lease round s)).receiver
unfolding without_lease
without_lease-Held round s v =
    let tried = acquire-Held s (acquire_prefix round.network s.receiver) (
      unfold acquire_prefix in
      conclude-Held round.network.now (acquire_answer round.network s.receiver) s.receiver v) in
    ground arith

with_lease-Held :
    (round : Round) (l : Lease) (s : LoopState)
    → Held s.receiver
    → Held (state_of (with_lease round l s)).receiver
unfolding with_lease
with_lease-Held round l s v =
    let renewed =
      after_renew-Held round (leb_ℤ l.t2 (round.now -ℤ l.received_at)) s.backoff
        (renew_prefix round.network s.receiver)
        (unfold renew_prefix in
          conclude-Held round.network.now (renew_answer round.network s.receiver.lease) s.receiver
            v) in
    ground arith

by_lease-Held :
    (round : Round) (l : Option Lease) (s : LoopState)
    → Held s.receiver
    → Held (state_of (by_lease round l s)).receiver
unfolding by_lease
by_lease-Held round none s v = without_lease-Held round s v
by_lease-Held round (some l) s v = with_lease-Held round l s v

iterate-Held :
    (round : Round) (s : LoopState) → Held s.receiver → Held (state_of (iterate round s)).receiver
unfolding iterate
iterate-Held round s v = let go = by_lease-Held round s.receiver.lease s v in ground arith

continue-Held :
    (rest : LoopState → LoopState) (o : Outcome)
    → ((s : LoopState) → Held s.receiver → Held (rest s).receiver)
    → Held (state_of o).receiver
    → Held (continue rest o).receiver
continue-Held rest (go_on s) h v = h s v
continue-Held rest (exit s) h v = v

run-Held : (rounds : List Round) (s : LoopState) → Held s.receiver → Held (run rounds s).receiver
unfolding run
run-Held [] s v = v
run-Held (round ∷ rounds) s v =
    continue-Held (run rounds) (iterate round s) (run-Held rounds) (iterate-Held round s v)

initial_of-Held :
    (b : AcquireBackoff) (x : PdReceiver × Option Error) → Held x.0 → Held (initial_of b x).receiver
unfolding initial_of
initial_of-Held b (r, none) v = v
initial_of-Held b (r, some e) v =
    send_error-Held (wrapped "initial prefix acquisition failed" e) r v

-- From a receiver that holds nothing, through the first acquisition and any iterations of the loop,
-- whatever the servers answer and whenever: the prefix served is that of the lease held, with its
-- lifetimes, the policy accepts it, and at most ten events wait.
pub run-initial-Held :
    (lo hi : ℤ) (w : Network) (rounds : List Round) (r : PdReceiver)
    → r.current_prefix ≡ none
    → r.lease ≡ none
    → r.events ≡ []
    → Held (run rounds (initial lo hi w r)).receiver
unfolding initial acquire_prefix
run-initial-Held lo hi w rounds r p l es = run-Held rounds (initial lo hi w r) (
    initial_of-Held (new_acquire_backoff lo hi) (acquire_prefix w r)
      (conclude-Held w.now (acquire_answer w r) r (ground arith)))
