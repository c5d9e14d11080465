-- ===== src/Dhcpv6/Loop.antt =====
-- `runLoop` of dhcpv6pd_receiver.go: one iteration as a step, over what the clock, the network and
-- `Stop` do in it.
pub mod Held
pub mod GivesUp
use dynamic_prefix_operator.Prelude.{
  ℕ, ◌≡◌, Bool, true, false, Option, none, some, List, [], ◌∷◌, if◌then◌else◌,
}
use dynamic_prefix_operator.Prelude.Int.{ℤ, pos, leb_ℤ, ltb_ℤ, ◌-ℤ◌}
use dynamic_prefix_operator.Types.{Error, wrapped, is_no_binding}
use dynamic_prefix_operator.Dhcpv6.Message.{Lease, PdReceiver, send_error, drop_lease}
use dynamic_prefix_operator.Dhcpv6.Backoff.{
  AcquireBackoff, new_acquire_backoff, backoff_failed, backoff_succeeded, backoff_wait,
}
use dynamic_prefix_operator.Dhcpv6.Exchange.{Network, acquire_prefix, renew_prefix, rebind_prefix}

-- One iteration: whether the receiver is found stopped at its head, the clock, the network as the
-- acquisition or renewal and then the rebind meet it, and whether a wait of some length is cut short
-- by a stop.
pub record Round : Type 0 where
  pub stopped : Bool
  pub now : ℤ
  pub network : Network
  pub rebind_network : Network
  pub draw : ℤ → ℤ
  pub wait_cut : ℤ → Bool

pub record LoopState : Type 0 where
  pub receiver : PdReceiver
  pub backoff : AcquireBackoff

pub data Outcome : Type 0 where
  go_on : LoopState → Outcome
  exit : LoopState → Outcome

abbrev renew_retry_interval : ℤ
renew_retry_interval = pos 30_000_000_000

abbrev minute : ℤ
minute = pos 60_000_000_000

-- What follows an acquisition: an error is reported and backs off.
after_acquire : AcquireBackoff → PdReceiver × Option Error → LoopState
after_acquire b (r, none) = record { receiver = r; backoff = backoff_succeeded b }
after_acquire b (r, some e) = record {
  receiver = send_error (wrapped "prefix acquisition failed" e) r;
  backoff = backoff_failed b;
}

without_lease : Round → LoopState → Outcome
unfolding after_acquire
without_lease round s =
    if round.wait_cut (backoff_wait s.backoff round.draw)
    then exit s
    else go_on (after_acquire s.backoff (acquire_prefix round.network s.receiver))

after_rebind : PdReceiver × Option Error → PdReceiver
after_rebind (r, none) = r
after_rebind (r, some e) = drop_lease (send_error (wrapped "prefix rebind failed" e) r)

-- A renewal that failed with `e`, past T2 or not.
renew_failed : Round → Bool → Error → LoopState → Outcome
unfolding after_rebind
renew_failed round past_t2 e s =
    let reported = record s {
      receiver = send_error (wrapped "prefix renewal failed" e) s.receiver;
    } in
    if is_no_binding e
    then go_on (record s { receiver = drop_lease reported.receiver })
    else if past_t2
    then go_on (record s {
      receiver = after_rebind (rebind_prefix round.rebind_network reported.receiver);
    })
    else if round.wait_cut renew_retry_interval
    then exit reported
    else go_on reported

after_renew : Round → Bool → AcquireBackoff → PdReceiver × Option Error → Outcome
unfolding renew_failed
after_renew round past_t2 b (r, none) = go_on (record { receiver = r; backoff = b })
after_renew round past_t2 b (r, some e) =
    renew_failed round past_t2 e (record { receiver = r; backoff = b })

with_lease : Round → Lease → LoopState → Outcome
unfolding after_renew
with_lease round l s =
    let elapsed = round.now -ℤ l.received_at in
    if leb_ℤ l.t1 elapsed
    then after_renew round (leb_ℤ l.t2 elapsed) s.backoff (renew_prefix round.network s.receiver)
    else (let sleep = l.t1 -ℤ elapsed in
        if round.wait_cut (if ltb_ℤ minute sleep then minute else sleep) then exit s else go_on s)

by_lease : Round → Option Lease → LoopState → Outcome
unfolding without_lease with_lease
by_lease round none s = without_lease round s
by_lease round (some l) s = with_lease round l s

unfoldable pub iterate : Round → LoopState → Outcome
unfolding by_lease
iterate round s = if round.stopped then exit s else by_lease round s.receiver.lease s

initial_of : AcquireBackoff → PdReceiver × Option Error → LoopState
initial_of b (r, none) = record { receiver = r; backoff = b }
initial_of b (r, some e) = record {
  receiver = send_error (wrapped "initial prefix acquisition failed" e) r;
  backoff = backoff_failed b;
}

-- The first acquisition, before the loop, over the bounds of the pace.
unfoldable pub initial : ℤ → ℤ → Network → PdReceiver → LoopState
unfolding initial_of
initial lo hi w r = initial_of (new_acquire_backoff lo hi) (acquire_prefix w r)

abbrev pub continue : (LoopState → LoopState) → Outcome → LoopState
continue rest (go_on s) = rest s
continue rest (exit s) = s

-- The iterations over what happens in each; an exit ends them.
pub run : List Round → LoopState → LoopState
run [] s = s
run (round ∷ rounds) s = continue (run rounds) (iterate round s)
