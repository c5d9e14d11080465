-- ===== src/Receivers.antt =====
-- The DHCPv6-PD receiver of internal/prefix/dhcpv6pd_receiver.go and the Router Advertisement receiver
-- of internal/prefix/ra_receiver.go as implementations of the `Receiver` interface.
mod Examples
use dynamic_prefix_operator.Prelude.{
  ◌≡◌, Bool, true, false, Option, none, some, arith, refl, Option-cases, inl, inr,
}
use dynamic_prefix_operator.Types.{Error, Source, dhcpv6_pd, router_advertisement}
use dynamic_prefix_operator.Receiver.{Receiver}
use dynamic_prefix_operator.Dhcpv6.Message.{PdReceiver}
use dynamic_prefix_operator.Dhcpv6.Message
use dynamic_prefix_operator.Ra.{RaReceiver, StartEnv, start_on, listen_on}
use dynamic_prefix_operator.Ra

pub pd_start_failed :
    (r : PdReceiver) (e : Error)
    → (Message.start r).1 ≡ some e
    → (Message.start r).0.started ≡ r.started
unfolding Message.start
pd_start_failed r e h = ground arith

pub pd_start_done :
    (r : PdReceiver) → (Message.start r).1 ≡ none → (Message.start r).0.started ≡ true
unfolding Message.start
pd_start_done r h = ground arith

pub pd_stop_done : (r : PdReceiver) → (Message.stop r).0.started ≡ false
unfolding Message.stop
pd_stop_done r = ground arith

abbrev pub dhcpv6_receiver : Receiver
dhcpv6_receiver = record {
  State = PdReceiver;
  start = Message.start;
  stop = Message.stop;
  current_prefix = λ r. r.current_prefix;
  source = λ r. dhcpv6_pd;
  last_error = λ r. r.health.err;
  running = λ r. r.started;
  start_failed = pd_start_failed;
  start_done = pd_start_done;
  stop_done = pd_stop_done;
}

pub ra_start_failed :
    (env : StartEnv) (r : RaReceiver) (e : Error)
    → (Ra.start env r).1 ≡ some e
    → (Ra.start env r).0.started ≡ r.started
unfolding Ra.start start_on listen_on
ra_start_failed env r e h = ground arith

pub ra_start_done :
    (env : StartEnv) (r : RaReceiver)
    → (Ra.start env r).1 ≡ none
    → (Ra.start env r).0.started ≡ true
unfolding Ra.start start_on listen_on
ra_start_done env r h = ground arith

pub ra_stop_done : (close : Option Error) (r : RaReceiver) → (Ra.stop close r).0.started ≡ false
unfolding Ra.stop
ra_stop_done close r = ground arith

-- What the receiver meets when it is started and stopped is given.
abbrev pub ra_receiver : StartEnv → Option Error → Receiver
ra_receiver env close = record {
  State = RaReceiver;
  start = Ra.start env;
  stop = Ra.stop close;
  current_prefix = λ r. r.current_prefix;
  source = λ r. router_advertisement;
  last_error = λ r. r.health.err;
  running = λ r. r.started;
  start_failed = ra_start_failed env;
  start_done = ra_start_done env;
  stop_done = ra_stop_done close;
}
