-- ===== src/Dhcpv6/Loop/GivesUp.antt =====
-- When the loop of dhcpv6pd_receiver.go gives a lease up, and when it keeps it.
use dynamic_prefix_operator.Prelude.{◌≡◌, refl, Bool, true, false, none, some, Result, arith}
use dynamic_prefix_operator.Prelude.Int.{ℤ, leb_ℤ, ◌-ℤ◌}
use dynamic_prefix_operator.Types.{Error, wrapped, is_no_binding}
use dynamic_prefix_operator.Dhcpv6.Message.{Lease, PdReceiver, send_error, drop_lease}
use dynamic_prefix_operator.Dhcpv6.Reply.{process_iapd_reply}
use dynamic_prefix_operator.Dhcpv6.Exchange.{
  Answer, conclude, Network, renew_prefix, rebind_prefix, renew_answer,
}
use dynamic_prefix_operator.Dhcpv6.Loop.{
  Round, LoopState, iterate, after_renew, with_lease, by_lease, renew_failed, after_rebind,
}
use dynamic_prefix_operator.Dhcpv6.Loop.Held.{state_of}

-- An exchange that fails, for whatever reason, leaves the receiver as it was.
pub conclude_error_unchanged :
    (now : ℤ) (a : Result Error Answer) (r : PdReceiver) {e : Error}
    → (conclude now a r).1 ≡ some e
    → (conclude now a r).0 ≡ r
unfolding conclude process_iapd_reply
conclude_error_unchanged now a r h = ground arith

renew_error_unchanged :
    (w : Network) (r : PdReceiver) {e : Error}
    → (renew_prefix w r).1 ≡ some e
    → (renew_prefix w r).0 ≡ r
unfolding renew_prefix
renew_error_unchanged w r h = conclude_error_unchanged w.now (renew_answer w r.lease) r h

drop_lease_gone :
    (r : PdReceiver) → ((drop_lease r).lease ≡ none) × ((drop_lease r).current_prefix ≡ none)
unfolding drop_lease
drop_lease_gone r = (refl, refl)

send_error_keeps :
    (e : Error) (r : PdReceiver)
    → ((send_error e r).lease ≡ r.lease) × ((send_error e r).current_prefix ≡ r.current_prefix)
unfolding send_error
send_error_keeps e r = (refl, refl)

module _ (round : Round) (s : LoopState) (l : Lease) (e : Error) (running : round.stopped ≡ false)
    (holds : s.receiver.lease ≡ some l) (due : leb_ℤ l.t1 (round.now -ℤ l.received_at) ≡ true)
    (failed : (renew_prefix round.network s.receiver).1 ≡ some e) where
  past_t2 : Bool
  past_t2 = leb_ℤ l.t2 (round.now -ℤ l.received_at)

  -- The round comes down to what follows a failed renewal.
  failed_round : iterate round s ≡ renew_failed round past_t2 e s
  unfolding iterate past_t2 after_renew with_lease by_lease
  failed_round = ground (arith, renew_error_unchanged round.network s.receiver {e = e})

  -- A renewal refused with NoBinding gives up the lease and its prefix at once, before T2 too.
  pub no_binding-gives_up :
      is_no_binding e ≡ true
      → ((state_of (iterate round s)).receiver.lease ≡ none)
        × ((state_of (iterate round s)).receiver.current_prefix ≡ none)
  unfolding renew_failed
  no_binding-gives_up h =
      rw failed_round (
        ground (arith, drop_lease_gone (send_error (wrapped "prefix renewal failed" e) s.receiver)))

  -- Any other failure of a renewal before T2 keeps the lease and its prefix.
  pub before_t2-keeps :
      is_no_binding e ≡ false
      → leb_ℤ l.t2 (round.now -ℤ l.received_at) ≡ false
      → ((state_of (iterate round s)).receiver.lease ≡ some l)
        × ((state_of (iterate round s)).receiver.current_prefix ≡ s.receiver.current_prefix)
  unfolding renew_failed past_t2
  before_t2-keeps h early =
      rw failed_round
        (ground (arith, send_error_keeps (wrapped "prefix renewal failed" e) s.receiver))

  -- Past T2 a failed renewal is followed by a rebind, and a rebind that fails too gives up the lease
  -- and its prefix.
  pub failed_rebind-gives_up :
      {x : Error}
      → is_no_binding e ≡ false
      → leb_ℤ l.t2 (round.now -ℤ l.received_at) ≡ true
      → (rebind_prefix round.rebind_network
          (send_error (wrapped "prefix renewal failed" e) s.receiver)).1
        ≡ some x
      → ((state_of (iterate round s)).receiver.lease ≡ none)
        × ((state_of (iterate round s)).receiver.current_prefix ≡ none)
  unfolding renew_failed past_t2 after_rebind
  failed_rebind-gives_up {x} h late refused = rw failed_round (
      ground (
        arith,
        drop_lease_gone (
            send_error (wrapped "prefix rebind failed" x)
              (rebind_prefix round.rebind_network
                (send_error (wrapped "prefix renewal failed" e) s.receiver)).0),
      ))
