-- ===== src/Ra/Receive.antt =====
-- Which advertisements internal/prefix/ra_receiver.go processes, and when it gives its prefix up.
use dynamic_prefix_operator.Prelude.{
  ℕ, ◌+◌, ◌%◌, ◌^◌, ◌≡◌, ◌↔◌, ◌≢◌, ◌⊎◌, Bool, true, false, Option, none, some, List, arith,
  if◌then◌else◌,
}
use dynamic_prefix_operator.Prelude.Int.{ℤ, pos, ltb_ℤ, ◌+ℤ◌}
use dynamic_prefix_operator.Net.{Addr, NetPrefix, is_link_local_unicast}
use dynamic_prefix_operator.Types.{Prefix, record_failure, send, prefix_event, expired, message}
use dynamic_prefix_operator.Policy.{trusts}
use dynamic_prefix_operator.Ra.{
  RaReceiver, RaOption, reject_router_advertisement, receive, advertisement, expire_lease_if_stale,
  update_prefix, record_rejection,
}

-- An advertisement is processed exactly when its source is link-local and trusted and, where the
-- socket reports hop limits, its hop limit is 255.
pub reject-none_iff :
    (r : RaReceiver) (source : Addr) (hop_limit : Option ℕ) (verify : Bool)
    → (reject_router_advertisement r source hop_limit verify ≡ none) ↔ (
        (is_link_local_unicast source ≡ true)
        × (trusts r.ra_policy source ≡ true)
        × ((verify ≡ false) ⊎ (hop_limit ≡ some 255)))
unfolding reject_router_advertisement
reject-none_iff r source hop_limit verify = (λ e. ground arith, λ (a, b, c). ground arith)

-- An advertisement that fails one of those checks, whatever it carries, leaves the prefix, the
-- events waiting and the health as they are, and is counted.
pub receive-rejected :
    (now : ℤ) (source : Addr) (hop_limit : Option ℕ) (os : List RaOption) (r : RaReceiver)
    → (is_link_local_unicast source ≡ false)
      ⊎ (trusts r.ra_policy source ≡ false)
      ⊎ ((r.verify_hop_limit ≡ true) × (hop_limit ≢ some 255))
    → let s = receive now (advertisement source hop_limit os) r in
      (s.current_prefix ≡ r.current_prefix)
      × (s.events ≡ r.events)
      × (s.health ≡ r.health)
      × (s.rejected ≡ (r.rejected + 1) % 2 ^ 64)
unfolding receive record_rejection reject_router_advertisement
receive-rejected now source hop_limit os r h = ground arith

-- What a receiver is once its prefix is given up: without it, in failed health, one event more.
abbrev pub given_up : RaReceiver → RaReceiver
given_up r = record r {
  current_prefix = none;
  health = record_failure (message "no Router Advertisement renewed the prefix") r.health;
  events = send (prefix_event expired none) r.events;
}

-- A prefix with a positive lifetime is given up, with an expired event and a failed health, exactly
-- when that lifetime has passed since it was received; until then nothing changes.
pub expire_lease_lem :
    (now : ℤ) (r : RaReceiver) (p : Prefix)
    → r.current_prefix ≡ some p
    → ltb_ℤ (pos 0) p.valid_lifetime ≡ true
    → expire_lease_if_stale now r
      ≡ (if ltb_ℤ (p.received_at +ℤ p.valid_lifetime) now then given_up r else r)
unfolding expire_lease_if_stale
expire_lease_lem now r p held positive = ground arith

-- An update puts the expiry off: until its lifetime has passed from then on, nothing is given up.
pub expire-update :
    (now later : ℤ) (network : NetPrefix) (valid preferred : ℤ) (r : RaReceiver)
    → ltb_ℤ (now +ℤ valid) later ≡ false
    → let s = update_prefix now network valid preferred r in expire_lease_if_stale later s ≡ s
unfolding expire_lease_if_stale update_prefix
expire-update now later network valid preferred r h = ground arith
