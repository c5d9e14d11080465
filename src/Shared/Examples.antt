-- ===== src/Shared/Examples.antt =====
-- Two subscriptions to one Router Advertisement receiver of internal/prefix/shared_ra_receiver.go.
use dynamic_prefix_operator.Prelude.{◌≡◌, refl, true, false, none, [], ◌∷◌}
use dynamic_prefix_operator.Prelude.Int.{pos}
use dynamic_prefix_operator.Receiver.{Receiver}
use dynamic_prefix_operator.Receivers.{ra_receiver}
use dynamic_prefix_operator.Shared.{
  SharedRaReceiverEntry, add_subscriber, remove_subscriber, unsubscribe, stop, subscribed,
}
use dynamic_prefix_operator.Shared.Subscribed.{
  Served, Reach, here, next, adds, leaves, Reach-Served, late_subscriber-stopped,
}

abbrev R : Receiver
R =
    ra_receiver (record { interface_by_name = none; listen = none; set_control_message = none })
      none

abbrev unused : SharedRaReceiverEntry R
unused = record {
  receiver = record {
    ra_policy = record {
      policy = record {
        require_global_unicast = true;
        min_prefix_length = pos 0;
        max_prefix_length = pos 0;
      };
      trusted_routers = [];
    };
    current_prefix = none;
    events = [];
    started = false;
    looping = false;
    conn_open = false;
    verify_hop_limit = false;
    rejected = 0;
    last_reason = none;
    health = record { err = none };
  };
  subscribers = [];
  started = false;
  fanning = false;
}

unused-Served : Served R unused
unused-Served = record { runs = refl; fans = refl; wanted = refl }

path : Reach R unused (unsubscribe R 1 (add_subscriber R 2 (add_subscriber R 1 unused).0).0).0
path =
    next (next (next here (adds 1 unused)) (adds 2 (add_subscriber R 1 unused).0))
      (leaves 1 (add_subscriber R 2 (add_subscriber R 1 unused).0).0)

Reach-Served_example :
    Served R (unsubscribe R 1 (add_subscriber R 2 (add_subscriber R 1 unused).0).0).0
Reach-Served_example = Reach-Served R unused-Served path

-- One subscription has started.
abbrev used : SharedRaReceiverEntry R
used = (add_subscriber R 1 unused).0

used-Served : Served R used
used-Served = Reach-Served R unused-Served (next here (adds 1 unused))

only_one : used.subscribers ≡ 1 ∷ []
unfolding add_subscriber dynamic_prefix_operator.Ra.start
only_one = refl

late_subscriber-stopped_example :
    let removed = remove_subscriber R 1 used in
    let joined = add_subscriber R 2 removed.0 in
    let stopped = (stop R joined.0).0 in
    (removed.1 ≡ true)
    × (joined.1 ≡ none)
    × (R.running joined.0.receiver ≡ true)
    × (subscribed 2 stopped.subscribers ≡ true)
    × (R.running stopped.receiver ≡ false)
    × ¬ Served R stopped
    × (add_subscriber R 2 stopped ≡ (stopped, none))
late_subscriber-stopped_example = late_subscriber-stopped R 1 2 used used-Served only_one refl
