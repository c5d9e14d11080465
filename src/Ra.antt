-- ===== src/Ra.antt =====
-- internal/prefix/ra_receiver.go: prefixes observed in Router Advertisements. Sockets, clocks and what
-- arrives stand in the arguments; logging and the two observers are left out.
pub mod Select
pub mod Receive
pub mod Guard
mod Examples
use dynamic_prefix_operator.Prelude.{
  ℕ, suc, ◌+◌, ◌%◌, ◌^◌, ◌≡◌, Bool, true, false, not, ◌&&◌, Option, none, some, List, [], ◌∷◌, ltb,
  ◌==◌, if◌then◌else◌, Result, ok, err, is_ok,
}
use dynamic_prefix_operator.Prelude.Int.{ℤ, pos, leb_ℤ, ltb_ℤ, ◌+ℤ◌}
use dynamic_prefix_operator.Net.{NetPrefix, Addr, prefix_from, masked, is_link_local_unicast}
use dynamic_prefix_operator.Types.{
  Prefix, router_advertisement, Event, EventType, expired, Error, message, wrapped, HealthTracker,
  record_failure, record_success, event_type, send, prefix_event, failed_event,
}
use dynamic_prefix_operator.Policy.{RaPolicy, check_length, is_global_unicast, is_ula, trusts}

pub data RejectReason : Type 0 where
  source_not_link_local hop_limit_unreported forwarded untrusted_source : RejectReason
  prefix_length_out_of_bounds : RejectReason

pub record RaReceiver : Type 0 where
  pub ra_policy : RaPolicy
  pub current_prefix : Option Prefix
  pub events : List Event
  pub started : Bool
  pub looping : Bool
  pub conn_open : Bool
  pub verify_hop_limit : Bool
  pub rejected : ℕ
  pub last_reason : Option RejectReason
  pub health : HealthTracker

unfoldable pub new_ra_receiver : RaPolicy → RaReceiver
new_ra_receiver policy = record {
  ra_policy = policy;
  current_prefix = none;
  events = [];
  started = false;
  looping = false;
  conn_open = false;
  verify_hop_limit = false;
  rejected = 0;
  last_reason = none;
  health = record { err = none };
}

-- What `Start` meets: the interface, the listener, and whether the socket reports hop limits.
pub record StartEnv : Type 0 where
  pub interface_by_name : Option Error
  pub listen : Option Error
  pub set_control_message : Option Error

abbrev succeeded : Option Error → Bool
succeeded none = true
succeeded (some e) = false

unfoldable pub listen_on : StartEnv → Option Error → RaReceiver → RaReceiver × Option Error
listen_on env (some e) r = (r, some (wrapped "failed to create NDP listener" e))
listen_on env none r = (
  record r {
    verify_hop_limit = succeeded env.set_control_message;
    conn_open = true;
    started = true;
    looping = true;
  },
  none,
)

unfoldable pub start_on : StartEnv → Option Error → RaReceiver → RaReceiver × Option Error
unfolding listen_on
start_on env (some e) r = (r, some (wrapped "failed to get interface" e))
start_on env none r = listen_on env env.listen r

unfoldable pub start : StartEnv → RaReceiver → RaReceiver × Option Error
unfolding start_on
start env r = if r.started then (r, none) else start_on env env.interface_by_name r

-- `Stop`; closing the socket may fail, with the loops ended all the same.
unfoldable pub stop : Option Error → RaReceiver → RaReceiver × Option Error
stop close r =
    if not r.started
    then (r, none)
    else if r.conn_open
    then (record r { started = false; looping = false; conn_open = false }, close)
    else (record r { started = false; looping = false }, none)

-- The counter is a uint64.
unfoldable pub record_rejection : RejectReason → RaReceiver → RaReceiver
record_rejection reason r = record r {
  last_reason = some reason;
  rejected = (r.rejected + 1) % 2 ^ 64;
}

-- `none` means that the advertisement may be processed. `hop_limit` is none where the socket did not
-- report it.
unfoldable pub reject_router_advertisement :
    RaReceiver → Addr → Option ℕ → Bool → Option RejectReason
reject_router_advertisement r source hop_limit verify =
    if not (is_link_local_unicast source)
    then some source_not_link_local
    else if not (trusts r.ra_policy source)
    then some untrusted_source
    else if not verify
    then none
    else elim hop_limit [
      | none ↦ some hop_limit_unreported
      | some n ↦ if n == 255 then none else some forwarded
    ]

-- A Prefix Information option; the length is a uint8.
pub record PrefixInformation : Type 0 where
  pub prefix : Addr
  pub prefix_length : ℕ
  pub on_link : Bool
  pub valid_lifetime : ℤ
  pub preferred_lifetime : ℤ

pub data RaOption : Type 0 where
  prefix_information : PrefixInformation → RaOption
  other_option : RaOption

-- The state of the loop over the options: the receiver, whose counter moves, and the best so far.
pub record Scan : Type 0 where
  pub receiver : RaReceiver
  pub best : Option PrefixInformation

abbrev is_zero : ℤ → Bool
is_zero d = leb_ℤ d (pos 0) && leb_ℤ (pos 0) d

prefer_global : PrefixInformation → Option PrefixInformation → Option PrefixInformation
prefer_global pi none = some pi
prefer_global pi (some b) = if is_global_unicast b.prefix then some b else some pi

keep_first : PrefixInformation → Option PrefixInformation → Option PrefixInformation
keep_first pi none = some pi
keep_first pi (some b) = some b

unfoldable pub consider : PrefixInformation → Scan → Scan
unfolding prefer_global keep_first
consider pi s =
    if not pi.on_link
    then s
    else if is_zero pi.valid_lifetime
    then s
    else if not (is_ok (check_length s.receiver.ra_policy.policy (pos pi.prefix_length)))
    then record s { receiver = record_rejection prefix_length_out_of_bounds s.receiver }
    else if is_global_unicast pi.prefix
    then record s { best = prefer_global pi s.best }
    else if is_ula pi.prefix
    then (if s.receiver.ra_policy.policy.require_global_unicast
        then s
        else record s { best = keep_first pi s.best })
    else s

unfoldable pub scan : List RaOption → Scan → Scan
scan [] s = s
scan (other_option ∷ os) s = scan os s
scan (prefix_information pi ∷ os) s = scan os (consider pi s)

unfoldable pub update_prefix : ℤ → NetPrefix → ℤ → ℤ → RaReceiver → RaReceiver
update_prefix now network valid preferred r =
    let p : Prefix = record {
      network = network;
      valid_lifetime = valid;
      preferred_lifetime = preferred;
      source = router_advertisement;
      received_at = now;
    } in
    record r {
      current_prefix = some p;
      health = record_success r.health;
      events = send (prefix_event (event_type r.current_prefix network) (some p)) r.events;
    }

unfoldable pub adopt : ℤ → Option PrefixInformation → RaReceiver → RaReceiver
adopt now none r = r
adopt now (some pi) r =
    if ltb 128 pi.prefix_length
    then r
    else update_prefix now (masked (prefix_from pi.prefix (pos pi.prefix_length))) pi.valid_lifetime
        pi.preferred_lifetime r

unfoldable pub handle_router_advertisement : ℤ → List RaOption → RaReceiver → RaReceiver
unfolding adopt
handle_router_advertisement now os r =
    let s = scan os (record { receiver = r; best = none }) in adopt now s.best s.receiver

unfoldable pub send_error : Error → RaReceiver → RaReceiver
send_error e r = record r {
  health = record_failure e r.health;
  events = send (failed_event e) r.events;
}

expire : ℤ → Option Prefix → RaReceiver → RaReceiver
unfolding ◌+ℤ◌
expire now none r = r
expire now (some p) r =
    if leb_ℤ p.valid_lifetime (pos 0)
    then r
    else if not (ltb_ℤ (p.received_at +ℤ p.valid_lifetime) now)
    then r
    else record r {
      current_prefix = none;
      health = record_failure (message "no Router Advertisement renewed the prefix") r.health;
      events = send (prefix_event expired none) r.events;
    }

unfoldable pub expire_lease_if_stale : ℤ → RaReceiver → RaReceiver
unfolding expire
expire_lease_if_stale now r = expire now r.current_prefix r

-- What one round of `receiveLoop` meets.
pub data Input : Type 0 where
  deadline_failed : Error → Input
  read_timeout : Input
  read_failed : Error → Input
  other_message : Input
  advertisement : Addr → Option ℕ → List RaOption → Input

-- An advertisement after the checks.
take_advertisement : ℤ → List RaOption → Option RejectReason → RaReceiver → RaReceiver
take_advertisement now os (some reason) r = record_rejection reason r
take_advertisement now os none r = handle_router_advertisement now os r

unfoldable pub receive : ℤ → Input → RaReceiver → RaReceiver
unfolding take_advertisement
receive now (deadline_failed e) r = send_error (wrapped "failed to set read deadline" e) r
receive now read_timeout r = r
receive now (read_failed e) r = send_error (wrapped "failed to read NDP message" e) r
receive now other_message r = r
receive now (advertisement source hop_limit os) r =
    take_advertisement now os (reject_router_advertisement r source hop_limit r.verify_hop_limit) r
