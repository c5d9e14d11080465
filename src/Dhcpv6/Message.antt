-- ===== src/Dhcpv6/Message.antt =====
-- The decoded DHCPv6 messages of the dhcpv6 package, as far as dhcpv6pd_receiver.go reads them, the
-- requests it sends, and the state of the receiver.
use dynamic_prefix_operator.Prelude.{
  ℕ, Bool, true, false, String, Option, none, some, List, [], ◌||◌, ◌&&◌, if◌then◌else◌, Result, ok,
  err,
}
use dynamic_prefix_operator.Prelude.Int.{ℤ, pos, leb_ℤ, ltb_ℤ, pos_part}
use dynamic_prefix_operator.Net.{NetPrefix, Addr}
use dynamic_prefix_operator.Types.{
  Prefix, Event, EventType, expired, Error, message, no_binding, wrapped, HealthTracker,
  record_failure, send, prefix_event, failed_event,
}
use dynamic_prefix_operator.Policy.{Policy}

pub data StatusCode : Type 0 where
  success no_binding_status : StatusCode
  other_status : ℕ → StatusCode

pub record OptStatusCode : Type 0 where
  pub code : StatusCode
  pub text : String

-- `net.IPNet`: what `netip.AddrFromSlice` makes of the address, and the two results of `Mask.Size`.
pub record IpNet : Type 0 where
  pub addr : Option Addr
  pub ones : ℕ
  pub mask_bits : ℕ

pub record OptIaPrefix : Type 0 where
  pub preferred_lifetime : ℤ
  pub valid_lifetime : ℤ
  pub prefix : Option IpNet

pub record OptIaPd : Type 0 where
  pub iaid : ℕ
  pub t1 : ℤ
  pub t2 : ℤ
  pub status : Option OptStatusCode
  pub prefixes : List OptIaPrefix

-- An option of the code `OptionIAPD`: decoded, or a generic one.
pub data IaOption : Type 0 where
  ia_pd : OptIaPd → IaOption
  generic : IaOption

-- A received message; servers are named by their DUID.
pub record Message : Type 0 where
  pub status : Option OptStatusCode
  pub ia_options : List IaOption
  pub server_id : Option ℕ

pub data MessageType : Type 0 where
  solicit request renew rebind : MessageType

-- The IA_PD that a message carries: a hint of the length wanted, one the server offered, or the
-- lease that is held.
pub data AskedFor : Type 0 where
  hint : ℕ → ℤ → AskedFor
  offered : IaOption → AskedFor
  held : ℕ → NetPrefix → ℤ → ℤ → AskedFor

pub record Request : Type 0 where
  pub type : MessageType
  pub to_server : Option ℕ
  pub asked_for : AskedFor

pub record Lease : Type 0 where
  pub iaid : ℕ
  pub prefix : NetPrefix
  pub t1 : ℤ
  pub t2 : ℤ
  pub valid_lifetime : ℤ
  pub preferred_lifetime : ℤ
  pub received_at : ℤ
  pub server_id : ℕ

-- `claimed` is whether the receiver still holds its interface in the factory, and `looping` whether
-- a `runLoop` of a live run exists.
pub record PdReceiver : Type 0 where
  pub requested_prefix_length : ℤ
  pub policy : Policy
  pub current_prefix : Option Prefix
  pub lease : Option Lease
  pub events : List Event
  pub started : Bool
  pub looping : Bool
  pub claimed : Bool
  pub health : HealthTracker

-- A requested length of 0 means 56.
unfoldable pub new_dhcpv6_pd_receiver : ℤ → Policy → PdReceiver
new_dhcpv6_pd_receiver n policy = record {
  requested_prefix_length = if (leb_ℤ n (pos 0) && leb_ℤ (pos 0) n) then pos 56 else n;
  policy = policy;
  current_prefix = none;
  lease = none;
  events = [];
  started = false;
  looping = false;
  claimed = true;
  health = record { err = none };
}

-- `Start` spawns the loop of a fresh run.
unfoldable pub start : PdReceiver → PdReceiver × Option Error
start r = if r.started then (r, none) else (record r { started = true; looping = true }, none)

-- `Stop` hands the interface back, also from a receiver that never ran, and ends the loop.
unfoldable pub stop : PdReceiver → PdReceiver × Option Error
stop r =
    let released = record r { claimed = false } in
    if r.started
    then (record released { started = false; looping = false }, none)
    else (released, none)

unfoldable pub send_event : EventType → Option Prefix → PdReceiver → PdReceiver
send_event t p r = record r { events = send (prefix_event t p) r.events }

unfoldable pub send_error : Error → PdReceiver → PdReceiver
send_error e r = record r {
  health = record_failure e r.health;
  events = send (failed_event e) r.events;
}

-- The prefix goes with the lease.
unfoldable pub drop_lease : PdReceiver → PdReceiver
unfolding send_event
drop_lease r = send_event expired none (record r { current_prefix = none; lease = none })

-- An interface index as the four bytes of an IAID.
unfoldable pub iaid_for_interface : ℤ → Result Error ℕ
iaid_for_interface index =
    if (leb_ℤ index (pos 0) || ltb_ℤ (pos 0xffff_ffff) index)
    then err (message "interface index does not fit an IAID")
    else ok (pos_part index)

unfoldable pub status_code_error : StatusCode → String → Option Error
status_code_error success text = none
status_code_error no_binding_status text = some (wrapped text no_binding)
status_code_error (other_status n) text = some (message text)

-- No status, and a status of success, are no refusal.
unfoldable pub status_error : Option OptStatusCode → Option Error
unfolding status_code_error
status_error none = none
status_error (some s) = status_code_error s.code s.text
