-- ===== src/Types.antt =====
-- internal/prefix/types.go and health.go: what receivers hold and report. Times and durations are
-- integers, in nanoseconds.
use dynamic_prefix_operator.Prelude.{
  ℕ, ◌≤◌, Bool, true, false, String, Option, none, some, List, [], ◌∷◌, ◌++◌, length, ltb,
  if◌then◌else◌, arith, length-append,
}
use dynamic_prefix_operator.Prelude.Int.{ℤ}
use dynamic_prefix_operator.Net.{NetPrefix, net_prefix_eq}

pub data Source : Type 0 where
  dhcpv6_pd router_advertisement static unknown : Source

pub record Prefix : Type 0 where
  pub network : NetPrefix
  pub valid_lifetime : ℤ
  pub preferred_lifetime : ℤ
  pub source : Source
  pub received_at : ℤ

pub data EventType : Type 0 where
  acquired renewed changed expired failed : EventType

-- A Go error: a message, `errNoBinding`, or a message around another error (`%w`).
pub data Error : Type 0 where
  message : String → Error
  no_binding : Error
  wrapped : String → Error → Error

-- `errors.Is(err, errNoBinding)`
abbrev pub is_no_binding : Error → Bool
is_no_binding (message s) = false
is_no_binding no_binding = true
is_no_binding (wrapped s e) = is_no_binding e

pub record Event : Type 0 where
  pub type : EventType
  pub prefix : Option Prefix
  pub error : Option Error

abbrev pub prefix_event : EventType → Option Prefix → Event
prefix_event t p = record { type = t; prefix = p; error = none }

abbrev pub failed_event : Error → Event
failed_event e = record { type = failed; prefix = none; error = some e }

-- The buffered channels of events: a send that does not block drops the event when 10 wait.
abbrev pub capacity : ℕ
capacity = 10

unfoldable pub send : Event → List Event → List Event
send e waiting = if ltb (length waiting) capacity then waiting ++ e ∷ [] else waiting

pub send-le-capacity :
    (e : Event) (waiting : List Event)
    → length waiting ≤ capacity
    → length (send e waiting) ≤ capacity
unfolding send
send-le-capacity e waiting h = ground (arith, length-append waiting (e ∷ []))

-- Comparing a received network with the one held, as both receivers do.
unfoldable pub event_type : Option Prefix → NetPrefix → EventType
event_type none network = acquired
event_type (some old) network = if net_prefix_eq old.network network then renewed else changed

-- health.go: the last failure, or none after a success.
pub record HealthTracker : Type 0 where
  pub err : Option Error

abbrev pub record_failure : Error → HealthTracker → HealthTracker
record_failure e h = record { err = some e }

abbrev pub record_success : HealthTracker → HealthTracker
record_success h = record { err = none }
