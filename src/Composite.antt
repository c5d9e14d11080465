-- ===== src/Composite.antt =====
-- internal/prefix/composite_receiver.go: DHCPv6-PD as the primary receiver, Router Advertisements as
-- the fallback. Each handler runs under the receiver's lock, so it is one step.
pub mod Switch
pub mod Lifecycle
use dynamic_prefix_operator.Prelude.{
  ℕ, suc, ◌≡◌, Bool, true, false, not, Option, none, some, List, [], ◌∷◌, leb, if◌then◌else◌,
}
use dynamic_prefix_operator.Types.{
  Prefix, Source, Event, EventType, acquired, renewed, changed, expired, failed, Error, send,
  prefix_event,
}
use dynamic_prefix_operator.Receiver.{Receiver}

-- Which of the two `active` points to.
pub data Active : Type 0 where
  primary fallback : Active

module _ (P F : Receiver) where
  -- `ctx_live` is false once the context of the last run is cancelled, and `merging` is whether a
  -- `mergeEvents` goroutine of a live run exists.
  pub record CompositeReceiver : Type 0 where
    pub primary_receiver : P.State
    pub fallback_receiver : F.State
    pub active : Active
    pub events : List Event
    pub started : Bool
    pub ctx_live : Bool
    pub merging : Bool
    pub consecutive_failures : ℕ
    pub max_failures : ℕ

  unfoldable pub new_composite_receiver : P.State → F.State → CompositeReceiver
  new_composite_receiver p f = record {
    primary_receiver = p;
    fallback_receiver = f;
    active = primary;
    events = [];
    started = false;
    ctx_live = false;
    merging = false;
    consecutive_failures = 0;
    max_failures = 3;
  }

  start_fallback : CompositeReceiver → F.State × Option Error → CompositeReceiver × Option Error
  start_fallback c (f, some e) = (
    record c {
      fallback_receiver = f;
      primary_receiver = (P.stop c.primary_receiver).0;
      ctx_live = false;
    },
    some e,
  )
  start_fallback c (f, none) =
      (record c { fallback_receiver = f; started = true; merging = true }, none)

  start_primary : CompositeReceiver → P.State × Option Error → CompositeReceiver × Option Error
  unfolding start_fallback
  start_primary c (p, some e) = (record c { primary_receiver = p; ctx_live = false }, some e)
  start_primary c (p, none) =
      start_fallback (record c { primary_receiver = p; ctx_live = true })
        (F.start c.fallback_receiver)

  unfoldable pub start : CompositeReceiver → CompositeReceiver × Option Error
  unfolding start_primary
  start c = if c.started then (c, none) else start_primary c (P.start c.primary_receiver)

  -- The primary's error in preference to the fallback's.
  first_error : Option Error → Option Error → Option Error
  first_error (some e) f = some e
  first_error none f = f

  unfoldable pub stop : CompositeReceiver → CompositeReceiver × Option Error
  unfolding first_error
  stop c =
      let stopped = record c {
        primary_receiver = (P.stop c.primary_receiver).0;
        fallback_receiver = (F.stop c.fallback_receiver).0;
      } in
      if not c.started then (stopped, none) else (
        record stopped { started = false; ctx_live = false; merging = false },
        first_error (P.stop c.primary_receiver).1 (F.stop c.fallback_receiver).1,
      )

  prefer : Option Prefix → Option Prefix → Option Prefix
  prefer (some p) f = some p
  prefer none f = f

  unfoldable pub current_prefix : CompositeReceiver → Option Prefix
  unfolding prefer
  current_prefix c =
      prefer (P.current_prefix c.primary_receiver) (F.current_prefix c.fallback_receiver)

  unfoldable pub last_error : CompositeReceiver → Option Error
  unfolding first_error
  last_error c = first_error (P.last_error c.primary_receiver) (F.last_error c.fallback_receiver)

  source_of : CompositeReceiver → Option Prefix → Option Prefix → Source
  source_of c (some p) f = P.source c.primary_receiver
  source_of c none (some q) = F.source c.fallback_receiver
  source_of c none none = P.source c.primary_receiver

  unfoldable pub source : CompositeReceiver → Source
  unfolding source_of
  source c =
      source_of c (P.current_prefix c.primary_receiver) (F.current_prefix c.fallback_receiver)

  send_event : Event → CompositeReceiver → CompositeReceiver
  send_event e c = record c { events = send e c.events }

  -- `if fallbackPrefix != nil { send Acquired }`
  offer_fallback : Option Prefix → CompositeReceiver → CompositeReceiver
  unfolding send_event
  offer_fallback none c = c
  offer_fallback (some p) c = send_event (prefix_event acquired (some p)) c

  handle_failed : Event → CompositeReceiver → CompositeReceiver
  unfolding offer_fallback send_event
  handle_failed e c =
      let counted = record c { consecutive_failures = suc c.consecutive_failures } in
      send_event e (
        if leb c.max_failures (suc c.consecutive_failures)
        then offer_fallback (F.current_prefix c.fallback_receiver)
            (record counted { active = fallback })
        else counted)

  handle_success : Event → CompositeReceiver → CompositeReceiver
  unfolding send_event
  handle_success e c = send_event e (record c { consecutive_failures = 0; active = primary })

  handle_expired : Event → Option Prefix → CompositeReceiver → CompositeReceiver
  unfolding send_event
  handle_expired e none c = send_event e c
  handle_expired e (some p) c =
      send_event (prefix_event acquired (some p)) (record c { active = fallback })

  primary_case : EventType → Event → CompositeReceiver → CompositeReceiver
  unfolding handle_failed handle_success handle_expired
  primary_case failed e c = handle_failed e c
  primary_case acquired e c = handle_success e c
  primary_case renewed e c = handle_success e c
  primary_case changed e c = handle_success e c
  primary_case expired e c = handle_expired e (F.current_prefix c.fallback_receiver) c

  unfoldable pub handle_primary_event : Event → CompositeReceiver → CompositeReceiver
  unfolding primary_case
  handle_primary_event e c = primary_case e.type e c

  fallback_case : Active → Event → CompositeReceiver → CompositeReceiver
  unfolding send_event
  fallback_case primary e c = c
  fallback_case fallback e c = send_event e c

  unfoldable pub handle_fallback_event : Event → CompositeReceiver → CompositeReceiver
  unfolding fallback_case
  handle_fallback_event e c = fallback_case c.active e c

  pub is_fallback : Active → Bool
  is_fallback primary = false
  is_fallback fallback = true

  unfoldable pub is_using_fallback : CompositeReceiver → Bool
  unfolding is_fallback
  is_using_fallback c = is_fallback c.active
