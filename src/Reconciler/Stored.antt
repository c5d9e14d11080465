-- ===== src/Reconciler/Stored.antt =====
-- The resource that `Reconcile` of internal/controller/dynamicprefix_controller.go works on, how its
-- status is written, and how a change of the prefix enters the history.
use dynamic_prefix_operator.Prelude.{
  map_option, ℕ, Bool, true, false, not, String, Option, none, some, List, [], ◌∷◌, ◌++◌, map,
  if◌then◌else◌, Result, ok, err,
}
use dynamic_prefix_operator.Prelude.Int.{ℤ, pos}
use dynamic_prefix_operator.Net.{NetPrefix}
use dynamic_prefix_operator.Ownership.Texts.{Text, text_eq, is_blank}
use dynamic_prefix_operator.Types.{Prefix, Source}
use dynamic_prefix_operator.Factory.{AcquisitionSpec}
use dynamic_prefix_operator.History
use dynamic_prefix_operator.History.{
  PrefixHistoryEntry, handle_prefix_change, completed_prefixes, max_history,
}
use dynamic_prefix_operator.Resource.{
  AddressRangeSpec, SubnetSpec, AddressRangeStatus, SubnetStatus,
}
use dynamic_prefix_operator.Conditions.{
  ConditionType, prefix_acquired, degraded, Condition, ConditionList, set_condition,
}
use dynamic_prefix_operator.Reconciler.Given.{
  World, Message, Notice, received_event, changed_event, transition_completed, transition_started,
}
use dynamic_prefix_operator.Reconciler.Held.{Entry}
use dynamic_prefix_operator.Reconciler.Derived.{is_zero}

-- Delays in nanoseconds.
abbrev pub second : ℤ
second = pos 1_000_000_000

abbrev pub ten_seconds : ℤ
ten_seconds = pos 10_000_000_000

abbrev pub thirty_seconds : ℤ
thirty_seconds = pos 30_000_000_000

-- The part of the status that this reconciler writes, as an apply configuration.
pub record OwnedStatus : Type 0 where
  pub current_prefix : Text
  pub prefix_source : Option Source
  pub lease_expires_at : Option ℤ
  pub address_ranges : List AddressRangeStatus
  pub subnets : List SubnetStatus
  pub history : List PrefixHistoryEntry
  pub acquired : Option Condition
  pub health : Option Condition

-- Whether the two writes of a pass succeed, the comparison of statuses, and the time.
pub record Cluster : Type 0 where
  pub now : ℤ
  pub update_works : Bool
  pub apply_works : Bool
  pub same_status : OwnedStatus → OwnedStatus → Bool

pub data ApiError : Type 0 where
  get_failed update_failed apply_failed : ApiError

module _ (W : World) where
  pub record Status : Type 0 where
    pub current_prefix : Text
    pub prefix_source : Option Source
    pub lease_expires_at : Option ℤ
    pub address_ranges : List AddressRangeStatus
    pub subnets : List SubnetStatus
    pub history : List PrefixHistoryEntry
    pub conditions : ConditionList.State (World.conditions W)

  pub record Resource : Type 0 where
    pub name : Text
    pub generation : ℕ
    pub creation_time : ℤ
    pub deleting : Bool
    pub has_finalizer : Bool
    pub acquisition : AcquisitionSpec
    pub transition : Option ℤ
    pub address_ranges : List AddressRangeSpec
    pub subnets : List SubnetSpec
    pub status : Status

  unfoldable pub find_condition : ConditionType → Status → Option Condition
  find_condition type s = ConditionList.find (World.conditions W) type s.conditions

  -- An empty field is left out of the apply configuration, which the empty value stands for here.
  unfoldable pub owned_dynamic_prefix_status : Status → OwnedStatus
  unfolding find_condition
  owned_dynamic_prefix_status s = record {
    current_prefix = s.current_prefix;
    prefix_source = s.prefix_source;
    lease_expires_at = s.lease_expires_at;
    address_ranges = s.address_ranges;
    subnets = s.subnets;
    history = s.history;
    acquired = find_condition prefix_acquired s;
    health = find_condition degraded s;
  }

  unfoldable pub stored_entry : PrefixHistoryEntry → PrefixHistoryEntry
  stored_entry h = record h {
    acquired_at = World.stored_time W h.acquired_at;
    deprecated_at = World.stored_time W h.deprecated_at;
  }

  -- A status that is written, as it is read again: its times are those that the API stores.
  unfoldable pub as_stored : Status → Status
  unfolding stored_entry
  as_stored s = record s {
    lease_expires_at = map_option (World.stored_time W) s.lease_expires_at;
    history = map stored_entry s.history;
    conditions = ConditionList.with_times (World.conditions W) (World.stored_time W) s.conditions;
  }

  unfoldable pub put_condition :
      Resource → ℤ → ConditionType → Bool → String → Message → Status → Status
  put_condition dp now type holds reason m s = record s {
    conditions =
        set_condition (World.conditions W) dp.generation now type holds reason (World.say W m)
          s.conditions;
  }

  -- What a pass leaves: the reconciler's maps, the resource as it is stored, whether its status was
  -- written, the events, and the answer, which is a delay after which to look again or none.
  pub record Outcome : Type 0 where
    pub entry : Entry W
    pub stored : Option Resource
    pub wrote : Bool
    pub notices : List Notice
    pub answer : Result ApiError (Option ℤ)

  -- `updateStatusIfChanged`, and the answer that follows if it succeeds. The comparison is of the exact
  -- times that the pass has computed with those that were read.
  unfoldable pub publish : Cluster → Entry W → Resource → Status → List Notice → Option ℤ → Outcome
  publish io e dp s notices after =
      if io.same_status (owned_dynamic_prefix_status dp.status) (owned_dynamic_prefix_status s)
      then record {
        entry = e;
        stored = some dp;
        wrote = false;
        notices = notices;
        answer = ok after;
      }
      else if io.apply_works
      then record {
        entry = e;
        stored = some (record dp { status = as_stored s });
        wrote = true;
        notices = notices;
        answer = ok after;
      }
      else record {
        entry = e;
        stored = some dp;
        wrote = false;
        notices = notices;
        answer = err apply_failed;
      }

  -- The same where a failure to write is only logged.
  unfoldable pub publish_or_log :
      Cluster → Entry W → Resource → Status → List Notice → Option ℤ → Outcome
  publish_or_log io e dp s notices after = record (publish io e dp s notices after) {
    answer = ok after;
  }

  -- The time since which the condition says that a prefix is held, or the creation of the resource.
  acquired_of : ℤ → Option Condition → ℤ
  acquired_of creation_time none = creation_time
  acquired_of creation_time (some c) =
      if is_zero c.last_transition_time then creation_time else c.last_transition_time

  unfoldable pub history_status : Resource → History.Status
  unfolding acquired_of find_condition
  history_status dp = record {
    current_prefix = dp.status.current_prefix;
    history = dp.status.history;
    acquired_since = acquired_of dp.creation_time (find_condition prefix_acquired dp.status);
  }

  unfoldable pub transition_events : Resource → NetPrefix → List Notice
  transition_events dp network =
      if is_blank dp.status.current_prefix
      then []
      else map (λ p. transition_completed p (max_history dp.transition))
          (completed_prefixes dp.transition ((World.lib W).prefix_string network)
            (history_status dp))
        ++ transition_started dp.status.current_prefix network ∷ []

  unfoldable pub change_event : Text → NetPrefix → Source → Notice
  change_event old network source =
      if is_blank old then received_event network source else changed_event old network source

  unfoldable pub prefix_changed : Resource → Prefix → Bool
  prefix_changed dp p =
      not (text_eq dp.status.current_prefix ((World.lib W).prefix_string p.network))

  unfoldable pub new_history : ℤ → Resource → Prefix → List PrefixHistoryEntry
  new_history now dp p =
      if prefix_changed dp p
      then (handle_prefix_change dp.transition now ((World.lib W).prefix_string p.network)
          (history_status dp)).history
      else dp.status.history

  unfoldable pub change_notices : Resource → Source → Prefix → List Notice
  unfolding transition_events change_event
  change_notices dp source p =
      if prefix_changed dp p
      then change_event dp.status.current_prefix p.network source ∷ transition_events dp p.network
      else []
