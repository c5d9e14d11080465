-- ===== src/Reconciler.antt =====
-- `Reconcile` of `DynamicPrefixReconciler` in internal/controller/dynamicprefix_controller.go: one pass
-- over a resource. Requests to the Kubernetes API are arguments: what a read finds, and whether writes
-- succeed. Logs and metrics are left out; the events on the resource are values.
pub mod Given
pub mod Held
pub mod Derived
pub mod Stored
pub mod Health
pub mod Verdict
pub mod Settled
pub mod Stamps
pub mod Changes
pub mod Deletion
pub mod Passes
mod Examples
use dynamic_prefix_operator.Prelude.{
  ℕ, Bool, true, false, not, ◌&&◌, ◌||◌, String, Option, none, some, List, [], ◌∷◌, ◌++◌, map,
  if◌then◌else◌, Result, ok, err, is_ok,
}
use dynamic_prefix_operator.Prelude.Int.{ℤ, pos, ltb_ℤ, ◌+ℤ◌}
use dynamic_prefix_operator.Net.{NetPrefix}
use dynamic_prefix_operator.Ownership.Texts.{Text, text_eq, is_blank}
use dynamic_prefix_operator.Ownership.{Netip}
use dynamic_prefix_operator.Types.{Error, Prefix, Source}
use dynamic_prefix_operator.Receiver.{Receiver}
use dynamic_prefix_operator.Policy.{PolicyError, validate, prefix_policy_for}
use dynamic_prefix_operator.Factory.{AcquisitionSpec}
use dynamic_prefix_operator.History
use dynamic_prefix_operator.History.{
  PrefixHistoryEntry, handle_prefix_change, completed_prefixes, max_history,
}
use dynamic_prefix_operator.Resource.{
  AddressRangeSpec, SubnetSpec, AddressRangeStatus, SubnetStatus,
}
use dynamic_prefix_operator.Conditions.{
  ConditionType, prefix_acquired, degraded, Condition, ConditionList, set_condition, warns,
}
use dynamic_prefix_operator.Subnet.{SubnetError}
use dynamic_prefix_operator.AddressRange.{RangeError}
use dynamic_prefix_operator.Reconciler.Given.{
  World, Message, waiting, healthy, creation_failed, acquisition_failing, still_serving, rejected,
  subnets_failed, ranges_failed, acquired_via, Notice, creation_failed_event,
  acquisition_failed_event, prefix_rejected_event,
}
use dynamic_prefix_operator.Reconciler.Held.{
  Entry, Receiving, get_or_create_receiver, cleanup_receiver, report_ra_rejections,
}
use dynamic_prefix_operator.Reconciler.Derived.{
  calculate_subnets, calculate_address_ranges, calculate_requeue_time, is_zero,
}
use dynamic_prefix_operator.Reconciler.Stored.{
  second, ten_seconds, thirty_seconds, Cluster, ApiError, get_failed, update_failed, Status,
  Resource, find_condition, put_condition, Outcome, publish, publish_or_log, new_history,
  change_notices,
}

-- What a read of the resource finds.
pub data Found (W : World) : Type 0 where
  not_found failed_get : Found W
  found : Resource W → Found W

-- After a calculation that failed the status keeps what it has.
abbrev if_calculated {ℓ} : {A : Type ℓ} {E : Type 0} → Result E A → A → A
if_calculated (ok a) old = a
if_calculated (err x) old = old

module _ (W : World) where
  unfoldable pub lease_expiry : Prefix → Option ℤ
  unfolding ◌+ℤ◌
  lease_expiry p =
      if ltb_ℤ (pos 0) p.valid_lifetime then some (p.received_at +ℤ p.valid_lifetime) else none

  -- The condition `Degraded`, after the subnets, after the ranges and after the receiver's own report.
  pub after_subnets : Resource W → ℤ → Result SubnetError (List SubnetStatus) → Status W → Status W
  after_subnets dp now (ok subnets) s = record s { subnets = subnets }
  after_subnets dp now (err x) s =
      put_condition W dp now degraded true "SubnetCalculationFailed" (subnets_failed x) s

  -- The status is healthy only if the subnets also succeeded.
  pub after_ranges :
      Resource W → ℤ → Bool → Result RangeError (List AddressRangeStatus) → Status W → Status W
  after_ranges dp now subnets_ok (ok ranges) s =
      let t : Status W = record s { address_ranges = ranges } in
      if subnets_ok then put_condition W dp now degraded false "Healthy" healthy t else t
  after_ranges dp now subnets_ok (err x) s =
      put_condition W dp now degraded true "AddressRangeCalculationFailed" (ranges_failed x) s

  after_failure : Resource W → ℤ → Option Error → Status W → Status W
  after_failure dp now none s = s
  after_failure dp now (some x) s =
      put_condition W dp now degraded true "RenewalFailing" (still_serving x) s

  -- With what the calculations give.
  pub status_with :
      ℤ
      → Resource W
      → Option Error
      → Source
      → Prefix
      → Result SubnetError (List SubnetStatus)
      → Result RangeError (List AddressRangeStatus)
      → Status W
  unfolding lease_expiry
  status_with now dp failure source p subnets ranges =
      let held : Status W = record dp.status {
        history = new_history W now dp p;
        current_prefix = (World.lib W).prefix_string p.network;
        prefix_source = some source;
        lease_expires_at = lease_expiry p;
      } in
      let carved = after_subnets dp now subnets held in
      let ranged = after_ranges dp now (is_ok subnets) ranges carved in
      put_condition W dp now prefix_acquired true "PrefixAcquired" (acquired_via p.network source)
        (after_failure dp now failure ranged)

  -- The status for an acquired prefix that the policy accepts.
  pub accepted_status : ℤ → Resource W → Option Error → Source → Prefix → Status W
  unfolding status_with
  accepted_status now dp failure source p =
      status_with now dp failure source p
        (calculate_subnets (World.lib W) dp.name p.network dp.subnets)
        (calculate_address_ranges (World.lib W) p.network dp.address_ranges)

  accept : Cluster → Entry W → Resource W → List Notice → Option Error → Source → Prefix → Outcome W
  unfolding accepted_status
  accept io e dp notices failure source p =
      publish W io e dp (accepted_status io.now dp failure source p)
        (notices ++ change_notices W dp source p)
        (some (calculate_requeue_time (World.scaled W) io.now p))

  reject : Cluster → Entry W → Resource W → List Notice → NetPrefix → PolicyError → Outcome W
  reject io e dp notices network x =
      publish W io e dp
        (put_condition W dp io.now prefix_acquired false "PrefixRejected" (rejected network x)
          dp.status)
        (notices ++ prefix_rejected_event network x ∷ []) (some thirty_seconds)

  -- `warnOnConditionChange` reads the condition before it is set.
  failure_notices : Resource W → Error → List Notice
  failure_notices dp x =
      if warns (find_condition W prefix_acquired dp.status) "AcquisitionFailed"
        (World.say W (acquisition_failing x))
      then acquisition_failed_event x ∷ []
      else []

  without_prefix : Cluster → Entry W → Resource W → List Notice → Option Error → Outcome W
  unfolding failure_notices
  without_prefix io e dp notices none =
      publish W io e dp
        (put_condition W dp io.now prefix_acquired false "WaitingForPrefix" waiting dp.status)
        notices (some ten_seconds)
  without_prefix io e dp notices (some x) =
      publish W io e dp
        (put_condition W dp io.now prefix_acquired false "AcquisitionFailed" (acquisition_failing x)
          dp.status)
        (notices ++ failure_notices dp x) (some ten_seconds)

  judged :
      Cluster
      → Entry W
      → Resource W
      → List Notice
      → Option Error
      → Source
      → Prefix
      → Result PolicyError (Unit {0})
      → Outcome W
  unfolding accept reject
  judged io e dp notices failure source p (ok _) = accept io e dp notices failure source p
  judged io e dp notices failure source p (err x) = reject io e dp notices p.network x

  by_prefix :
      Cluster
      → Entry W
      → Resource W
      → List Notice
      → Option Error
      → Source
      → Option Prefix
      → Outcome W
  unfolding without_prefix judged
  by_prefix io e dp notices failure source none = without_prefix io e dp notices failure
  by_prefix io e dp notices failure source (some p) =
      judged io e dp notices failure source p
        (validate (prefix_policy_for dp.acquisition.prefix_filter) p.network)

  with_receiver :
      Cluster → Resource W → Entry W × List Notice × Result Error (Receiving W) → Outcome W
  unfolding by_prefix
  with_receiver io dp (e, notices, err x) =
      publish_or_log W io e dp
        (put_condition W dp io.now prefix_acquired false "ReceiverCreationFailed"
          (creation_failed x) dp.status)
        (notices ++ creation_failed_event x ∷ []) (some thirty_seconds)
  with_receiver io dp (e, notices, ok r) =
      let said = report_ra_rejections io.now e.report (World.rejections W r) in
      by_prefix io (record e { report = said.0 }) dp (notices ++ said.1)
        (Receiver.last_error (World.receiver W) r) (Receiver.source (World.receiver W) r)
        (Receiver.current_prefix (World.receiver W) r)

  finish : Entry W → Resource W → Result ApiError (Option ℤ) → Outcome W
  finish e dp answer = record {
    entry = e;
    stored = some dp;
    wrote = false;
    notices = [];
    answer = answer;
  }

  finish_deletion : Cluster → Entry W → Resource W → Outcome W
  unfolding finish
  finish_deletion io e dp =
      if not dp.has_finalizer
      then finish e dp (ok none)
      else if io.update_works
      then finish (cleanup_receiver W e) (record dp { has_finalizer = false }) (ok none)
      else finish (cleanup_receiver W e) dp (err update_failed)

  add_finalizer : Cluster → Entry W → Resource W → Outcome W
  unfolding finish
  add_finalizer io e dp =
      if io.update_works
      then finish e (record dp { has_finalizer = true }) (ok (some second))
      else finish e dp (err update_failed)

  -- By whether the resource is being deleted and whether it has the finalizer.
  pass : Bool → Bool → Cluster → Entry W → Resource W → Outcome W
  unfolding finish_deletion add_finalizer with_receiver
  pass true _ io e dp = finish_deletion io e dp
  pass false false io e dp = add_finalizer io e dp
  pass false true io e dp = with_receiver io dp (get_or_create_receiver W e dp.acquisition)

  pub reconcile : Cluster → Entry W → Found W → Outcome W
  unfolding pass
  reconcile io e not_found = record {
    entry = cleanup_receiver W e;
    stored = none;
    wrote = false;
    notices = [];
    answer = ok none;
  }
  reconcile io e failed_get = record {
    entry = e;
    stored = none;
    wrote = false;
    notices = [];
    answer = err get_failed;
  }
  reconcile io e (found dp) = pass dp.deleting dp.has_finalizer io e dp
