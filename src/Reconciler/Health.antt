-- ===== src/Reconciler/Health.antt =====
-- What the status of a resource says after a pass of internal/controller/dynamicprefix_controller.go
-- that accepts a prefix.
use dynamic_prefix_operator.Prelude.{
  ◌≡◌, refl, ◌∙◌, Bool, true, false, not, ◌&&◌, String, Option, none, some, List, Result, ok, err,
  is_ok, if◌then◌else◌,
}
use dynamic_prefix_operator.Prelude.Int.{ℤ}
use dynamic_prefix_operator.Types.{Error, Prefix, Source}
use dynamic_prefix_operator.Conditions.{
  ConditionType, prefix_acquired, degraded, pools_synced, bgp_advertisement_ready, Condition,
  ConditionList, type_eq, transition_time, set_condition,
}
use dynamic_prefix_operator.Subnet.{SubnetError}
use dynamic_prefix_operator.AddressRange.{RangeError}
use dynamic_prefix_operator.Resource.{AddressRangeStatus, SubnetStatus}
use dynamic_prefix_operator.Reconciler.Given.{World, Message, subnets_failed, acquired_via}
use dynamic_prefix_operator.Reconciler.Derived.{calculate_subnets, calculate_address_ranges}
use dynamic_prefix_operator.Reconciler.Stored.{
  Resource, Status, find_condition, put_condition, new_history,
}
use dynamic_prefix_operator.Reconciler.{
  lease_expiry, if_calculated, accepted_status, status_with, after_subnets, after_ranges,
  after_failure,
}

abbrev pub is_none {ℓ} : {A : Type ℓ} → Option A → Bool
is_none none = true
is_none (some a) = false

module _ (W : World) where
  -- The condition that setting one leaves.
  abbrev pub entry_of :
      Resource W → ℤ → ConditionType → Bool → String → Message → Status W → Condition
  entry_of dp now type holds reason m s = record {
    type = type;
    holds = holds;
    observed_generation = dp.generation;
    last_transition_time = transition_time (find_condition W type s) holds now;
    reason = reason;
    message = World.say W m;
  }

  pub find-put :
      (t : ConditionType) (dp : Resource W) (now : ℤ) (type : ConditionType) (holds : Bool)
      (reason : String) (m : Message) (s : Status W)
      → find_condition W t (put_condition W dp now type holds reason m s) ≡ (
          if type_eq t type
          then some (record (entry_of dp now type holds reason m s) {
            last_transition_time = transition_time (find_condition W t s) holds now;
          })
          else find_condition W t s)
  unfolding find_condition put_condition set_condition
  find-put t dp now type holds reason m s =
      ConditionList.find-set (World.conditions W) t _ s.conditions

  -- The condition `Degraded` of a status, as it says that something is wrong or not.
  pub record Says (wrong : Bool) (s : Status W) : Type 0 where
    pub entry : Condition
    pub found : find_condition W degraded s ≡ some entry
    pub holds : entry.holds ≡ wrong

  pub find-put_same :
      (dp : Resource W) (now : ℤ) (type : ConditionType) (holds : Bool) (reason : String)
      (m : Message) (s : Status W)
      → find_condition W type (put_condition W dp now type holds reason m s)
        ≡ some (entry_of dp now type holds reason m s)
  find-put_same dp now prefix_acquired holds reason m s =
      find-put prefix_acquired dp now _ holds reason m s
  find-put_same dp now degraded holds reason m s = find-put degraded dp now _ holds reason m s
  find-put_same dp now pools_synced holds reason m s =
      find-put pools_synced dp now _ holds reason m s
  find-put_same dp now bgp_advertisement_ready holds reason m s =
      find-put bgp_advertisement_ready dp now _ holds reason m s

  put-Says :
      (dp : Resource W) (now : ℤ) (holds : Bool) (reason : String) (m : Message) (s : Status W)
      → Says holds (put_condition W dp now degraded holds reason m s)
  put-Says dp now holds reason m s = record {
    entry = entry_of dp now degraded holds reason m s;
    found = find-put_same dp now degraded holds reason m s;
    holds = refl;
  }

  after_failure-Says :
      (dp : Resource W) (now : ℤ) (failure : Option Error) (wrong : Bool) (s : Status W)
      → Says wrong s
      → Says (not (not wrong && is_none failure)) (after_failure W dp now failure s)
  unfolding after_failure
  after_failure-Says dp now none false s h = h
  after_failure-Says dp now none true s h = h
  after_failure-Says dp now (some x) false s h = put-Says dp now true _ _ s
  after_failure-Says dp now (some x) true s h = put-Says dp now true _ _ s

  after_ranges-Says :
      (dp : Resource W) (now : ℤ) (subnets : Result SubnetError (List SubnetStatus))
      (ranges : Result RangeError (List AddressRangeStatus)) (s : Status W)
      → Says
          (not (is_ok subnets && is_ok ranges))
          (after_ranges W dp now (is_ok subnets) ranges (after_subnets W dp now subnets s))
  unfolding after_ranges after_subnets find_condition
  after_ranges-Says dp now (ok a) (ok b) s = put-Says dp now false _ _ _
  after_ranges-Says dp now (ok a) (err y) s = put-Says dp now true _ _ _
  after_ranges-Says dp now (err x) (ok b) s =
      let h = put-Says dp now true "SubnetCalculationFailed" (subnets_failed x) s in
      record { entry = h.entry; found = h.found; holds = h.holds }
  after_ranges-Says dp now (err x) (err y) s = put-Says dp now true _ _ _

  acquired_last-Says :
      (dp : Resource W) (now : ℤ) (reason : String) (m : Message) (wrong : Bool) (s : Status W)
      → Says wrong s
      → Says wrong (put_condition W dp now prefix_acquired true reason m s)
  acquired_last-Says dp now reason m wrong s h = record {
    entry = h.entry;
    found = find-put degraded dp now prefix_acquired true reason m s ∙ h.found;
    holds = h.holds;
  }

  -- Fields of a status that are no conditions.
  pub status_with-fields :
      (now : ℤ) (dp : Resource W) (failure : Option Error) (source : Source) (p : Prefix)
      (subnets : Result SubnetError (List SubnetStatus))
      (ranges : Result RangeError (List AddressRangeStatus))
      → let s = status_with W now dp failure source p subnets ranges in
        (s.current_prefix ≡ (World.lib W).prefix_string p.network)
        × (s.subnets ≡ if_calculated subnets dp.status.subnets)
        × (s.address_ranges ≡ if_calculated ranges dp.status.address_ranges)
        × (s.history ≡ new_history W now dp p)
        × (s.prefix_source ≡ some source)
        × (s.lease_expires_at ≡ lease_expiry W p)
  unfolding status_with after_ranges after_subnets after_failure put_condition
  status_with-fields now dp none source p (ok a) (ok b) = (refl, refl, refl, refl, refl, refl)
  status_with-fields now dp none source p (ok a) (err y) = (refl, refl, refl, refl, refl, refl)
  status_with-fields now dp none source p (err x) (ok b) = (refl, refl, refl, refl, refl, refl)
  status_with-fields now dp none source p (err x) (err y) = (refl, refl, refl, refl, refl, refl)
  status_with-fields now dp (some z) source p (ok a) (ok b) = (refl, refl, refl, refl, refl, refl)
  status_with-fields now dp (some z) source p (ok a) (err y) = (refl, refl, refl, refl, refl, refl)
  status_with-fields now dp (some z) source p (err x) (ok b) = (refl, refl, refl, refl, refl, refl)
  status_with-fields now dp (some z) source p (err x) (err y) = (refl, refl, refl, refl, refl, refl)

  regroup :
      (a b c : Bool) (s : Status W)
      → Says (not (not (not (a && b)) && c)) s
      → Says (not (a && b && c)) s
  regroup true true c s h = h
  regroup true false c s h = h
  regroup false b c s h = h

  status_with-Says :
      (now : ℤ) (dp : Resource W) (failure : Option Error) (source : Source) (p : Prefix)
      (subnets : Result SubnetError (List SubnetStatus))
      (ranges : Result RangeError (List AddressRangeStatus))
      → Says
          (not (is_ok subnets && is_ok ranges && is_none failure))
          (status_with W now dp failure source p subnets ranges)
  unfolding status_with
  status_with-Says now dp failure source p subnets ranges =
      let held : Status W = record dp.status {
        history = new_history W now dp p;
        current_prefix = (World.lib W).prefix_string p.network;
        prefix_source = some source;
        lease_expires_at = lease_expiry W p;
      } in
      let ranged =
        after_ranges W dp now (is_ok subnets) ranges (after_subnets W dp now subnets held) in
      acquired_last-Says dp now "PrefixAcquired" (acquired_via p.network source)
        (not (is_ok subnets && is_ok ranges && is_none failure))
        (after_failure W dp now failure ranged)
        (regroup (is_ok subnets) (is_ok ranges) (is_none failure) _ (
          after_failure-Says dp now failure (not (is_ok subnets && is_ok ranges)) ranged
            (after_ranges-Says dp now subnets ranges held)))

  -- After a pass that accepts a prefix, the status has it, the subnets and the address ranges are
  -- those that it gives, or the earlier ones where their calculation fails, and `Degraded` is set and
  -- false exactly if both calculations succeed and the receiver reports no failure.
  pub accepted_status_lem :
      (now : ℤ) (dp : Resource W) (failure : Option Error) (source : Source) (p : Prefix)
      → let s = accepted_status W now dp failure source p in
        let subnets = calculate_subnets (World.lib W) dp.name p.network dp.subnets in
        let ranges = calculate_address_ranges (World.lib W) p.network dp.address_ranges in
        (s.current_prefix ≡ (World.lib W).prefix_string p.network)
        × (s.subnets ≡ if_calculated subnets dp.status.subnets)
        × (s.address_ranges ≡ if_calculated ranges dp.status.address_ranges)
        × Says (not (is_ok subnets && is_ok ranges && is_none failure)) s
  unfolding accepted_status
  accepted_status_lem now dp failure source p =
      let subnets = calculate_subnets (World.lib W) dp.name p.network dp.subnets in
      let ranges = calculate_address_ranges (World.lib W) p.network dp.address_ranges in
      let f = status_with-fields now dp failure source p subnets ranges in
      (f.0, f.1, f.2, status_with-Says now dp failure source p subnets ranges)
