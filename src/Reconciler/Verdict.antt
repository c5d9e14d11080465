-- ===== src/Reconciler/Verdict.antt =====
-- The two conditions that a pass of internal/controller/dynamicprefix_controller.go sets for an accepted
-- prefix, as they stand in the status afterwards.
use dynamic_prefix_operator.Prelude.{
  ◌≡◌, refl, ap, ◌∙◌, Bool, true, false, not, ◌&&◌, String, Option, none, some, List, Result, ok,
  err, is_ok,
}
use dynamic_prefix_operator.Prelude.Int.{ℤ}
use dynamic_prefix_operator.Types.{Error, Prefix, Source}
use dynamic_prefix_operator.Conditions.{prefix_acquired, degraded, Condition, transition_time}
use dynamic_prefix_operator.Subnet.{SubnetError}
use dynamic_prefix_operator.AddressRange.{RangeError}
use dynamic_prefix_operator.Resource.{AddressRangeStatus, SubnetStatus}
use dynamic_prefix_operator.Reconciler.Given.{
  World, Message, subnets_failed, ranges_failed, healthy, acquired_via,
}
use dynamic_prefix_operator.Reconciler.Stored.{Resource, Status, find_condition, put_condition}
use dynamic_prefix_operator.Reconciler.{status_with, after_subnets, after_ranges, after_failure}
use dynamic_prefix_operator.Reconciler.Health.{find-put, find-put_same}

module _ (W : World) where
  abbrev pub Subnets : Type 0
  Subnets = Result SubnetError (List SubnetStatus)

  abbrev pub Ranges : Type 0
  Ranges = Result RangeError (List AddressRangeStatus)

  -- Setting `Degraded` leaves the other condition, and the other way round.
  acquired-put :
      (dp : Resource W) (now : ℤ) (holds : Bool) (reason : String) (m : Message) (s : Status W)
      → find_condition W prefix_acquired (put_condition W dp now degraded holds reason m s)
        ≡ find_condition W prefix_acquired s
  acquired-put dp now holds reason m s = find-put W prefix_acquired dp now degraded holds reason m s

  pub degraded-put :
      (dp : Resource W) (now : ℤ) (holds : Bool) (reason : String) (m : Message) (s : Status W)
      → find_condition W degraded (put_condition W dp now prefix_acquired holds reason m s)
        ≡ find_condition W degraded s
  degraded-put dp now holds reason m s = find-put W degraded dp now prefix_acquired holds reason m s

  after_ranges-acquired :
      (dp : Resource W) (now : ℤ) (subnets : Subnets) (ranges : Ranges) (s : Status W)
      → find_condition W prefix_acquired
          (after_ranges W dp now (is_ok subnets) ranges (after_subnets W dp now subnets s))
        ≡ find_condition W prefix_acquired s
  unfolding after_ranges after_subnets find_condition
  after_ranges-acquired dp now (ok a) (ok b) s = acquired-put dp now _ _ _ _
  after_ranges-acquired dp now (ok a) (err y) s = acquired-put dp now _ _ _ _
  after_ranges-acquired dp now (err x) (ok b) s =
      acquired-put dp now true "SubnetCalculationFailed" (subnets_failed x) s
  after_ranges-acquired dp now (err x) (err y) s =
      acquired-put dp now true "AddressRangeCalculationFailed" (ranges_failed y) _
      ∙ acquired-put dp now true "SubnetCalculationFailed" (subnets_failed x) s

  after_failure-acquired :
      (dp : Resource W) (now : ℤ) (failure : Option Error) (s : Status W)
      → find_condition W prefix_acquired (after_failure W dp now failure s)
        ≡ find_condition W prefix_acquired s
  unfolding after_failure
  after_failure-acquired dp now none s = refl
  after_failure-acquired dp now (some x) s = acquired-put dp now _ _ _ s

  -- The condition that a prefix is held, after a pass that accepts one.
  abbrev pub held_entry : Resource W → Source → Prefix → ℤ → Condition
  held_entry dp source p since = record {
    type = prefix_acquired;
    holds = true;
    observed_generation = dp.generation;
    last_transition_time = since;
    reason = "PrefixAcquired";
    message = World.say W (acquired_via p.network source);
  }

  pub status_with-acquired :
      (now : ℤ) (dp : Resource W) (failure : Option Error) (source : Source) (p : Prefix)
      (subnets : Subnets) (ranges : Ranges)
      → find_condition W prefix_acquired (status_with W now dp failure source p subnets ranges)
        ≡ some (
            held_entry dp source p
              (transition_time (find_condition W prefix_acquired dp.status) true now))
  unfolding status_with find_condition
  status_with-acquired now dp failure source p subnets ranges =
      find-put_same W dp now prefix_acquired true "PrefixAcquired" (acquired_via p.network source) _
      ∙ ap (λ o. some (held_entry dp source p (transition_time o true now)))
          (after_failure-acquired dp now failure _ ∙ after_ranges-acquired dp now subnets ranges _)

  -- What `Degraded` says of the two calculations.
  unfoldable pub verdict : Resource W → Subnets → Ranges → ℤ → Condition
  verdict dp (ok a) (ok b) since = record {
    type = degraded;
    holds = false;
    observed_generation = dp.generation;
    last_transition_time = since;
    reason = "Healthy";
    message = World.say W healthy;
  }
  verdict dp (err x) (ok b) since = record {
    type = degraded;
    holds = true;
    observed_generation = dp.generation;
    last_transition_time = since;
    reason = "SubnetCalculationFailed";
    message = World.say W (subnets_failed x);
  }
  verdict dp _ (err y) since = record {
    type = degraded;
    holds = true;
    observed_generation = dp.generation;
    last_transition_time = since;
    reason = "AddressRangeCalculationFailed";
    message = World.say W (ranges_failed y);
  }

  pub transition_time-twice :
      (o : Option Condition) (holds : Bool) (now : ℤ) (c : Condition)
      → c.holds ≡ holds
      → transition_time (some c) holds now ≡ c.last_transition_time
  transition_time-twice o true now c h = rw h refl
  transition_time-twice o false now c h = rw h refl

  pub after_ranges-degraded :
      (dp : Resource W) (now : ℤ) (subnets : Subnets) (ranges : Ranges) (s : Status W)
      → find_condition W degraded
          (after_ranges W dp now (is_ok subnets) ranges (after_subnets W dp now subnets s))
        ≡ some (
            verdict dp subnets ranges (
              transition_time
                (find_condition W degraded s)
                (not (is_ok subnets && is_ok ranges))
                now))
  unfolding after_ranges after_subnets verdict find_condition
  after_ranges-degraded dp now (ok a) (ok b) s =
      find-put_same W dp now degraded false "Healthy" healthy _
  after_ranges-degraded dp now (ok a) (err y) s =
      find-put_same W dp now degraded true "AddressRangeCalculationFailed" (ranges_failed y) _
  after_ranges-degraded dp now (err x) (ok b) s =
      find-put_same W dp now degraded true "SubnetCalculationFailed" (subnets_failed x) s
  after_ranges-degraded dp now (err x) (err y) s =
      find-put_same W dp now degraded true "AddressRangeCalculationFailed" (ranges_failed y) _
      ∙ ap (λ o. some (verdict dp (err x) (err y) (transition_time o true now)))
          (find-put_same W dp now degraded true "SubnetCalculationFailed" (subnets_failed x) s)

  pub status_with-degraded :
      (now : ℤ) (dp : Resource W) (source : Source) (p : Prefix) (subnets : Subnets)
      (ranges : Ranges)
      → find_condition W degraded (status_with W now dp none source p subnets ranges)
        ≡ some (
            verdict dp subnets ranges (
              transition_time
                (find_condition W degraded dp.status)
                (not (is_ok subnets && is_ok ranges))
                now))
  unfolding status_with after_failure find_condition
  status_with-degraded now dp source p subnets ranges =
      degraded-put dp now true "PrefixAcquired" (acquired_via p.network source) _
      ∙ after_ranges-degraded dp now subnets ranges _
