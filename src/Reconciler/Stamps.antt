-- ===== src/Reconciler/Stamps.antt =====
-- The times that the passes of internal/controller/dynamicprefix_controller.go put on conditions and on
-- the entries of the history.
use dynamic_prefix_operator.Prelude.{
  ◌≡◌, ◌≢◌, refl, sym, ap, subst, ◌∙◌, map, true, false, Option, some, List, [], ◌∷◌, ok, arith,
  Bool-cases, inl, inr,
}
use dynamic_prefix_operator.Prelude.Int.{ℤ}
use dynamic_prefix_operator.Types.{Error, Prefix, Source}
use dynamic_prefix_operator.Conditions.{
  prefix_acquired, degraded, Condition, transition_time, retimed,
}
use dynamic_prefix_operator.History.{PrefixHistoryEntry, handle_prefix_change}
use dynamic_prefix_operator.History.Stamped.{Stamped, handle_prefix_change-Stamped}
use dynamic_prefix_operator.Resource.{AddressRangeStatus, SubnetStatus}
use dynamic_prefix_operator.Reconciler.Given.{World, Notice, acquired_via, still_serving}
use dynamic_prefix_operator.Reconciler.Held.{Entry}
use dynamic_prefix_operator.Reconciler.Derived.{
  calculate_subnets, calculate_address_ranges, is_zero,
}
use dynamic_prefix_operator.Reconciler.Stored.{
  Cluster, Resource, OwnedStatus, find_condition, owned_dynamic_prefix_status, publish, new_history,
  history_status, prefix_changed, as_stored, stored_entry,
}
use dynamic_prefix_operator.Reconciler.{accepted_status, status_with, after_failure}
use dynamic_prefix_operator.Reconciler.Health.{find-put_same, status_with-fields}
use dynamic_prefix_operator.Reconciler.Verdict.{
  status_with-acquired, after_ranges-degraded, degraded-put, held_entry, verdict,
}
use dynamic_prefix_operator.Reconciler.Settled.{after_accept, kept_time, stored_found}

module _ (W : World) where
  -- With both calculations fine and a receiver that fails, `Degraded` is set to false and then to true.
  status_with-restamped :
      (now : ℤ) (dp : Resource W) (x : Error) (source : Source) (p : Prefix)
      (subnets : List SubnetStatus) (ranges : List AddressRangeStatus)
      → (c : Condition) × (find_condition W degraded
            (status_with W now dp (some x) source p (ok subnets) (ok ranges))
          ≡ some c)
        × (c.holds ≡ true)
        × (c.last_transition_time ≡ now)
  unfolding status_with after_failure verdict
  status_with-restamped now dp x source p subnets ranges = (
    _,
    degraded-put W dp now true "PrefixAcquired" (acquired_via p.network source) _
        ∙ find-put_same W dp now degraded true "RenewalFailing" (still_serving x) _,
    refl,
    ap (λ o. transition_time o true now)
        (after_ranges-degraded W dp now (ok subnets) (ok ranges) _),
  )

  -- While the receiver fails and still has a prefix, and the subnets and the ranges of the prefix can
  -- be calculated, every pass gives `Degraded` the time of the pass, and writes the status if that is
  -- another time than the one it has, also where nothing else has changed.
  pub failing-restamped :
      (io : Cluster) (e : Entry W) (dp : Resource W) (x : Error) (source : Source) (p : Prefix)
      (notices : List Notice) (after : Option ℤ) (subnets : List SubnetStatus)
      (ranges : List AddressRangeStatus) (old : Condition)
      → calculate_subnets (World.lib W) dp.name p.network dp.subnets ≡ ok subnets
      → calculate_address_ranges (World.lib W) p.network dp.address_ranges ≡ ok ranges
      → ((s t : OwnedStatus) → io.same_status s t ≡ true → s ≡ t)
      → io.apply_works ≡ true
      → find_condition W degraded dp.status ≡ some old
      → io.now ≢ old.last_transition_time
      → let s = accepted_status W io.now dp (some x) source p in
        ((c : Condition) × (find_condition W degraded s ≡ some c)
          × (c.holds ≡ true)
          × (c.last_transition_time ≡ io.now))
        × ((publish W io e dp s notices after).wrote ≡ true)
  unfolding accepted_status publish owned_dynamic_prefix_status
  failing-restamped io e dp x source p notices after subnets ranges old carved ranged sound works
        was other =
      rw (carved, ranged)
        (let s = status_with W io.now dp (some x) source p (ok subnets) (ok ranges) in
          let c = status_with-restamped io.now dp x source p subnets ranges in
          (
            c,
            elim (Bool-cases (
                io.same_status (owned_dynamic_prefix_status W dp.status)
                  (owned_dynamic_prefix_status W s))) [
                    | inl same ↦
                        let health = ap (λ o. o.health) (sound _ _ same) in
                        absurd (other (ground (arith, health, was, c.1, c.3)))
                    | inr differs ↦ rw (differs, works) refl
                  ],
          ))

  -- Passes that accept a prefix, each with its time, the receiver's report and the prefix.
  pub accept_all : List (ℤ × Option Error × Source × Prefix) → Resource W → Resource W
  accept_all [] dp = dp
  accept_all ((now, failure, source, p) ∷ rest) dp =
      accept_all rest (after_accept W now dp failure source p)

  -- The condition says that a prefix is held since a time, and so does all of the history.
  pub record Since (t : ℤ) (dp : Resource W) : Type 0 where
    pub entry : Condition
    pub found : find_condition W prefix_acquired dp.status ≡ some entry
    pub holds : entry.holds ≡ true
    pub time : entry.last_transition_time ≡ t
    pub stamped : Stamped t dp.status.history

  since_lem :
      (t : ℤ) (dp : Resource W)
      → is_zero t ≡ false
      → Since t dp
      → (history_status W dp).acquired_since ≡ t
  unfolding history_status
  since_lem t dp set v = rw v.found (rw v.time (rw set refl))

  new_history-Stamped :
      (t now : ℤ) (dp : Resource W) (p : Prefix)
      → is_zero t ≡ false
      → Since t dp
      → Stamped t (new_history W now dp p)
  unfolding new_history history_status
  new_history-Stamped t now dp p set v = elim (Bool-cases (prefix_changed W dp p)) [
    | inl moved ↦ rw moved (
        let e = since_lem t dp set v in
        let status = history_status W dp in
        subst
          (λ u.
            Stamped u
              (handle_prefix_change dp.transition now ((World.lib W).prefix_string p.network)
                status).history)
          e
          (handle_prefix_change-Stamped dp.transition now ((World.lib W).prefix_string p.network)
            status (subst (λ u. Stamped u dp.status.history) (sym e) v.stamped)))
    | inr stays ↦ rw stays v.stamped
  ]

  stored-Stamped :
      (t : ℤ) (es : List PrefixHistoryEntry)
      → World.stored_time W t ≡ t
      → Stamped t es
      → Stamped t (map (stored_entry W) es)
  unfolding stored_entry
  stored-Stamped t [] fixed h = tt
  stored-Stamped t (e ∷ es) fixed h =
      (ap (World.stored_time W) h.0 ∙ fixed, stored-Stamped t es fixed h.1)

  after_accept-Since :
      (t now : ℤ) (dp : Resource W) (failure : Option Error) (source : Source) (p : Prefix)
      → is_zero t ≡ false
      → World.stored_time W t ≡ t
      → Since t dp
      → Since t (after_accept W now dp failure source p)
  unfolding accepted_status as_stored
  after_accept-Since t now dp failure source p set fixed v =
      let entry = held_entry W dp source p t in
      let subnets = calculate_subnets (World.lib W) dp.name p.network dp.subnets in
      let ranges = calculate_address_ranges (World.lib W) p.network dp.address_ranges in
      let history = (status_with-fields W now dp failure source p subnets ranges).3 in
      record {
        entry = retimed (World.stored_time W) entry;
        found =
            stored_found W prefix_acquired entry
              (status_with W now dp failure source p subnets ranges)
              (status_with-acquired W now dp failure source p subnets ranges
                ∙ ap (λ s. some (held_entry W dp source p s))
                    (kept_time W _ v.entry true now t v.found v.holds v.time));
        holds = refl;
        time = fixed;
        stamped = stored-Stamped t _ fixed (rw history (new_history-Stamped t now dp p set v));
      }

  -- However often the prefix changes while one is held, every entry of the history that is stored has
  -- one and the same acquisition time: that of the condition that a prefix is held, which is set since
  -- before the first change, and which is a time that the API stores as it is.
  pub accept_all-Since :
      (t : ℤ) (seen : List (ℤ × Option Error × Source × Prefix)) (dp : Resource W)
      → is_zero t ≡ false
      → World.stored_time W t ≡ t
      → Since t dp
      → Since t (accept_all seen dp)
  unfolding accept_all
  accept_all-Since t [] dp set fixed v = v
  accept_all-Since t ((now, failure, source, p) ∷ rest) dp set fixed v =
      accept_all-Since t rest (after_accept W now dp failure source p) set fixed
        (after_accept-Since t now dp failure source p set fixed v)
