-- ===== src/Reconciler/Settled.antt =====
-- What a pass of internal/controller/dynamicprefix_controller.go that accepts a prefix again computes,
-- against what is read of the status that the pass before has written.
use dynamic_prefix_operator.Prelude.{
  map_option, if◌then◌else◌, ◌≡◌, refl, sym, ap, ◌∙◌, Bool, true, false, not, ◌&&◌, Option, none,
  some, List, Result, ok, err, is_ok,
}
use dynamic_prefix_operator.Prelude.Int.{ℤ, leb_ℤ}
use dynamic_prefix_operator.Ownership.Texts.{text_eq_refl}
use dynamic_prefix_operator.Types.{Error, Prefix, Source}
use dynamic_prefix_operator.Conditions.{
  ConditionType, ConditionList, prefix_acquired, degraded, Condition, transition_time, retimed,
}
use dynamic_prefix_operator.Reconciler.Given.{World}
use dynamic_prefix_operator.Reconciler.Held.{Entry}
use dynamic_prefix_operator.Reconciler.Given.{Notice}
use dynamic_prefix_operator.Reconciler.Derived.{calculate_subnets, calculate_address_ranges}
use dynamic_prefix_operator.Reconciler.Stored.{
  Cluster, Resource, Status, Outcome, OwnedStatus, as_stored, find_condition, prefix_changed,
  new_history, owned_dynamic_prefix_status, publish,
}
use dynamic_prefix_operator.Reconciler.{if_calculated, accepted_status, status_with, lease_expiry}
use dynamic_prefix_operator.Reconciler.Health.{status_with-fields}
use dynamic_prefix_operator.Reconciler.Verdict.{
  Subnets, Ranges, held_entry, verdict, status_with-acquired, status_with-degraded,
  transition_time-twice,
}

abbrev pub eq_ℤ : ℤ → ℤ → Bool
eq_ℤ a b = leb_ℤ a b && leb_ℤ b a

abbrev pub same_lease : Option ℤ → Option ℤ → Bool
same_lease none none = true
same_lease (some a) (some b) = eq_ℤ a b
same_lease _ _ = false

module _ (W : World) where
  -- The resource that is read again after a pass that accepts a prefix and writes the status.
  abbrev pub after_accept : ℤ → Resource W → Option Error → Source → Prefix → Resource W
  after_accept now dp failure source p = record dp {
    status = as_stored W (accepted_status W now dp failure source p);
  }

  pub stored_found :
      (t : ConditionType) (c : Condition) (s : Status W)
      → find_condition W t s ≡ some c
      → find_condition W t (as_stored W s) ≡ some (retimed (World.stored_time W) c)
  unfolding find_condition as_stored
  stored_found t c s found =
      ConditionList.find-with_times (World.conditions W) (World.stored_time W) t s.conditions
      ∙ ap (map_option (retimed (World.stored_time W))) found

  unchanged :
      (dp : Resource W) (p : Prefix)
      → dp.status.current_prefix ≡ (World.lib W).prefix_string p.network
      → prefix_changed W dp p ≡ false
  unfolding prefix_changed
  unchanged dp p same = rw same (rw (text_eq_refl ((World.lib W).prefix_string p.network)) refl)

  if_calculated_twice :
      {E A : Type 0} (r : Result E A) (old : A)
      → if_calculated r (if_calculated r old) ≡ if_calculated r old
  if_calculated_twice (ok a) old = refl
  if_calculated_twice (err e) old = refl

  retimed-verdict :
      (f : ℤ → ℤ) (dp : Resource W) (subnets : Subnets W) (ranges : Ranges W) (t : ℤ)
      → retimed f (verdict W dp subnets ranges t) ≡ verdict W dp subnets ranges (f t)
  unfolding verdict
  retimed-verdict f dp (ok a) (ok b) t = refl
  retimed-verdict f dp (ok a) (err y) t = refl
  retimed-verdict f dp (err x) (ok b) t = refl
  retimed-verdict f dp (err x) (err y) t = refl

  verdict-holds :
      (dp : Resource W) (subnets : Subnets W) (ranges : Ranges W) (t : ℤ)
      → ((verdict W dp subnets ranges t).holds ≡ not (is_ok subnets && is_ok ranges))
        × ((verdict W dp subnets ranges t).last_transition_time ≡ t)
  unfolding verdict
  verdict-holds dp (ok a) (ok b) t = (refl, refl)
  verdict-holds dp (ok a) (err y) t = (refl, refl)
  verdict-holds dp (err x) (ok b) t = (refl, refl)
  verdict-holds dp (err x) (err y) t = (refl, refl)

  pub kept_time :
      (o : Option Condition) (c : Condition) (wrong : Bool) (now t : ℤ)
      → o ≡ some c
      → c.holds ≡ wrong
      → c.last_transition_time ≡ t
      → transition_time o wrong now ≡ t
  kept_time o c wrong now t is same time =
      rw is (transition_time-twice W none wrong now c same ∙ time)

  OwnedStatus-eq :
      (a b : OwnedStatus)
      → a.current_prefix ≡ b.current_prefix
      → a.prefix_source ≡ b.prefix_source
      → a.lease_expires_at ≡ b.lease_expires_at
      → a.address_ranges ≡ b.address_ranges
      → a.subnets ≡ b.subnets
      → a.history ≡ b.history
      → a.acquired ≡ b.acquired
      → a.health ≡ b.health
      → a ≡ b
  OwnedStatus-eq a b p q r s t u v w = λ i. record {
    current_prefix = p i;
    prefix_source = q i;
    lease_expires_at = r i;
    address_ranges = s i;
    subnets = t i;
    history = u i;
    acquired = v i;
    health = w i;
  }

  -- A pass that accepts the prefix again has all that is stored, but for the lease.
  status_with-again :
      (now later : ℤ) (dp : Resource W) (source : Source) (p : Prefix) (subnets : Subnets W)
      (ranges : Ranges W)
      → let first = as_stored W (status_with W now dp none source p subnets ranges) in
        owned_dynamic_prefix_status W
          (status_with W later (record dp { status = first }) none source p subnets ranges)
        ≡ record (owned_dynamic_prefix_status W first) { lease_expires_at = lease_expiry W p }
  unfolding owned_dynamic_prefix_status new_history as_stored verdict
  status_with-again now later dp source p subnets ranges =
      let stamp = World.stored_time W in
      let computed = status_with W now dp none source p subnets ranges in
      let first = as_stored W computed in
      let dp1 : Resource W = record dp { status = first } in
      let f = status_with-fields W now dp none source p subnets ranges in
      let g = status_with-fields W later dp1 none source p subnets ranges in
      let wrong = not (is_ok subnets && is_ok ranges) in
      let since = transition_time (find_condition W prefix_acquired dp.status) true now in
      let judged = transition_time (find_condition W degraded dp.status) wrong now in
      let held =
        stored_found prefix_acquired _ computed
          (status_with-acquired W now dp none source p subnets ranges) in
      let health =
        stored_found degraded _ computed (status_with-degraded W now dp source p subnets ranges)
        ∙ ap some (retimed-verdict stamp dp subnets ranges judged) in
      let v = verdict-holds dp subnets ranges (stamp judged) in
      OwnedStatus-eq _ _ (g.0 ∙ sym f.0) (g.4 ∙ sym f.4) g.5
        (g.2
          ∙ ap (if_calculated ranges) f.2
          ∙ if_calculated_twice ranges dp.status.address_ranges
          ∙ sym f.2)
        (g.1
          ∙ ap (if_calculated subnets) f.1
          ∙ if_calculated_twice subnets dp.status.subnets
          ∙ sym f.1)
        (g.3 ∙ rw (unchanged dp1 p f.0) refl)
        (status_with-acquired W later dp1 none source p subnets ranges
          ∙ ap (λ t. some (held_entry W dp source p t))
              (kept_time _ _ true later (stamp since) held refl refl)
          ∙ sym held)
        (status_with-degraded W later dp1 source p subnets ranges
          ∙ ap (λ t. some (verdict W dp subnets ranges t)) (kept_time _ _ _ later _ health v.0 v.1)
          ∙ sym health)

  written :
      (b : Bool) (kept stored : Outcome W)
      → kept.wrote ≡ false
      → stored.wrote ≡ true
      → (if b then kept else stored).wrote ≡ not b
  written true kept stored f t = f
  written false kept stored f t = t

  -- Where statuses that differ in the lease at most are found equal exactly if the leases are: a pass
  -- that accepts the prefix that the pass before has accepted and stored, of a receiver that reports no
  -- failure in either, writes the status again, however soon or late, exactly when the API does not
  -- store the expiry of the lease as it is.
  pub publish-accepted_again :
      (now : ℤ) (io : Cluster) (e : Entry W) (dp : Resource W) (source : Source) (p : Prefix)
      (notices : List Notice) (after : Option ℤ)
      → ((s : OwnedStatus) (lease : Option ℤ)
          → io.same_status s (record s { lease_expires_at = lease })
            ≡ same_lease s.lease_expires_at lease)
      → io.apply_works ≡ true
      → let dp1 = after_accept now dp none source p in
        (publish W io e dp1 (accepted_status W io.now dp1 none source p) notices after).wrote
        ≡ not (same_lease (map_option (World.stored_time W) (lease_expiry W p)) (lease_expiry W p))
  unfolding accepted_status publish owned_dynamic_prefix_status as_stored
  publish-accepted_again now io e dp source p notices after exact works =
      let subnets = calculate_subnets (World.lib W) dp.name p.network dp.subnets in
      let ranges = calculate_address_ranges (World.lib W) p.network dp.address_ranges in
      let computed = status_with W now dp none source p subnets ranges in
      let lease = (status_with-fields W now dp none source p subnets ranges).5 in
      let stored = owned_dynamic_prefix_status W (as_stored W computed) in
      let found =
        exact stored (lease_expiry W p)
        ∙ ap (λ o. same_lease (map_option (World.stored_time W) o) (lease_expiry W p)) lease in
      rw (status_with-again now io.now dp source p subnets ranges, found, works)
        (written
          (same_lease (map_option (World.stored_time W) (lease_expiry W p)) (lease_expiry W p)) _ _
          refl refl)
