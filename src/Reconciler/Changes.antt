-- ===== src/Reconciler/Changes.antt =====
-- Which passes of internal/controller/dynamicprefix_controller.go change what a resource's status says
-- of its prefix.
use dynamic_prefix_operator.Prelude.{
  map_option, ◌≡◌, refl, ap, ◌∙◌, map, ◌⊎◌, String, inl, inr, Bool, true, false, Option, none, some,
  List, Result, ok, err, arith, Bool-cases, ◌++◌,
}
use dynamic_prefix_operator.Prelude.Int.{ℤ}
use dynamic_prefix_operator.Types.{Error, Prefix}
use dynamic_prefix_operator.Receiver.{Receiver}
use dynamic_prefix_operator.Policy.{PolicyError, validate, prefix_policy_for}
use dynamic_prefix_operator.Conditions.{ConditionType}
use dynamic_prefix_operator.Reconciler.Derived.{calculate_requeue_time}
use dynamic_prefix_operator.Reconciler.Given.{World, Notice, Message}
use dynamic_prefix_operator.Reconciler.Held.{
  Entry, Receiving, get_or_create_receiver, report_ra_rejections,
}
use dynamic_prefix_operator.Reconciler.Stored.{
  Cluster, Resource, Status, as_stored, stored_entry, publish, publish_or_log, put_condition,
  owned_dynamic_prefix_status, change_notices,
}
use dynamic_prefix_operator.Reconciler.{
  found, reconcile, pass, with_receiver, by_prefix, without_prefix, judged, accept, reject,
  finish_deletion, add_finalizer, finish, accepted_status,
}

module _ (W : World) where
  -- All of the status but its conditions.
  pub record SameContents (s t : Status W) : Type 0 where
    pub current_prefix : t.current_prefix ≡ s.current_prefix
    pub prefix_source : t.prefix_source ≡ s.prefix_source
    pub lease_expires_at : t.lease_expires_at ≡ s.lease_expires_at
    pub address_ranges : t.address_ranges ≡ s.address_ranges
    pub subnets : t.subnets ≡ s.subnets
    pub history : t.history ≡ s.history

  abbrev pub Unmoved : Resource W → Option (Resource W) → Type 0
  Unmoved dp none = Unit
  Unmoved dp (some stored) = SameContents dp.status stored.status

  -- The stored status is that of a prefix which the receiver has and the policy of the spec accepts.
  pub record Accepted (io : Cluster) (dp : Resource W) (r : Receiving W)
      (stored : Option (Resource W)) : Type 0 where
    pub prefix : Prefix
    pub had : Receiver.current_prefix (World.receiver W) r ≡ some prefix
    pub valid : validate (prefix_policy_for dp.acquisition.prefix_filter) prefix.network ≡ ok tt
    pub status :
        stored
        ≡ some (record dp {
          status = as_stored W (
              accepted_status W io.now dp
                (Receiver.last_error (World.receiver W) r)
                (Receiver.source (World.receiver W) r)
                prefix);
        })

  same-SameContents : (s : Status W) → SameContents s s
  same-SameContents s = record {
    current_prefix = refl;
    prefix_source = refl;
    lease_expires_at = refl;
    address_ranges = refl;
    subnets = refl;
    history = refl;
  }

  put-SameContents :
      (dp : Resource W) (now : ℤ) (type : ConditionType) (holds : Bool) (reason : String)
      (m : Message)
      → SameContents dp.status (put_condition W dp now type holds reason m dp.status)
  unfolding put_condition
  put-SameContents dp now type holds reason m = record {
    current_prefix = refl;
    prefix_source = refl;
    lease_expires_at = refl;
    address_ranges = refl;
    subnets = refl;
    history = refl;
  }

  -- The lease and the history have times that the API stores as they are, as all have that were read.
  abbrev pub AsRead : Resource W → Type 0
  AsRead dp = SameContents dp.status (as_stored W dp.status)

  stored-SameContents :
      (s t : Status W)
      → SameContents s (as_stored W s)
      → SameContents s t
      → SameContents s (as_stored W t)
  unfolding as_stored
  stored-SameContents s t read same = record {
    current_prefix = same.current_prefix;
    prefix_source = same.prefix_source;
    lease_expires_at =
        ap (map_option (World.stored_time W)) same.lease_expires_at ∙ read.lease_expires_at;
    address_ranges = same.address_ranges;
    subnets = same.subnets;
    history = ap (map (stored_entry W)) same.history ∙ read.history;
  }

  publish-Unmoved :
      (io : Cluster) (e : Entry W) (dp : Resource W) (s : Status W) (notices : List Notice)
      (after : Option ℤ)
      → AsRead dp
      → SameContents dp.status s
      → Unmoved dp (publish W io e dp s notices after).stored
  unfolding publish
  publish-Unmoved io e dp s notices after read same =
      elim (Bool-cases (
        io.same_status (owned_dynamic_prefix_status W dp.status)
          (owned_dynamic_prefix_status W s))) [
            | inl equal ↦ rw equal (same-SameContents dp.status)
            | inr differs ↦ elim (Bool-cases io.apply_works) [
              | inl works ↦ rw (differs, works) (stored-SameContents dp.status s read same)
              | inr fails ↦ rw (differs, fails) (same-SameContents dp.status)
            ]
          ]

  publish-stored :
      (io : Cluster) (e : Entry W) (dp : Resource W) (s : Status W) (notices : List Notice)
      (after : Option ℤ)
      → Unmoved dp (publish W io e dp s notices after).stored
        ⊎ ((publish W io e dp s notices after).stored ≡ some (record dp { status = as_stored W s }))
  unfolding publish
  publish-stored io e dp s notices after =
      elim (Bool-cases (
        io.same_status (owned_dynamic_prefix_status W dp.status)
          (owned_dynamic_prefix_status W s))) [
            | inl equal ↦ rw equal (inl (same-SameContents dp.status))
            | inr differs ↦ elim (Bool-cases io.apply_works) [
              | inl works ↦ rw (differs, works) (inr refl)
              | inr fails ↦ rw (differs, fails) (inl (same-SameContents dp.status))
            ]
          ]

  -- A pass leaves all but the conditions as it was, or has accepted the prefix of the receiver.
  abbrev pub Justified : Cluster → Entry W → Resource W → Option (Resource W) → Type 0
  Justified io e dp stored =
      Unmoved dp stored
      ⊎ ((r : Receiving W) × ((get_or_create_receiver W e dp.acquisition).2 ≡ ok r)
          × Accepted io dp r stored)

  module _ (io : Cluster) (dp : Resource W) (read : AsRead dp) (d : Entry W) (r : Receiving W)
      (got : (get_or_create_receiver W d dp.acquisition).2 ≡ ok r) where
    judged-Justified :
        (e : Entry W) (notices : List Notice) (p : Prefix) (verdict : Result PolicyError (Unit {0}))
        → Receiver.current_prefix (World.receiver W) r ≡ some p
        → validate (prefix_policy_for dp.acquisition.prefix_filter) p.network ≡ verdict
        → Justified io d dp
            (judged W io e dp notices
              (Receiver.last_error (World.receiver W) r)
              (Receiver.source (World.receiver W) r)
              p
              verdict).stored
    unfolding judged accept reject
    judged-Justified e notices p (err x) had valid =
        inl (publish-Unmoved io e dp _ _ _ read (put-SameContents dp _ _ _ _ _))
    judged-Justified e notices p (ok tt) had valid =
        elim (publish-stored io e dp
          (accepted_status W io.now dp (Receiver.last_error (World.receiver W) r)
            (Receiver.source (World.receiver W) r) p)
          (notices ++ change_notices W dp (Receiver.source (World.receiver W) r) p)
          (some (calculate_requeue_time (World.scaled W) io.now p))) [
            | inl same ↦ inl same
            | inr new ↦ inr (r, got, record { prefix = p; had = had; valid = valid; status = new })
          ]

    without_prefix-Unmoved :
        (e : Entry W) (notices : List Notice) (failure : Option Error)
        → Unmoved dp (without_prefix W io e dp notices failure).stored
    unfolding without_prefix
    without_prefix-Unmoved e notices none =
        publish-Unmoved io e dp _ _ _ read (put-SameContents dp _ _ _ _ _)
    without_prefix-Unmoved e notices (some x) =
        publish-Unmoved io e dp _ _ _ read (put-SameContents dp _ _ _ _ _)

    by_prefix-Justified :
        (e : Entry W) (notices : List Notice) (p : Option Prefix)
        → Receiver.current_prefix (World.receiver W) r ≡ p
        → Justified io d dp
            (by_prefix W io e dp notices
              (Receiver.last_error (World.receiver W) r)
              (Receiver.source (World.receiver W) r)
              p).stored
    unfolding by_prefix
    by_prefix-Justified e notices none had =
        inl (without_prefix-Unmoved e notices (Receiver.last_error (World.receiver W) r))
    by_prefix-Justified e notices (some p) had =
        judged-Justified e notices p
          (validate (prefix_policy_for dp.acquisition.prefix_filter) p.network) had refl

  with_receiver-Justified :
      (io : Cluster) (d : Entry W) (dp : Resource W)
      (got : Entry W × List Notice × Result Error (Receiving W))
      → AsRead dp
      → (get_or_create_receiver W d dp.acquisition).2 ≡ got.2
      → Justified io d dp (with_receiver W io dp got).stored
  unfolding with_receiver publish_or_log
  with_receiver-Justified io d dp (e, notices, err x) read is =
      inl (publish-Unmoved io e dp _ _ _ read (put-SameContents dp _ _ _ _ _))
  with_receiver-Justified io d dp (e, notices, ok r) read is =
      let said = report_ra_rejections io.now e.report (World.rejections W r) in
      by_prefix-Justified io dp read d r is (record e { report = said.0 }) (notices ++ said.1)
        (Receiver.current_prefix (World.receiver W) r) refl

  pass-Justified :
      (deleting has_finalizer : Bool) (io : Cluster) (e : Entry W) (dp : Resource W)
      → AsRead dp
      → Justified io e dp (pass W deleting has_finalizer io e dp).stored
  unfolding pass finish_deletion add_finalizer finish
  pass-Justified true true io e dp read = inl (ground (arith, same-SameContents dp.status))
  pass-Justified true false io e dp read = inl (ground (arith, same-SameContents dp.status))
  pass-Justified false false io e dp read = inl (ground (arith, same-SameContents dp.status))
  pass-Justified false true io e dp read =
      with_receiver-Justified io e dp (get_or_create_receiver W e dp.acquisition) read refl

  -- Whatever a pass over a resource, with the times that the API stores, meets (a receiver that cannot be made, fails, has no prefix or one
  -- that the policy refuses, a deletion, requests that fail), what it stores has the prefix, source,
  -- lease, ranges, subnets and history as they were, or else the status, as it is stored, for a prefix
  -- that the receiver of the resource has now and that the policy of its spec accepts.
  pub reconcile-Justified :
      (io : Cluster) (e : Entry W) (dp : Resource W)
      → AsRead dp
      → Justified io e dp (reconcile W io e (found dp)).stored
  unfolding reconcile
  reconcile-Justified io e dp read = pass-Justified dp.deleting dp.has_finalizer io e dp read
