-- ===== src/Reconciler/Passes.antt =====
-- What the passes of internal/controller/dynamicprefix_controller.go keep, in any order, and when a
-- resource is looked at again.
use dynamic_prefix_operator.Prelude.{
  ◌≡◌, sym, subst, Bool, true, false, Option, none, some, List, ◌++◌, Result, ok, err, arith,
}
use dynamic_prefix_operator.Prelude.Int.{ℤ, pos, ◌≤ℤ◌}
use dynamic_prefix_operator.Types.{Error, Prefix, Source}
use dynamic_prefix_operator.Receiver.{Receiver}
use dynamic_prefix_operator.Policy.{PolicyError, validate, prefix_policy_for}
use dynamic_prefix_operator.Reconciler.Given.{World, Notice}
use dynamic_prefix_operator.Reconciler.Held.{
  Entry, Receiving, get_or_create_receiver, report_ra_rejections, RejectionReport,
}
use dynamic_prefix_operator.Reconciler.Held.Running.{
  running, Tidy, CreatesIdle, get_or_create_receiver-Tidy, cleanup_receiver-Tidy,
}
use dynamic_prefix_operator.Reconciler.Stored.{
  Cluster, Resource, Status, publish, publish_or_log, ApiError,
}
use dynamic_prefix_operator.Reconciler.{
  Found, not_found, failed_get, found, reconcile, pass, with_receiver, by_prefix, without_prefix,
  judged, accept, reject, finish_deletion, add_finalizer, finish,
}
use dynamic_prefix_operator.Reconciler.Derived.{calculate_requeue_time}

module _ (W : World) where
  publish-entry :
      (io : Cluster) (e : Entry W) (dp : Resource W) (s : Status W) (notices : List Notice)
      (after : Option ℤ)
      → (publish W io e dp s notices after).entry ≡ e
  unfolding publish
  publish-entry io e dp s notices after = ground arith

  by_prefix-entry :
      (io : Cluster) (e : Entry W) (dp : Resource W) (notices : List Notice)
      (failure : Option Error) (source : Source) (p : Option Prefix)
      → (by_prefix W io e dp notices failure source p).entry ≡ e
  unfolding by_prefix without_prefix
  by_prefix-entry io e dp notices none source none = publish-entry io e dp _ _ _
  by_prefix-entry io e dp notices (some x) source none = publish-entry io e dp _ _ _
  by_prefix-entry io e dp notices failure source (some p) =
      judged-entry (validate (prefix_policy_for dp.acquisition.prefix_filter) p.network)
    where
      judged-entry :
          (r : Result PolicyError (Unit {0}))
          → (judged W io e dp notices failure source p r).entry ≡ e
      judged-entry (ok _) = publish-entry io e dp _ _ _
      judged-entry (err x) = publish-entry io e dp _ _ _

  report-Tidy :
      (e : Entry W) (report : Option RejectionReport)
      → Tidy W e
      → Tidy W (record e { report = report })
  report-Tidy e report v = record {
    held = v.held;
    stopped = v.stopped;
    recorded = v.recorded;
    forwarded = v.forwarded;
  }

  with_receiver-Tidy :
      (io : Cluster) (dp : Resource W) (got : Entry W × List Notice × Result Error (Receiving W))
      → Tidy W got.0
      → Tidy W (with_receiver W io dp got).entry
  unfolding with_receiver publish_or_log
  with_receiver-Tidy io dp (e, notices, err x) v =
      subst (Tidy W) (sym (publish-entry io e dp _ _ _)) v
  with_receiver-Tidy io dp (e, notices, ok r) v =
      let said = report_ra_rejections io.now e.report (World.rejections W r) in
      subst (Tidy W)
        (sym (
          by_prefix-entry io (record e { report = said.0 }) dp (notices ++ said.1)
            (Receiver.last_error (World.receiver W) r) (Receiver.source (World.receiver W) r)
            (Receiver.current_prefix (World.receiver W) r)))
        (report-Tidy e said.0 v)

  finish_deletion-Tidy :
      (io : Cluster) (e : Entry W) (dp : Resource W)
      → Tidy W e
      → Tidy W (finish_deletion W io e dp).entry
  unfolding finish_deletion finish
  finish_deletion-Tidy io e dp v = ground (arith, cleanup_receiver-Tidy W e v)

  add_finalizer-Tidy :
      (io : Cluster) (e : Entry W) (dp : Resource W)
      → Tidy W e
      → Tidy W (add_finalizer W io e dp).entry
  unfolding add_finalizer finish
  add_finalizer-Tidy io e dp v = ground arith

  pass-Tidy :
      (deleting has_finalizer : Bool) (io : Cluster) (e : Entry W) (dp : Resource W)
      → CreatesIdle W
      → Tidy W e
      → Tidy W (pass W deleting has_finalizer io e dp).entry
  unfolding pass
  pass-Tidy true true io e dp idle v = finish_deletion-Tidy io e dp v
  pass-Tidy true false io e dp idle v = finish_deletion-Tidy io e dp v
  pass-Tidy false false io e dp idle v = add_finalizer-Tidy io e dp v
  pass-Tidy false true io e dp idle v =
      with_receiver-Tidy io dp (get_or_create_receiver W e dp.acquisition)
        (get_or_create_receiver-Tidy W e dp.acquisition idle v)

  reconcile-Tidy :
      (io : Cluster) (e : Entry W) (f : Found W)
      → CreatesIdle W
      → Tidy W e
      → Tidy W (reconcile W io e f).entry
  unfolding reconcile
  reconcile-Tidy io e not_found idle v = cleanup_receiver-Tidy W e v
  reconcile-Tidy io e failed_get idle v = v
  reconcile-Tidy io e (found dp) idle v = pass-Tidy dp.deleting dp.has_finalizer io e dp idle v

  -- A pass over whatever is read, or the held receiver at work.
  pub data Step : Entry W → Entry W → Type 0 where
    passes : (io : Cluster) (f : Found W) (e : Entry W) → Step e (reconcile W io e f).entry
    works :
        (r s : Receiving W) (e : Entry W)
        → e.receiver ≡ some r
        → running W s ≡ running W r
        → Step e (record e { receiver = some s })

  pub data Reach (e : Entry W) : Entry W → Type 0 where
    here : Reach e e
    next : {d f : Entry W} → Reach e d → Step d f → Reach e f

  Step-Tidy : {d e : Entry W} → CreatesIdle W → Step d e → Tidy W d → Tidy W e
  Step-Tidy idle (passes io f e) v = reconcile-Tidy io e f idle v
  Step-Tidy idle (works r s e held same) v = ground arith

  -- With a factory whose receivers do not run before they are started, from maps in order, as empty
  -- ones are: after any passes, over any versions of the resource, with requests that succeed or
  -- fail, and with the receivers at work in between, a receiver runs exactly while it is held, a
  -- spec is recorded exactly while one is, and so, where there is a queue for them, are its events
  -- forwarded; every receiver let go is stopped.
  pub Reach-Tidy : {d e : Entry W} → CreatesIdle W → Tidy W d → Reach d e → Tidy W e
  Reach-Tidy idle v here = v
  Reach-Tidy idle v (next path last) = Step-Tidy idle last (Reach-Tidy idle v path)

  -- How long a pass lets the resource be: an error is retried at once.
  abbrev pub Soon : Result ApiError (Option ℤ) → Type 0
  Soon (ok none) = ⊥
  Soon (ok (some t)) = (pos 1_000_000_000 ≤ℤ t) × (t ≤ℤ pos 300_000_000_000)
  Soon (err x) = Unit

  calculate_requeue_time_bounds :
      (now : ℤ) (p : Prefix)
      → let t = calculate_requeue_time (World.scaled W) now p in
        (pos 1_000_000_000 ≤ℤ t) × (t ≤ℤ pos 300_000_000_000)
  unfolding calculate_requeue_time
  calculate_requeue_time_bounds now p = ground arith

  publish-Soon :
      (io : Cluster) (e : Entry W) (dp : Resource W) (s : Status W) (notices : List Notice) (t : ℤ)
      → pos 1_000_000_000 ≤ℤ t
      → t ≤ℤ pos 300_000_000_000
      → Soon (publish W io e dp s notices (some t)).answer
  unfolding publish
  publish-Soon io e dp s notices t low high = ground arith

  judged-Soon :
      (io : Cluster) (e : Entry W) (dp : Resource W) (notices : List Notice)
      (failure : Option Error) (source : Source) (p : Prefix) (r : Result PolicyError (Unit {0}))
      → Soon (judged W io e dp notices failure source p r).answer
  unfolding judged accept reject
  judged-Soon io e dp notices failure source p (ok _) =
      let t = calculate_requeue_time_bounds io.now p in publish-Soon io e dp _ _ _ t.0 t.1
  judged-Soon io e dp notices failure source p (err x) =
      publish-Soon io e dp _ _ _ (omega arith) (omega arith)

  by_prefix-Soon :
      (io : Cluster) (e : Entry W) (dp : Resource W) (notices : List Notice)
      (failure : Option Error) (source : Source) (p : Option Prefix)
      → Soon (by_prefix W io e dp notices failure source p).answer
  unfolding by_prefix without_prefix
  by_prefix-Soon io e dp notices none source none =
      publish-Soon io e dp _ _ _ (omega arith) (omega arith)
  by_prefix-Soon io e dp notices (some x) source none =
      publish-Soon io e dp _ _ _ (omega arith) (omega arith)
  by_prefix-Soon io e dp notices failure source (some p) =
      judged-Soon io e dp notices failure source p
        (validate (prefix_policy_for dp.acquisition.prefix_filter) p.network)

  with_receiver-Soon :
      (io : Cluster) (dp : Resource W) (got : Entry W × List Notice × Result Error (Receiving W))
      → Soon (with_receiver W io dp got).answer
  unfolding with_receiver publish_or_log
  with_receiver-Soon io dp (e, notices, err x) = (omega arith, omega arith)
  with_receiver-Soon io dp (e, notices, ok r) = by_prefix-Soon io _ dp _ _ _ _

  add_finalizer-Soon :
      (io : Cluster) (e : Entry W) (dp : Resource W) → Soon (add_finalizer W io e dp).answer
  unfolding add_finalizer finish
  add_finalizer-Soon io e dp = ground arith

  pass-Soon :
      (has_finalizer : Bool) (io : Cluster) (e : Entry W) (dp : Resource W)
      → Soon (pass W false has_finalizer io e dp).answer
  unfolding pass
  pass-Soon false io e dp = add_finalizer-Soon io e dp
  pass-Soon true io e dp = with_receiver-Soon io dp (get_or_create_receiver W e dp.acquisition)

  -- No resource is forgotten: a pass over a resource that is not being deleted, whatever its receiver
  -- and the API do, either ends in an error, which is retried, or asks for another pass, in one second
  -- at the least and five minutes at the most.
  pub reconcile-Soon :
      (io : Cluster) (e : Entry W) (dp : Resource W)
      → dp.deleting ≡ false
      → Soon (reconcile W io e (found dp)).answer
  unfolding reconcile
  reconcile-Soon io e dp stays =
      subst (λ d. Soon (pass W d dp.has_finalizer io e dp).answer) (sym stays)
        (pass-Soon dp.has_finalizer io e dp)
