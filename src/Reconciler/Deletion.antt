-- ===== src/Reconciler/Deletion.antt =====
-- How internal/controller/dynamicprefix_controller.go lets go of a resource that is being deleted.
use dynamic_prefix_operator.Prelude.{
  ◌≡◌, refl, sym, subst, Bool, true, false, Option, none, some, List, [], ◌∷◌, Result, ok, err,
  arith, ◌||◌, Bool-cases, inl, inr, if◌then◌else◌,
}
use dynamic_prefix_operator.Prelude.Int.{ℤ}
use dynamic_prefix_operator.Reconciler.Given.{World}
use dynamic_prefix_operator.Reconciler.Held.{Entry, cleanup_receiver}
use dynamic_prefix_operator.Reconciler.Held.Running.{cleanup_receiver-none}
use dynamic_prefix_operator.Reconciler.Stored.{Cluster, Resource, Outcome, ApiError, update_failed}
use dynamic_prefix_operator.Reconciler.{found, reconcile, pass, finish_deletion, finish}

module _ (W : World) where
  stored_or : Resource W → Option (Resource W) → Resource W
  stored_or dp none = dp
  stored_or dp (some stored) = stored

  abbrev Left : Type 0
  Left = Entry W × Resource W × Bool

  answered :
      Entry W → Resource W → (Entry W → Resource W → Left) → Result ApiError (Option ℤ) → Left
  answered e dp go (ok after) = (e, dp, true)
  answered e dp go (err x) = go e dp

  next : Resource W → (Entry W → Resource W → Left) → Outcome W → Left
  unfolding answered stored_or
  next dp go o = answered o.entry (stored_or dp o.stored) go o.answer

  -- Passes over a resource one after another, each over what the one before has stored, until one does
  -- not end in an error: what they leave, and whether there was such a one.
  pub retry : List Cluster → Entry W → Resource W → Entry W × Resource W × Bool
  unfolding next
  retry [] e dp = (e, dp, false)
  retry (io ∷ ios) e dp = next dp (retry ios) (reconcile W io e (found dp))

  -- Whether the update succeeds in one of the passes.
  abbrev pub some_update_works : List Cluster → Bool
  some_update_works [] = false
  some_update_works (io ∷ ios) = io.update_works || some_update_works ios

  -- The pass over such a resource.
  deleted : Cluster → Entry W → Resource W → Outcome W
  deleted io e dp = record {
    entry = cleanup_receiver W e;
    stored = some (if io.update_works then record dp { has_finalizer = false } else dp);
    wrote = false;
    notices = [];
    answer = if io.update_works then ok none else err update_failed;
  }

  reconcile-deleted :
      (io : Cluster) (e : Entry W) (dp : Resource W)
      → dp.deleting ≡ true
      → dp.has_finalizer ≡ true
      → reconcile W io e (found dp) ≡ deleted io e dp
  unfolding reconcile pass finish_deletion finish deleted
  reconcile-deleted io e dp leaves kept = elim (Bool-cases io.update_works) [
    | inl works ↦ simp (leaves, kept, works)
    | inr fails ↦ simp (leaves, kept, fails)
  ]

  abbrev LetGo : Left → Type 0
  LetGo (e, dp, done) = (done ≡ true) × (dp.has_finalizer ≡ false) × (e.receiver ≡ none)

  -- A resource that is being deleted is let go: if its update succeeds in any of the passes, however
  -- many failed before, the passes come to an end, with no receiver held for it and without the
  -- finalizer that keeps it in the cluster.
  pub retry-deleted :
      (ios : List Cluster) (e : Entry W) (dp : Resource W)
      → dp.deleting ≡ true
      → dp.has_finalizer ≡ true
      → some_update_works ios ≡ true
      → let (f, stored, done) = retry ios e dp in
        (done ≡ true) × (stored.has_finalizer ≡ false) × (f.receiver ≡ none)
  unfolding retry next deleted
  retry-deleted [] e dp leaves kept works = absurd (cc)
  retry-deleted (io ∷ ios) e dp leaves kept works =
      subst (λ o. LetGo (next dp (retry ios) o)) (sym (reconcile-deleted io e dp leaves kept))
        (elim (Bool-cases io.update_works) [
          | inl now ↦ rw now (refl, refl, cleanup_receiver-none W e)
          | inr later ↦
              rw later (retry-deleted ios (cleanup_receiver W e) dp leaves kept (ground arith))
        ])
