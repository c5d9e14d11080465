-- ===== src/PoolBackends/Release.antt =====
-- Giving a pool back, `releaseRecordedSlice` of internal/controller/poolsync_backends.go, after the
-- passes of internal/controller/ownedlist.go.
use dynamic_prefix_operator.Prelude.{◌≡◌, refl, ap, ◌∙◌, Bool, true, none, some, List}
use dynamic_prefix_operator.Ownership.Texts.{Text}
use dynamic_prefix_operator.Ownership.{
  Netip, canonical_entry, parse_ownership_record, format_ownership_record, OwnedEntry, Pool,
  preserved, compute, sync_owned_list, is_owned,
}
use dynamic_prefix_operator.Ownership.Sync.{Keyed}
use dynamic_prefix_operator.Ownership.Settles.{Fit, sync-preserved, sync_result}
use dynamic_prefix_operator.PoolBackends.{release_recorded_slice, release_with}

module _ {Item : Type 0} (lib : Netip) (key_of : Item → Text) where
  release-recorded :
      (pool : Pool Item) (value : Text)
      → pool.annotation ≡ some value
      → release_recorded_slice lib key_of pool ≡ (
        record {
          field =
              preserved
                (is_owned lib key_of (parse_ownership_record lib pool.annotation))
                pool.field;
          annotation = none;
        },
        true,
      )
  unfolding release_recorded_slice release_with
  release-recorded pool value h = rw h refl

  -- Releasing a pool after a pass that wrote it, or found it as it should be, leaves exactly the entries
  -- that this pass took for the users', in their order, and no record. Comparing lists is exact, keys
  -- are canonical, and the desired entries have the keys they are recognised by, which a record gives
  -- back as they are.
  pub release-sync :
      (same : List Item → List Item → Bool)
      → (owned : Item → Bool) (desired : List (OwnedEntry Item)) (pool : Pool Item)
      → ((xs ys : List Item) → same xs ys ≡ true → xs ≡ ys)
      → ((item : Item) → canonical_entry lib (key_of item) ≡ key_of item)
      → Fit lib key_of same desired
      → Keyed key_of desired
      → release_recorded_slice lib key_of (sync_owned_list same key_of owned desired pool).0
        ≡ (record { field = preserved owned pool.field; annotation = none }, true)
  release-sync same owned desired pool exact canonical f d =
      let value = format_ownership_record (compute key_of owned pool.field desired).1 in
      let noted =
        ap (λ (p : Pool Item). p.annotation)
          (sync_result lib key_of same owned desired pool exact) in
      release-recorded (sync_owned_list same key_of owned desired pool).0 value noted
      ∙ ap (λ (xs : List Item). (record { field = xs; annotation = none }, true))
          (sync-preserved lib key_of same owned desired pool exact canonical f d)
