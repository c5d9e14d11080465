-- ===== src/Ownership/Settles.antt =====
-- What repeated passes of internal/controller/ownedlist.go do to the object.
use mathlib.Core.Path.{ap₂}
use dynamic_prefix_operator.Prelude.{
  ◌≡◌, refl, ap, ◌∙◌, Bool, true, false, ◌&&◌, ◌||◌, ◌⊎◌, Option, none, some, List, [], ◌∷◌,
  if◌then◌else◌, arith, Bool-cases, inl, inr,
}
use dynamic_prefix_operator.Ownership.Texts.{
  Text, text_eq_refl, text_eq→eq, mem, is_blank, trim_space, Writable, has_comma,
}
use dynamic_prefix_operator.Ownership.{
  Netip, canonical_entry, parse_ownership_record, owns, format_ownership_record, OwnedEntry, Pool,
  preserved, keys_of, write_entries, compute, sync_owned_list, is_owned, same_annotation,
}
use dynamic_prefix_operator.Ownership.Sync.{
  Canonical, parse-format, recorded, Keyed, preserved-compute,
}

same_annotation→eq : (o : Option Text) (t : Text) → same_annotation o t ≡ true → o ≡ some t
unfolding same_annotation
same_annotation→eq none t h = cc
same_annotation→eq (some s) t h = ap some (text_eq→eq s t h)

same_annotation_refl : (t : Text) → same_annotation (some t) t ≡ true
unfolding same_annotation
same_annotation_refl t = text_eq_refl t

module _ {Item : Type 0} (lib : Netip) (key_of : Item → Text)
    (same : List Item → List Item → Bool) where
  -- Each entry desired has no key, or one that a record gives back as it is.
  abbrev pub Fit : List (OwnedEntry Item) → Type 0
  Fit [] = Unit
  Fit (e ∷ es) =
      ((is_blank e.key ≡ true)
        ⊎ ((has_comma e.key ≡ false)
            × (trim_space e.key ≡ e.key)
            × (canonical_entry lib e.key ≡ e.key)))
      × Fit es

  written-Fit :
      (pinned seen : List Text) (es : List (OwnedEntry Item))
      → Fit es
      → Writable (write_entries pinned seen es).1 × Canonical lib (write_entries pinned seen es).1
  unfolding write_entries
  written-Fit pinned seen [] f = (tt, tt)
  written-Fit pinned seen (e ∷ es) f =
      let next = if is_blank e.key || mem e.key seen then seen else e.key ∷ seen in
      let rest = written-Fit pinned next es f.1 in
      elim (Bool-cases (is_blank e.key || mem e.key seen || mem e.key pinned)) [
        | inl skipped ↦ rw skipped rest
        | inr written ↦
            rw written ((ground arith, ground arith, ground arith, rest.0), (ground arith, rest.1))
      ]

  preserved-cong :
      (owned owned' : Item → Bool) (xs : List Item)
      → ((x : Item) → owned x ≡ owned' x)
      → preserved owned xs ≡ preserved owned' xs
  unfolding preserved
  preserved-cong owned owned' [] h = refl
  preserved-cong owned owned' (x ∷ xs) h = rw (h x, preserved-cong owned owned' xs h) refl

  -- The object after a pass, written or found as it should be.
  pub sync_result :
      (owned : Item → Bool) (desired : List (OwnedEntry Item)) (pool : Pool Item)
      → ((xs ys : List Item) → same xs ys ≡ true → xs ≡ ys)
      → (sync_owned_list same key_of owned desired pool).0 ≡ record {
        field = (compute key_of owned pool.field desired).0;
        annotation = some (format_ownership_record (compute key_of owned pool.field desired).1);
      }
  unfolding sync_owned_list
  sync_result owned desired pool exact =
      let result = compute key_of owned pool.field desired in
      elim (Bool-cases (
        same pool.field result.0
        && same_annotation pool.annotation (format_ownership_record result.1))) [
          | inl unchanged ↦
              let here = exact pool.field result.0 (ground arith) in
              let noted =
                same_annotation→eq pool.annotation (format_ownership_record result.1)
                  (ground arith) in
              rw unchanged (
                ap₂ (λ (f : List Item) (a : Option Text). record { field = f; annotation = a }) here
                  noted)
          | inr changed ↦ rw changed refl
        ]

  -- Ownership by the record a pass leaves is being among the keys it recorded.
  owned-recorded :
      (owned : Item → Bool) (desired : List (OwnedEntry Item)) (existing : List Item) (x : Item)
      → ((item : Item) → canonical_entry lib (key_of item) ≡ key_of item)
      → Fit desired
      → let keys = (compute key_of owned existing desired).1 in
        is_owned lib key_of (parse_ownership_record lib (some (format_ownership_record keys))) x
        ≡ recorded key_of keys x
  unfolding is_owned owns compute
  owned-recorded owned desired existing x canonical f =
      let fit = written-Fit (keys_of key_of (preserved owned existing)) [] desired f in
      let keys = (write_entries (keys_of key_of (preserved owned existing)) [] desired).1 in
      rw (parse-format lib keys fit.0 fit.1, canonical x) refl

  -- Whatever a pass found in the list, and whoever owned what in it: once its record is there, the
  -- next pass takes for the users' just the entries that this pass took for theirs, so that it
  -- replaces all that this pass wrote. Comparing lists is exact, keys are canonical, and the desired
  -- entries have the keys they are recognised by, each blank or given back by a record as it is.
  pub sync-preserved :
      (owned : Item → Bool) (desired : List (OwnedEntry Item)) (pool : Pool Item)
      → ((xs ys : List Item) → same xs ys ≡ true → xs ≡ ys)
      → ((item : Item) → canonical_entry lib (key_of item) ≡ key_of item)
      → Fit desired
      → Keyed key_of desired
      → let p = (sync_owned_list same key_of owned desired pool).0 in
        preserved (is_owned lib key_of (parse_ownership_record lib p.annotation)) p.field
        ≡ preserved owned pool.field
  sync-preserved owned desired pool exact canonical f d =
      let keys = (compute key_of owned pool.field desired).1 in
      rw (sync_result owned desired pool exact) (
        preserved-cong
          (is_owned lib key_of (parse_ownership_record lib (some (format_ownership_record keys))))
          (recorded key_of keys) (compute key_of owned pool.field desired).0
          (λ x. owned-recorded owned desired pool.field x canonical f)
        ∙ preserved-compute key_of owned pool.field desired d)

  settled :
      (owned : Item → Bool) (desired : List (OwnedEntry Item)) (result : List Item × List Text)
      → ((xs : List Item) → same xs xs ≡ true)
      → compute key_of owned result.0 desired ≡ result
      → let p : Pool Item = record {
        field = result.0;
        annotation = some (format_ownership_record result.1);
      } in
        sync_owned_list same key_of owned desired p ≡ (p, false)
  unfolding sync_owned_list
  settled owned desired result reflexive again =
      rw (again, reflexive result.0, same_annotation_refl (format_ownership_record result.1)) refl

  compute-cong :
      (owned owned' : Item → Bool) (xs ys : List Item) (desired : List (OwnedEntry Item))
      → preserved owned xs ≡ preserved owned' ys
      → compute key_of owned xs desired ≡ compute key_of owned' ys desired
  unfolding compute
  compute-cong owned owned' xs ys desired h = rw h refl

  -- Under the same conditions, a pass with the same desired entries right after another writes
  -- nothing: comparing lists is exact and reflexive, keys are canonical, and the desired entries have
  -- the keys they are recognised by.
  pub sync-settles :
      (owned : Item → Bool) (desired : List (OwnedEntry Item)) (pool : Pool Item)
      → ((xs ys : List Item) → same xs ys ≡ true → xs ≡ ys)
      → ((xs : List Item) → same xs xs ≡ true)
      → ((item : Item) → canonical_entry lib (key_of item) ≡ key_of item)
      → Fit desired
      → Keyed key_of desired
      → let p = (sync_owned_list same key_of owned desired pool).0 in
        sync_owned_list same key_of
          (is_owned lib key_of (parse_ownership_record lib p.annotation))
          desired
          p
        ≡ (p, false)
  sync-settles owned desired pool exact reflexive canonical f d =
      let result = compute key_of owned pool.field desired in
      let next_owned : Item → Bool =
        is_owned lib key_of
          (parse_ownership_record lib (some (format_ownership_record result.1))) in
      let kept = sync-preserved owned desired pool exact canonical f d in
      rw (sync_result owned desired pool exact) (
        settled next_owned desired result reflexive (
          compute-cong next_owned owned result.0 pool.field desired
            (rw (sync_result owned desired pool exact) at kept)))
