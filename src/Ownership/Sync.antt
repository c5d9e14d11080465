-- ===== src/Ownership/Sync.antt =====
-- Passes of internal/controller/ownedlist.go over a list that users write too.
use dynamic_prefix_operator.Prelude.{
  ◌≡◌, refl, ap, ◌∙◌, Bool, true, false, ◌||◌, some, List, [], ◌∷◌, ◌++◌, if◌then◌else◌, arith,
  Bool-cases, inl, inr,
}
use dynamic_prefix_operator.Ownership.Texts.{
  Text, text_eq, text_eq_refl, mem, is_blank, Writable, split-join, mem-eq,
}
use dynamic_prefix_operator.Ownership.{
  Netip, canonical_entry, record_entries, parse_ownership_record, format_ownership_record,
  OwnedEntry, preserved, keys_of, write_entries, compute,
}

-- Each text is one that `canonicalEntry` leaves as it is.
abbrev pub Canonical : Netip → List Text → Type 0
Canonical lib [] = Unit
Canonical lib (s ∷ ss) = (canonical_entry lib s ≡ s) × Canonical lib ss

entries_kept :
    (lib : Netip) (ss : List Text) → Writable ss → Canonical lib ss → record_entries lib ss ≡ ss
unfolding record_entries
entries_kept lib [] w c = refl
entries_kept lib (s ∷ ss) w c = rw (w.2, w.0, c.0, entries_kept lib ss w.3 c.1) refl

-- What is recorded is read back: the record of keys that can be written and are canonical is parsed
-- into those keys, and into none where none was recorded.
pub parse-format :
    (lib : Netip) (keys : List Text)
    → Writable keys
    → Canonical lib keys
    → parse_ownership_record lib (some (format_ownership_record keys))
      ≡ record { entries = keys; present = true }
unfolding parse_ownership_record format_ownership_record
parse-format lib [] w c = unfold record_entries in refl
parse-format lib (s ∷ ss) w c =
    rw (split-join s ss w)
      (ap (λ es. record { entries = es; present = true }) (entries_kept lib (s ∷ ss) w c))

append-nil {ℓ} : {A : Type ℓ} (xs : List A) → xs ++ [] ≡ xs
append-nil [] = refl
append-nil (x ∷ xs) = ap (◌∷◌ x) (append-nil xs)

module _ {Item : Type 0} (key_of : Item → Text) where
  -- Whether an item's key is among those recorded.
  abbrev pub recorded : List Text → Item → Bool
  recorded keys item = if is_blank (key_of item) then false else mem (key_of item) keys

  preserved-append :
      (owned : Item → Bool) (xs ys : List Item)
      → preserved owned (xs ++ ys) ≡ preserved owned xs ++ preserved owned ys
  unfolding preserved
  preserved-append owned [] ys = refl
  preserved-append owned (x ∷ xs) ys = ground (arith, preserved-append owned xs ys)

  -- Items whose keys are not recorded are all preserved.
  preserved_all :
      (keys : List Text) (items : List Item)
      → ((k : Text) → mem k (keys_of key_of items) ≡ true → mem k keys ≡ false)
      → preserved (recorded keys) items ≡ items
  unfolding preserved keys_of
  preserved_all keys [] h = refl
  preserved_all keys (x ∷ xs) h = elim (Bool-cases (is_blank (key_of x))) [
    | inl blank ↦ ground (arith, preserved_all keys xs (λ k m. h k (ground arith)))
    | inr keyed ↦
        let mine = h (key_of x) (ground (arith, text_eq_refl (key_of x))) in
        ground (arith, preserved_all keys xs (λ k m. h k (ground arith)))
  ]

  -- No key of a pinned entry is recorded.
  pinned_unrecorded :
      (pinned seen : List Text) (es : List (OwnedEntry Item)) (k : Text)
      → mem k pinned ≡ true
      → mem k (write_entries pinned seen es).1 ≡ false
  unfolding write_entries
  pinned_unrecorded pinned seen [] k h = refl
  pinned_unrecorded pinned seen (e ∷ es) k h = elim (Bool-cases (text_eq k e.key)) [
    | inl same ↦ ground (
      arith,
      mem-eq k e.key pinned same,
      pinned_unrecorded pinned (if is_blank e.key || mem e.key seen then seen else e.key ∷ seen) es
          k h,
    )
    | inr differs ↦ ground (
      arith,
      pinned_unrecorded pinned (if is_blank e.key || mem e.key seen then seen else e.key ∷ seen) es
          k h,
    )
  ]

  -- The entries desired are recognised by their keys afterwards.
  abbrev pub Keyed : List (OwnedEntry Item) → Type 0
  Keyed [] = Unit
  Keyed (e ∷ es) = (key_of e.value ≡ e.key) × Keyed es

  -- What is written is all recorded, so none of it is preserved by the next pass.
  written_owned :
      (keys pinned seen : List Text) (es : List (OwnedEntry Item))
      → Keyed es
      → ((k : Text) → mem k (write_entries pinned seen es).1 ≡ true → mem k keys ≡ true)
      → preserved (recorded keys) (write_entries pinned seen es).0 ≡ []
  unfolding preserved write_entries
  written_owned keys pinned seen [] d h = refl
  written_owned keys pinned seen (e ∷ es) d h =
      let next = if is_blank e.key || mem e.key seen then seen else e.key ∷ seen in
      let rest = written_owned keys pinned next es d.1 in
      elim (Bool-cases (is_blank e.key || mem e.key seen || mem e.key pinned)) [
        | inl skipped ↦ rw skipped (rest (λ k m. h k (rw skipped m)))
        | inr written ↦
            let mine = h e.key (rw written (ground (arith, text_eq_refl e.key))) in
            let others = rest (λ k m. h k (rw written (ground arith))) in ground arith
      ]

  -- The next pass preserves just what this pass preserved, whatever it will write.
  pub preserved-compute :
      (owned : Item → Bool) (existing : List Item) (desired : List (OwnedEntry Item))
      → Keyed desired
      → preserved
          (recorded (compute key_of owned existing desired).1)
          (compute key_of owned existing desired).0
        ≡ preserved owned existing
  unfolding compute
  preserved-compute owned existing desired d =
      let kept = preserved owned existing in
      let added = write_entries (keys_of key_of kept) [] desired in
      preserved-append (recorded added.1) kept added.0
      ∙ rw
          (
            preserved_all added.1 kept
                (λ k m. pinned_unrecorded (keys_of key_of kept) [] desired k m),
            written_owned added.1 (keys_of key_of kept) [] desired d (λ k m. m),
          )
          (append-nil kept)
