-- ===== src/Ownership/Entries.antt =====
-- What internal/controller/ownership.go claims of a list of candidates, and how it removes repeats.
use dynamic_prefix_operator.Prelude.{
  ◌≡◌, refl, ◌∙◌, not, ◌&&◌, List, [], ◌∷◌, if◌then◌else◌, arith, Bool-cases, inl, inr, map,
}
use dynamic_prefix_operator.Ownership.Texts.{
  Text, text_eq, text_eq_refl, mem, trim_space, Distinct, mem-eq,
}
use dynamic_prefix_operator.Ownership.{
  Netip, canonical_entry, exclude_pinned, not_pinned, pinned_keys, dedupe_preserving_order,
  first_seen,
}

module _ (lib : Netip) where
  -- How an entry is compared with the users' pins, and with other entries.
  abbrev pub pin_key : Text → Text
  pin_key entry = canonical_entry lib (trim_space entry)

  abbrev pub identities : List Text → List Text
  identities items = map (canonical_entry lib) items

  not_pinned-mem :
      (keys candidates : List Text) (k : Text)
      → mem k (map pin_key (not_pinned lib keys candidates))
        ≡ (mem k (map pin_key candidates) && not (mem k keys))
  unfolding not_pinned
  not_pinned-mem keys [] k = refl
  not_pinned-mem keys (c ∷ cs) k = elim (Bool-cases (text_eq k (pin_key c))) [
    | inl same ↦ ground (arith, not_pinned-mem keys cs k, mem-eq k (pin_key c) keys same)
    | inr differs ↦ ground (arith, not_pinned-mem keys cs k)
  ]

  -- The operator claims an entry exactly when it wants it and no user pinned it, in whatever
  -- spelling.
  pub exclude_pinned-mem :
      (candidates pinned : List Text) (k : Text)
      → mem k (map pin_key (exclude_pinned lib candidates pinned))
        ≡ (mem k (map pin_key candidates) && not (mem k (map pin_key pinned)))
  unfolding exclude_pinned pinned_keys
  exclude_pinned-mem candidates [] k = ground arith
  exclude_pinned-mem candidates (p ∷ ps) k = not_pinned-mem (map pin_key (p ∷ ps)) candidates k

  first_seen-mem :
      (items seen : List Text) (k : Text)
      → mem k (identities (first_seen lib seen items))
        ≡ (mem k (identities items) && not (mem k seen))
  unfolding first_seen
  first_seen-mem [] seen k = refl
  first_seen-mem (item ∷ items) seen k =
      let key = canonical_entry lib item in
      let rest = first_seen-mem items (if mem key seen then seen else key ∷ seen) k in
      elim (Bool-cases (text_eq k key)) [
        | inl same ↦ ground (arith, rest, mem-eq k key seen same)
        | inr differs ↦ ground (arith, rest)
      ]

  first_seen-Distinct : (items seen : List Text) → Distinct (identities (first_seen lib seen items))
  unfolding first_seen
  first_seen-Distinct [] seen = tt
  first_seen-Distinct (item ∷ items) seen =
      let key = canonical_entry lib item in
      let rest = first_seen-Distinct items (if mem key seen then seen else key ∷ seen) in
      let once = first_seen-mem items (key ∷ seen) key in
      elim (Bool-cases (mem key seen)) [
        | inl met ↦ ground (arith, rest)
        | inr fresh ↦ ground (arith, rest, once, text_eq_refl key)
      ]

  -- Removing repeats keeps one entry of every identity there was, and no identity twice.
  pub dedupe-Distinct :
      (items : List Text)
      → Distinct (identities (dedupe_preserving_order lib items))
        × ((k : Text)
            → mem k (identities (dedupe_preserving_order lib items)) ≡ mem k (identities items))
  unfolding dedupe_preserving_order
  dedupe-Distinct items =
      (first_seen-Distinct items [], λ k. first_seen-mem items [] k ∙ ground arith)
