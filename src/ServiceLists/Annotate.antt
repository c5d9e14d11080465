-- ===== src/ServiceLists/Annotate.antt =====
-- What the pass of internal/controller/servicesync_controller.go that follows a write takes for the
-- user's: the split of the address annotation by the record beside it.
use dynamic_prefix_operator.Prelude.{
  ◌≡◌, ◌≢◌, refl, ap, ◌∙◌, sym, subst, Bool, true, false, not, ◌&&◌, ◌||◌, Option, none, some, List,
  [], ◌∷◌, ◌++◌, map, if◌then◌else◌, arith, Bool-cases, inl, inr,
}
use dynamic_prefix_operator.Net.{NetPrefix}
use dynamic_prefix_operator.Ownership.Texts.{
  Text, text_eq, text_eq_refl, text_eq→eq, mem, mem-eq, is_blank, trim_space, split, join,
  split-join, Writable,
}
use dynamic_prefix_operator.Ownership.{
  Netip, canonical_entry, parse_ownership_record, owns, exclude_pinned, not_pinned,
  dedupe_preserving_order, first_seen, pinned_keys,
}
use dynamic_prefix_operator.Ownership.Entries.{pin_key, exclude_pinned-mem}
use dynamic_prefix_operator.Ownership.Sync.{Canonical, parse-format}
use dynamic_prefix_operator.ServiceLists.{
  keep_pieces, preserve_unowned_ips, final_ips, claimed_ips, put, or_empty, or_removed, LbProvider,
  cilium, kube_vip, AnnotationLists, field_of, release_one, release_service, sync_addresses,
  write_lb_addresses,
}

Writable-append : (xs ys : List Text) → Writable xs → Writable ys → Writable (xs ++ ys)
Writable-append [] ys wx wy = wy
Writable-append (x ∷ xs) ys (a, b, c, d) wy = (a, b, c, Writable-append xs ys d wy)

-- With a record, the test for an empty annotation makes no difference.
preserve-keep_pieces :
    (lib : Netip) (annotation : Text) (entries : List Text) (managed : List NetPrefix)
    → preserve_unowned_ips lib annotation (record { entries = entries; present = true }) managed
      ≡ keep_pieces (owns lib (record { entries = entries; present = true })) (split annotation)
unfolding preserve_unowned_ips keep_pieces
preserve-keep_pieces lib [] entries managed = refl
preserve-keep_pieces lib (c ∷ s) entries managed = refl

keep_pieces-join :
    (mine : Text → Bool) (items : List Text)
    → Writable items
    → keep_pieces mine (split (join items)) ≡ keep_pieces mine items
unfolding keep_pieces
keep_pieces-join mine [] w = refl
keep_pieces-join mine (x ∷ xs) w = ap (keep_pieces mine) (split-join x xs w)

differ : ◌≢◌ {A = Bool} true false
differ h = cc

module _ (lib : Netip) where
  Writable-first_seen :
      (seen items : List Text) → Writable items → Writable (first_seen lib seen items)
  unfolding first_seen
  Writable-first_seen seen [] w = tt
  Writable-first_seen seen (x ∷ xs) (a, b, c, d) =
      let k = canonical_entry lib x in
      let rest = Writable-first_seen (if mem k seen then seen else k ∷ seen) xs d in
      elim (Bool-cases (mem k seen)) [
        | inl met ↦ rw met (
            subst (λ (s : Bool). Writable (first_seen lib (if s then seen else k ∷ seen) xs)) met
              rest)
        | inr fresh ↦ rw fresh (
          a,
          b,
          c,
          subst (λ (s : Bool). Writable (first_seen lib (if s then seen else k ∷ seen) xs)) fresh
              rest,
        )
      ]

  not_pinned-Writable : (keys cs : List Text) → Writable cs → Writable (not_pinned lib keys cs)
  unfolding not_pinned
  not_pinned-Writable keys [] w = tt
  not_pinned-Writable keys (c ∷ cs) (a, b, t, d) =
      elim (Bool-cases (mem (canonical_entry lib (trim_space c)) keys)) [
        | inl pinned ↦ rw pinned (not_pinned-Writable keys cs d)
        | inr free ↦ rw free (a, b, t, not_pinned-Writable keys cs d)
      ]

  not_pinned-Canonical :
      (keys cs : List Text) → Canonical lib cs → Canonical lib (not_pinned lib keys cs)
  unfolding not_pinned
  not_pinned-Canonical keys [] w = tt
  not_pinned-Canonical keys (c ∷ cs) (a, d) =
      elim (Bool-cases (mem (canonical_entry lib (trim_space c)) keys)) [
        | inl pinned ↦ rw pinned (not_pinned-Canonical keys cs d)
        | inr free ↦ rw free (a, not_pinned-Canonical keys cs d)
      ]

  exclude_pinned-Writable :
      (cs pinned : List Text) → Writable cs → Writable (exclude_pinned lib cs pinned)
  unfolding exclude_pinned
  exclude_pinned-Writable cs [] w = w
  exclude_pinned-Writable cs (p ∷ ps) w = not_pinned-Writable (pinned_keys lib (p ∷ ps)) cs w

  exclude_pinned-Canonical :
      (cs pinned : List Text) → Canonical lib cs → Canonical lib (exclude_pinned lib cs pinned)
  unfolding exclude_pinned
  exclude_pinned-Canonical cs [] w = w
  exclude_pinned-Canonical cs (p ∷ ps) w = not_pinned-Canonical (pinned_keys lib (p ∷ ps)) cs w

  -- Texts that are written and printed alike are their own keys.
  map-pin_key : (cs : List Text) → Writable cs → Canonical lib cs → map (pin_key lib) cs ≡ cs
  map-pin_key [] w c = refl
  map-pin_key (x ∷ xs) w c = rw (w.2, c.0, map-pin_key xs w.3 c.1) refl

  -- No entry of the user is taken for the operator's,
  abbrev Kept : (Text → Bool) → List Text → Type 0
  Kept mine [] = Unit
  Kept mine (x ∷ xs) = (mine x ≡ false) × Kept mine xs

  -- and each entry calculated is the operator's or has a key of the user's.
  abbrev Dropped : (Text → Bool) → List Text → List Text → Type 0
  Dropped mine keys [] = Unit
  Dropped mine keys (y ∷ ys) =
      ((mine y || mem (canonical_entry lib y) keys) ≡ true) × Dropped mine keys ys

  drops_all :
      (mine : Text → Bool) (keys seen ys : List Text)
      → Writable ys
      → Dropped mine keys ys
      → ((k : Text) → mem k keys ≡ true → mem k seen ≡ true)
      → keep_pieces mine (first_seen lib seen ys) ≡ []
  unfolding keep_pieces first_seen
  drops_all mine keys seen [] w d cover = refl
  drops_all mine keys seen (y ∷ ys) (a, b, c, w) (e, d) cover =
      let k = canonical_entry lib y in
      elim (Bool-cases (mem k seen)) [
        | inl met ↦ rw met (drops_all mine keys seen ys w d cover)
        | inr fresh ↦ elim (Bool-cases (mine y)) [
          | inl own ↦
              rw
                (
                  fresh,
                  c,
                  own,
                  drops_all mine keys (k ∷ seen) ys w d (λ j m. ground (arith, cover j m)),
                )
                (ground arith)
          | inr other ↦
              let m : mem k keys ≡ true = ground arith in absurd (differ (sym (cover k m) ∙ fresh))
        ]
      ]

  still_covered :
      (keys xs seen : List Text) (h k : Text)
      → mem h seen ≡ true
      → ((text_eq k h || mem k xs) || mem k seen) ≡ true
      → (mem k xs || mem k seen) ≡ true
  still_covered keys xs seen h k met e = elim (Bool-cases (text_eq k h)) [
    | inl same ↦ ground (arith, mem-eq k h seen same)
    | inr differs ↦ ground arith
  ]

  keeps_first :
      (mine : Text → Bool) (keys seen xs ys : List Text)
      → Writable xs
      → Writable ys
      → Kept mine xs
      → Dropped mine keys ys
      → ((k : Text)
          → mem k keys ≡ true
          → (mem k (map (canonical_entry lib) xs) || mem k seen) ≡ true)
      → keep_pieces mine (first_seen lib seen (xs ++ ys)) ≡ first_seen lib seen xs
  unfolding keep_pieces first_seen
  keeps_first mine keys seen [] ys wx wy kept d cover =
      drops_all mine keys seen ys wy d (λ k m. cover k m)
  keeps_first mine keys seen (x ∷ xs) ys (a, b, c, wx) wy (e, kept) d cover =
      let h = canonical_entry lib x in
      elim (Bool-cases (mem h seen)) [
        | inl met ↦ rw met (
            keeps_first mine keys seen xs ys wx wy kept d
              (λ k m. still_covered keys (map (canonical_entry lib) xs) seen h k met (cover k m)))
        | inr fresh ↦
            let rest =
              keeps_first mine keys (h ∷ seen) xs ys wx wy kept d
                (λ k m. ground (arith, cover k m)) in
            rw (fresh, c, e, a, rest) refl
      ]

  map-key : (xs : List Text) → Writable xs → map (pin_key lib) xs ≡ map (canonical_entry lib) xs
  map-key [] w = refl
  map-key (x ∷ xs) w = rw (w.2, map-key xs w.3) refl

  module _ (pre all : List Text) (wp : Writable pre) (wa : Writable all)
      (ca : Canonical lib all) where
    claimed-mem :
        (k : Text)
        → mem k (exclude_pinned lib all pre)
          ≡ (mem k all && not (mem k (map (canonical_entry lib) pre)))
    claimed-mem k =
        sym (
          ap (mem k) (
            map-pin_key (exclude_pinned lib all pre) (exclude_pinned-Writable all pre wa)
              (exclude_pinned-Canonical all pre ca)))
        ∙ exclude_pinned-mem lib all pre k
        ∙ rw (map-pin_key all wa ca, map-key pre wp) refl

    -- The test that the next pass makes of an entry.
    abbrev claims : Text → Bool
    claims t = mem (canonical_entry lib t) (exclude_pinned lib all pre)

    pre-Kept :
        (xs : List Text)
        → ((k : Text)
            → mem k (map (canonical_entry lib) xs) ≡ true
            → mem k (map (canonical_entry lib) pre) ≡ true)
        → Kept claims xs
    pre-Kept [] h = tt
    pre-Kept (x ∷ xs) h =
        let k = canonical_entry lib x in
        let pinned = h k (ground (arith, text_eq_refl k)) in
        (ground (arith, claimed-mem k), pre-Kept xs (λ j m. h j (ground arith)))

    all-Dropped :
        (ys : List Text)
        → Canonical lib ys
        → ((k : Text) → mem k ys ≡ true → mem k all ≡ true)
        → Dropped claims (map (canonical_entry lib) pre) ys
    all-Dropped [] c h = tt
    all-Dropped (y ∷ ys) (e, c) h =
        let wanted = h y (ground (arith, text_eq_refl y)) in
        (rw e (ground (arith, claimed-mem y)), all-Dropped ys c (λ j m. h j (ground arith)))

-- After a write, whatever prefixes are managed by then: of the annotation written and the record beside
-- it, the next pass takes for the user's exactly the entries that this pass preserved, without repeats,
-- so that a rotation or a release removes all that was calculated and nothing else. The entries are not
-- blank, without white space around them or commas in them, and the calculated ones are as `netip`
-- prints them.
pub preserve_unowned_ips-final_ips :
    (lib : Netip) (pre all : List Text) (managed : List NetPrefix)
    → Writable pre
    → Writable all
    → Canonical lib all
    → preserve_unowned_ips lib
        (final_ips lib pre all)
        (parse_ownership_record lib (some (claimed_ips lib pre all)))
        managed
      ≡ dedupe_preserving_order lib pre
unfolding final_ips claimed_ips dedupe_preserving_order owns
preserve_unowned_ips-final_ips lib pre all managed wp wa ca =
    let claimed = exclude_pinned lib all pre in
    let items = first_seen lib [] (pre ++ all) in
    let w = Writable-first_seen lib [] (pre ++ all) (Writable-append pre all wp wa) in
    rw
      (parse-format lib claimed (exclude_pinned-Writable lib all pre wa)
        (exclude_pinned-Canonical lib all pre ca))
      (preserve-keep_pieces lib (join items) claimed managed
        ∙ keep_pieces-join (claims lib pre all wp wa ca) items w
        ∙ keeps_first lib (claims lib pre all wp wa ca) (map (canonical_entry lib) pre) [] pre all
            wp wa (pre-Kept lib pre all wp wa ca pre (λ k m. m))
            (all-Dropped lib pre all wp wa ca all ca (λ k m. m)) (λ k m. ground arith))

put-or_empty : (old : Option Text) (new : Text) → or_empty (put old new).0 ≡ new
unfolding put
put-or_empty old new = elim (Bool-cases (text_eq (or_empty old) new)) [
  | inl same ↦ rw same (text_eq→eq (or_empty old) new same)
  | inr other ↦ rw other refl
]

-- A text that is not empty is there.
put-some : (old : Option Text) (new : Text) → is_blank new ≡ false → (put old new).0 ≡ some new
unfolding put
put-some none new h = elim (Bool-cases (text_eq [] new)) [
  | inl same ↦ absurd (differ (ap is_blank (text_eq→eq [] new same) ∙ h))
  | inr other ↦ rw other refl
]
put-some (some old) new h = elim (Bool-cases (text_eq old new)) [
  | inl same ↦ rw same (ap some (text_eq→eq old new same))
  | inr other ↦ rw other refl
]

-- What a pass found in the annotation of the provider that is the user's.
abbrev pub kept_of : Netip → LbProvider → List NetPrefix → AnnotationLists → List Text
kept_of lib provider managed s =
    preserve_unowned_ips lib (or_empty (field_of provider s))
      (parse_ownership_record lib s.managed_ips) managed

release_one-written :
    (lib : Netip) (pre all : List Text) (record_before field_before : Option Text)
    → is_blank (claimed_ips lib pre all) ≡ false
    → Writable pre
    → Writable all
    → Canonical lib all
    → release_one lib
        (put record_before (claimed_ips lib pre all)).0
        (put field_before (final_ips lib pre all)).0
      ≡ or_removed (join (dedupe_preserving_order lib pre))
unfolding release_one
release_one-written lib pre all record_before field_before h wp wa ca =
    rw
      (
        put-some record_before (claimed_ips lib pre all) h,
        put-or_empty field_before (final_ips lib pre all),
        preserve_unowned_ips-final_ips lib pre all [] wp wa ca,
      )
      refl

-- Releasing a Service after a pass over its addresses that claimed some, with either provider: the
-- annotation of the provider holds exactly what the pass took for the user's, without repeats, or is
-- gone when that is nothing; and the record is gone. The entries are as for a single pass.
pub release_service-sync_addresses :
    (lib : Netip) (provider : LbProvider) (managed : List NetPrefix) (all : List Text)
    (s : AnnotationLists)
    → is_blank (claimed_ips lib (kept_of lib provider managed s) all) ≡ false
    → Writable (kept_of lib provider managed s)
    → Writable all
    → Canonical lib all
    → let released = (release_service lib (sync_addresses lib provider managed all s).0).0 in
      (field_of provider released
        ≡ or_removed (join (dedupe_preserving_order lib (kept_of lib provider managed s))))
      × (released.managed_ips ≡ none)
unfolding release_service sync_addresses write_lb_addresses
release_service-sync_addresses lib cilium managed all s h wp wa ca =
    let pre = kept_of lib cilium managed s in
    let noted = put-some s.managed_ips (claimed_ips lib pre all) h in
    rw noted (
      subst
          (λ (o : Option Text).
            release_one lib o (put s.cilium_ips (final_ips lib pre all)).0
            ≡ or_removed (join (dedupe_preserving_order lib pre)))
          noted (release_one-written lib pre all s.managed_ips s.cilium_ips h wp wa ca),
      refl,
    )
release_service-sync_addresses lib kube_vip managed all s h wp wa ca =
    let pre = kept_of lib kube_vip managed s in
    let noted = put-some s.managed_ips (claimed_ips lib pre all) h in
    rw noted (
      subst
          (λ (o : Option Text).
            release_one lib o (put s.kubevip_ips (final_ips lib pre all)).0
            ≡ or_removed (join (dedupe_preserving_order lib pre)))
          noted (release_one-written lib pre all s.managed_ips s.kubevip_ips h wp wa ca),
      refl,
    )
