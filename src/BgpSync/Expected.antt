-- ===== src/BgpSync/Expected.antt =====
-- Which advertisements a pass of internal/controller/bgpsync_controller.go leaves.
use mathlib.Core.List.{append_assoc}
use dynamic_prefix_operator.Prelude.{
  ℕ, ◌≡◌, refl, ap, ◌∙◌, Bool, true, false, not, ◌&&◌, ◌||◌, String, Option, none, some, List, [],
  ◌∷◌, ◌++◌, if◌then◌else◌, arith, Bool-cases, inl, inr,
}
use dynamic_prefix_operator.Prelude.Int.{ℤ}
use dynamic_prefix_operator.Ownership.Texts.{Text, text_eq, text_eq→eq, text_eq_refl, mem, Distinct}
use dynamic_prefix_operator.Conditions.{Condition}
use dynamic_prefix_operator.Resource.{SubnetSpec}
use dynamic_prefix_operator.Reconciler.Derived.{advertisement_name}
use dynamic_prefix_operator.BgpSync.{
  get_subnets_with_bgp, AdvertisementSpec, Advertisement, Labels, Store, Api, wanted_spec,
  labels_for, operator, put, reconcile_advertisement, create_or_update, reconcile_advertisements,
  expected_advertisements, labelled, labels_changed, delete_orphaned_advertisements, reconcile_bgp,
  update_status,
}

or_true : (b : Bool) → (b || true) ≡ true
or_true true = refl
or_true false = refl

shared_name :
    (a b c n : Text)
    → n ≡ b ++ b'-' ∷ c
    → advertisement_name (a ++ b'-' ∷ b) c ≡ advertisement_name a n
unfolding advertisement_name
shared_name a b c n named = rw named (simp append_assoc)

module _ (Selector : Type 0) (is_empty : Selector → Bool) where
  -- An advertisement as a subnet of a resource is to have it.
  abbrev pub made_for : Api Selector is_empty → Text → SubnetSpec → Advertisement Selector is_empty
  made_for api name s = record {
    labels = labels_for Selector is_empty name s;
    spec = some (wanted_spec Selector is_empty api name s);
  }

  -- Another name is left alone.
  create_or_update-other :
      (api : Api Selector is_empty) (name : Text) (s : SubnetSpec) (store : Store Selector is_empty)
      (adv : Option (Advertisement Selector is_empty)) (k : Text)
      → text_eq k (advertisement_name name s.name) ≡ false
      → (create_or_update Selector is_empty api name s store adv).0 k ≡ store k
  unfolding create_or_update put
  create_or_update-other api name s store none k other = ground arith
  create_or_update-other api name s store (some adv) k other = ground arith

  reconcile_advertisement-other :
      (api : Api Selector is_empty) (name : Text) (s : SubnetSpec) (store : Store Selector is_empty)
      (k : Text)
      → text_eq k (advertisement_name name s.name) ≡ false
      → (reconcile_advertisement Selector is_empty api name s store).0 k ≡ store k
  unfolding reconcile_advertisement
  reconcile_advertisement-other api name s store k other =
      ground
        (arith, create_or_update-other api name s store (store (advertisement_name name s.name)) k)

  reconcile_advertisements-other :
      (api : Api Selector is_empty) (name : Text) (ss : List SubnetSpec)
      (store : Store Selector is_empty) (k : Text)
      → mem k (expected_advertisements Selector is_empty name ss) ≡ false
      → (reconcile_advertisements Selector is_empty api name ss store).0 k ≡ store k
  unfolding reconcile_advertisements expected_advertisements
  reconcile_advertisements-other api name [] store k other = refl
  reconcile_advertisements-other api name (s ∷ ss) store k other =
      reconcile_advertisements-other api name ss
        (reconcile_advertisement Selector is_empty api name s store).0 k (ground arith)
      ∙ reconcile_advertisement-other api name s store k (ground arith)

  delete-other :
      (api : Api Selector is_empty) (name : Text) (expected : List Text)
      (store : Store Selector is_empty) (k : Text)
      → mem k expected ≡ false
      → (delete_orphaned_advertisements Selector is_empty api name expected store).0 k ≡ (
          if (labelled Selector is_empty name (store k)
            && not api.list_fails
            && not (api.delete_fails k))
          then none
          else store k)
  unfolding delete_orphaned_advertisements
  delete-other api name expected store k other = ground arith

  delete-expected :
      (api : Api Selector is_empty) (name : Text) (expected : List Text)
      (store : Store Selector is_empty) (k : Text)
      → mem k expected ≡ true
      → (delete_orphaned_advertisements Selector is_empty api name expected store).0 k ≡ store k
  unfolding delete_orphaned_advertisements
  delete-expected api name expected store k there = ground arith

  -- Whatever requests fail: an advertisement under a name that no advertised subnet of the resource has
  -- is deleted if it is labelled as the resource's, the list is read and its deletion succeeds, and it
  -- is left as it was in every other case.
  pub reconcile_bgp-other :
      (api : Api Selector is_empty) (name : Text) (subnets : List SubnetSpec)
      (existing : Option Condition) (generation : ℕ) (now : ℤ) (say : String → ℕ → Text)
      (store : Store Selector is_empty) (k : Text)
      → mem k (expected_advertisements Selector is_empty name (get_subnets_with_bgp subnets))
        ≡ false
      → (reconcile_bgp Selector is_empty api name subnets existing generation now say store).store k
        ≡ (if (labelled Selector is_empty name (store k)
              && not api.list_fails
              && not (api.delete_fails k))
            then none
            else store k)
  unfolding reconcile_bgp
  reconcile_bgp-other api name subnets existing generation now say store k other =
      let ss = get_subnets_with_bgp subnets in
      delete-other api name (expected_advertisements Selector is_empty name ss)
        (reconcile_advertisements Selector is_empty api name ss store).0 k other
      ∙ ap
          (λ v.
            if (labelled Selector is_empty name v && not api.list_fails && not (api.delete_fails k))
            then none
            else v)
          (reconcile_advertisements-other api name ss store k other)

  -- An API that reads and writes all it is asked to, with a comparison of specs that is exact.
  pub record Works (api : Api Selector is_empty) : Type 0 where
    pub gets : (n : Text) → api.get_fails n ≡ false
    pub creates : (n : Text) → api.create_fails n ≡ false
    pub updates : (n : Text) → api.update_fails n ≡ false
    pub exact :
        (spec : Option (AdvertisementSpec Selector is_empty))
        (wanted : AdvertisementSpec Selector is_empty)
        → api.same_spec spec wanted ≡ true
        → spec ≡ some wanted

  abbrev pub AllMade :
      Api Selector is_empty → Text → List SubnetSpec → Store Selector is_empty → Type 0
  AllMade api name [] store = Unit
  AllMade api name (s ∷ ss) store =
      (store (advertisement_name name s.name) ≡ some (made_for api name s))
      × AllMade api name ss store

  labels-eq :
      (l : Labels) (name : Text) (s : SubnetSpec)
      → labels_changed Selector is_empty l name s ≡ false
      → l ≡ labels_for Selector is_empty name s
  labels-eq l name s h =
      let p : l.managed_by ≡ operator = text_eq→eq l.managed_by operator (ground arith) in
      let q : l.name ≡ name = text_eq→eq l.name name (ground arith) in
      let r : l.subnet ≡ s.name = text_eq→eq l.subnet s.name (ground arith) in
      λ i. record { managed_by = p i; name = q i; subnet = r i }

  Advertisement-eq :
      (a b : Advertisement Selector is_empty) → a.labels ≡ b.labels → a.spec ≡ b.spec → a ≡ b
  Advertisement-eq a b p q = λ i. record { labels = p i; spec = q i }

  create_or_update-made :
      (api : Api Selector is_empty) (name : Text) (s : SubnetSpec) (store : Store Selector is_empty)
      (adv : Option (Advertisement Selector is_empty))
      → Works api
      → store (advertisement_name name s.name) ≡ adv
      → ((create_or_update Selector is_empty api name s store adv).0
            (advertisement_name name s.name)
          ≡ some (made_for api name s))
        × ((create_or_update Selector is_empty api name s store adv).1 ≡ none)
  unfolding create_or_update put
  create_or_update-made api name s store none w was =
      let n = advertisement_name name s.name in rw (w.creates n) (rw (text_eq_refl n) (refl, refl))
  create_or_update-made api name s store (some adv) w was =
      let n = advertisement_name name s.name in
      let wanted = wanted_spec Selector is_empty api name s in
      elim (Bool-cases (api.same_spec adv.spec wanted)) [
        | inr differs ↦ rw (differs, w.updates n) (rw (text_eq_refl n) (refl, refl))
        | inl same ↦ elim (Bool-cases (labels_changed Selector is_empty adv.labels name s)) [
          | inl moved ↦ rw (same, moved, w.updates n) (rw (text_eq_refl n) (refl, refl))
          | inr kept ↦
              rw (same, kept)
                (
                  was
                      ∙ ap some (
                          Advertisement-eq adv (made_for api name s)
                            (labels-eq adv.labels name s kept) (w.exact adv.spec wanted same)),
                  refl,
                )
        ]
      ]

  reconcile_advertisement-made :
      (api : Api Selector is_empty) (name : Text) (s : SubnetSpec) (store : Store Selector is_empty)
      → Works api
      → ((reconcile_advertisement Selector is_empty api name s store).0
            (advertisement_name name s.name)
          ≡ some (made_for api name s))
        × ((reconcile_advertisement Selector is_empty api name s store).1 ≡ none)
  unfolding reconcile_advertisement
  reconcile_advertisement-made api name s store w =
      rw (w.gets (advertisement_name name s.name))
        (create_or_update-made api name s store (store (advertisement_name name s.name)) w refl)

  reconcile_advertisements-made :
      (api : Api Selector is_empty) (name : Text) (ss : List SubnetSpec)
      (store : Store Selector is_empty)
      → Works api
      → Distinct (expected_advertisements Selector is_empty name ss)
      → AllMade api name ss (reconcile_advertisements Selector is_empty api name ss store).0
        × ((reconcile_advertisements Selector is_empty api name ss store).1 ≡ [])
  unfolding reconcile_advertisements expected_advertisements
  reconcile_advertisements-made api name [] store w d = (tt, refl)
  reconcile_advertisements-made api name (s ∷ ss) store w d =
      let first = reconcile_advertisement-made api name s store w in
      let after = (reconcile_advertisement Selector is_empty api name s store).0 in
      let rest = reconcile_advertisements-made api name ss after w d.1 in
      (
        (
          reconcile_advertisements-other api name ss after (advertisement_name name s.name) d.0
              ∙ first.0,
          rest.0,
        ),
        rw (first.1, rest.1) refl,
      )

  AllMade-same :
      (api : Api Selector is_empty) (name : Text) (ss : List SubnetSpec)
      (t u : Store Selector is_empty)
      → ((k : Text) → mem k (expected_advertisements Selector is_empty name ss) ≡ true → t k ≡ u k)
      → AllMade api name ss u
      → AllMade api name ss t
  unfolding expected_advertisements
  AllMade-same api name [] t u same made = tt
  AllMade-same api name (s ∷ ss) t u same made =
      let n = advertisement_name name s.name in
      (
        same n (rw (text_eq_refl n) refl) ∙ made.0,
        AllMade-same api name ss t u (λ k there. same k (rw there (or_true (text_eq k n)))) made.1,
      )

  update_status-errors :
      (api : Api Selector is_empty) (existing : Option Condition) (generation : ℕ) (now : ℤ)
      (say : String → ℕ → Text) (store : Store Selector is_empty) (names : List Text)
      → api.apply_fails ≡ false
      → (update_status Selector is_empty api existing generation now say store names).1 ≡ none
  unfolding update_status
  update_status-errors api existing generation now say store names works = ground arith

  delete-errors :
      (api : Api Selector is_empty) (name : Text) (expected : List Text)
      (store : Store Selector is_empty)
      → api.list_fails ≡ false
      → (delete_orphaned_advertisements Selector is_empty api name expected store).1 ≡ none
  unfolding delete_orphaned_advertisements
  delete-errors api name expected store works = ground arith

  -- With an API that works and compares specs exactly, and where no two advertised subnets of the
  -- resource have one name: a pass ends without an error, and each of those subnets has its
  -- advertisement, with the labels of the resource and the subnet, and with the selector of the
  -- subnet's pool and the community of its spec.
  pub reconcile_bgp-made :
      (api : Api Selector is_empty) (name : Text) (subnets : List SubnetSpec)
      (existing : Option Condition) (generation : ℕ) (now : ℤ) (say : String → ℕ → Text)
      (store : Store Selector is_empty)
      → Works api
      → api.list_fails ≡ false
      → api.apply_fails ≡ false
      → Distinct (expected_advertisements Selector is_empty name (get_subnets_with_bgp subnets))
      → let o =
          reconcile_bgp Selector is_empty api name subnets existing generation now say store in
        AllMade api name (get_subnets_with_bgp subnets) o.store × (o.errors ≡ [])
  unfolding reconcile_bgp
  reconcile_bgp-made api name subnets existing generation now say store w lists applies d =
      let ss = get_subnets_with_bgp subnets in
      let expected = expected_advertisements Selector is_empty name ss in
      let made = (reconcile_advertisements Selector is_empty api name ss store).0 in
      let all = reconcile_advertisements-made api name ss store w d in
      let kept = (delete_orphaned_advertisements Selector is_empty api name expected made).0 in
      (
        AllMade-same api name ss kept made (delete-expected api name expected made) all.0,
        rw
            (
              all.1,
              delete-errors api name expected made lists,
              update_status-errors api existing generation now say kept expected applies,
            )
            refl,
      )

  -- Two subnets of different resources, such as "c" of "a-b" and "b-c" of "a", have one advertisement:
  -- a pass over the second resource, with an API that works, takes the advertisement of the first for
  -- its own.
  pub advertisement_name-shared :
      (api : Api Selector is_empty) (a b c : Text) (s : SubnetSpec)
      (store : Store Selector is_empty)
      → Works api
      → s.name ≡ b ++ b'-' ∷ c
      → (advertisement_name (a ++ b'-' ∷ b) c ≡ advertisement_name a s.name)
        × ((reconcile_advertisement Selector is_empty api a s store).0
              (advertisement_name (a ++ b'-' ∷ b) c)
            ≡ some (made_for api a s))
  advertisement_name-shared api a b c s store w named =
      let same = shared_name a b c s.name named in
      (same, rw same (reconcile_advertisement-made api a s store w).0)
