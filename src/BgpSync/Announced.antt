-- ===== src/BgpSync/Announced.antt =====
-- What the advertisements of internal/controller/bgpsync_controller.go select, from the pools that the
-- API lists.
use dynamic_prefix_operator.Prelude.{
  ℕ, ◌≡◌, ◌≢◌, ◌↔◌, refl, sym, ap, ◌∙◌, Bool, true, false, not, ◌&&◌, String, Option, none, some,
  List, [], ◌∷◌, ◌++◌, Result, ok, err, Bool-cases, inl, inr,
}
use dynamic_prefix_operator.Prelude.Int.{ℤ}
use dynamic_prefix_operator.Ownership.Texts.{Text, text_eq, Distinct}
use dynamic_prefix_operator.Conditions.{Condition}
use dynamic_prefix_operator.Resource.{SubnetSpec}
use dynamic_prefix_operator.Reconciler.Derived.{advertisement_name}
use dynamic_prefix_operator.BgpSync.{
  get_subnets_with_bgp, Advertisement, Store, LbPool, Api, BgpError, labels_for, community_of,
  expected_advertisements, reconcile_bgp, wanted_spec, build_advertisement_spec, unless_empty,
  pool_selector, find_selector, get_pool_service_selector,
}
use dynamic_prefix_operator.BgpSync.Expected.{Works, AllMade, made_for, reconcile_bgp-made}

true_differs : ◌≢◌ {A = Bool} true false
true_differs h = cc

none_differs : {A : Type 0} (x : A) → ◌≢◌ {A = Option A} none (some x)
none_differs x h = cc

some_eq : {A : Type 0} (x y : A) → ◌≡◌ {A = Option A} (some x) (some y) → x ≡ y
some_eq x y h = cc

listed_in : {A : Type 0} → Result BgpError (List A) → List A
listed_in (ok xs) = xs
listed_in (err e) = []

module _ (Selector : Type 0) (is_empty : Selector → Bool) where
  -- Whether a pool is annotated with the subnet.
  abbrev pub annotated : Text → Text → LbPool Selector is_empty → Bool
  annotated name subnet p = text_eq p.name name && text_eq p.subnet subnet

  abbrev pub none_annotated : Text → Text → List (LbPool Selector is_empty) → Bool
  none_annotated name subnet [] = true
  none_annotated name subnet (p ∷ ps) =
      not (annotated name subnet p) && none_annotated name subnet ps

  -- The pools are listed, the first that is annotated with the subnet can be read, and it has the
  -- selector, which is not empty.
  pub record Supplies (pools : Result BgpError (List (LbPool Selector is_empty)))
      (name subnet : Text) (x : Selector) : Type 0 where
    pub before : List (LbPool Selector is_empty)
    pub pool : LbPool Selector is_empty
    pub after : List (LbPool Selector is_empty)
    pub listed : pools ≡ ok (before ++ pool ∷ after)
    pub unmatched : none_annotated name subnet before ≡ true
    pub matched : annotated name subnet pool ≡ true
    pub readable : pool.selector ≡ ok (some x)
    pub says : is_empty x ≡ false

  taken : Result BgpError (Option Selector) → Option Selector
  taken r = unless_empty Selector is_empty (pool_selector Selector is_empty r)

  taken-some :
      (r : Result BgpError (Option Selector)) (x : Selector)
      → taken r ≡ some x
      → (r ≡ ok (some x)) × (is_empty x ≡ false)
  unfolding taken unless_empty pool_selector
  taken-some (err e) x h = cc
  taken-some (ok none) x h = cc
  taken-some (ok (some y)) x h = elim (Bool-cases (is_empty y)) [
    | inl empty ↦ absurd (none_differs x (sym (rw empty refl) ∙ h))
    | inr says ↦
        let same : y ≡ x = some_eq y x (sym (rw says refl) ∙ h) in
        (ap (λ z. ok (some z)) same, sym (ap is_empty same) ∙ says)
  ]

  find_selector-Supplies :
      (name subnet : Text) (ps : List (LbPool Selector is_empty)) (x : Selector)
      → taken (find_selector Selector is_empty name subnet ps) ≡ some x
      → Supplies (ok ps) name subnet x
  unfolding find_selector taken unless_empty pool_selector listed_in
  find_selector-Supplies name subnet [] x h = cc
  find_selector-Supplies name subnet (p ∷ ps) x h = elim (Bool-cases (annotated name subnet p)) [
    | inl matched ↦
        let read = taken-some p.selector x (sym (rw matched refl) ∙ h) in
        record {
          before = [];
          pool = p;
          after = ps;
          listed = refl;
          unmatched = refl;
          matched = matched;
          readable = read.0;
          says = read.1;
        }
    | inr other ↦
        let rest = find_selector-Supplies name subnet ps x (sym (rw other refl) ∙ h) in
        record {
          before = p ∷ rest.before;
          pool = rest.pool;
          after = rest.after;
          listed = ap (λ r. ok (p ∷ listed_in r)) rest.listed;
          unmatched = rw (other, rest.unmatched) refl;
          matched = rest.matched;
          readable = rest.readable;
          says = rest.says;
        }
  ]

  find_selector-first :
      (name subnet : Text) (before after : List (LbPool Selector is_empty))
      (p : LbPool Selector is_empty)
      → none_annotated name subnet before ≡ true
      → annotated name subnet p ≡ true
      → find_selector Selector is_empty name subnet (before ++ p ∷ after) ≡ p.selector
  unfolding find_selector
  find_selector-first name subnet [] after p u m = rw m refl
  find_selector-first name subnet (q ∷ before) after p u m =
      elim (Bool-cases (annotated name subnet q)) [
        | inl matched ↦ absurd (true_differs (sym u ∙ rw matched refl))
        | inr other ↦
            rw other (find_selector-first name subnet before after p (sym (rw other refl) ∙ u) m)
      ]

  -- A selector is announced exactly when the pools supply it.
  announced_iff :
      (pools : Result BgpError (List (LbPool Selector is_empty))) (name subnet : Text)
      (x : Selector)
      → (taken (get_pool_service_selector Selector is_empty pools name subnet) ≡ some x)
        ↔ Supplies pools name subnet x
  unfolding get_pool_service_selector taken unless_empty pool_selector
  announced_iff pools name subnet x = (forth pools, back)
    where
      forth :
          (ps : Result BgpError (List (LbPool Selector is_empty)))
          → taken (get_pool_service_selector Selector is_empty ps name subnet) ≡ some x
          → Supplies ps name subnet x
      forth (err e) h = cc
      forth (ok ps) h = find_selector-Supplies name subnet ps x h

      back :
          Supplies pools name subnet x
          → taken (get_pool_service_selector Selector is_empty pools name subnet) ≡ some x
      back s =
          rw
            (
              s.listed,
              find_selector-first name subnet s.before s.after s.pool s.unmatched s.matched,
            )
            (rw s.readable (rw s.says refl))

  -- An advertisement of a subnet of a resource: its labels, its community, and a selector exactly when
  -- the pools supply it. One without a selector announces every Service.
  pub record Announces (api : Api Selector is_empty) (name : Text) (s : SubnetSpec)
      (adv : Option (Advertisement Selector is_empty)) : Type 0 where
    pub selector : Option Selector
    pub there :
        adv
        ≡ some (record {
          labels = labels_for Selector is_empty name s;
          spec = some (record { selector = selector; community = community_of s.bgp });
        })
    pub supplied : (x : Selector) → (selector ≡ some x) ↔ Supplies api.pools name s.name x

  made-Announces :
      (api : Api Selector is_empty) (name : Text) (s : SubnetSpec)
      (adv : Option (Advertisement Selector is_empty))
      → adv ≡ some (made_for Selector is_empty api name s)
      → Announces api name s adv
  unfolding wanted_spec build_advertisement_spec taken
  made-Announces api name s adv made = record {
    selector = taken (get_pool_service_selector Selector is_empty api.pools name s.name);
    there = made;
    supplied = λ x. announced_iff api.pools name s.name x;
  }

  abbrev pub AllAnnounced :
      Api Selector is_empty → Text → List SubnetSpec → Store Selector is_empty → Type 0
  AllAnnounced api name [] store = Unit
  AllAnnounced api name (s ∷ ss) store =
      Announces api name s (store (advertisement_name name s.name)) × AllAnnounced api name ss store

  AllMade-AllAnnounced :
      (api : Api Selector is_empty) (name : Text) (ss : List SubnetSpec)
      (store : Store Selector is_empty)
      → AllMade Selector is_empty api name ss store
      → AllAnnounced api name ss store
  AllMade-AllAnnounced api name [] store made = tt
  AllMade-AllAnnounced api name (s ∷ ss) store made =
      (made-Announces api name s _ made.0, AllMade-AllAnnounced api name ss store made.1)

  -- With an API that reads, lists, creates and updates the advertisements it is asked to and writes the
  -- condition, with a comparison of specs that is exact, and where no two advertised subnets of the
  -- resource have one name: a pass ends without an error, also where
  -- the pools cannot be listed or read and where deletions fail; and each of those subnets has its
  -- advertisement, with the labels of the resource and the subnet, the community of its spec, and a
  -- selector exactly when the first pool that is annotated with the subnet can be read and has one
  -- that is not empty, and with no selector, so for every Service, in all other cases.
  pub reconcile_bgp-announced :
      (api : Api Selector is_empty) (name : Text) (subnets : List SubnetSpec)
      (existing : Option Condition) (generation : ℕ) (now : ℤ) (say : String → ℕ → Text)
      (store : Store Selector is_empty)
      → Works Selector is_empty api
      → api.list_fails ≡ false
      → api.apply_fails ≡ false
      → Distinct (expected_advertisements Selector is_empty name (get_subnets_with_bgp subnets))
      → let o =
          reconcile_bgp Selector is_empty api name subnets existing generation now say store in
        AllAnnounced api name (get_subnets_with_bgp subnets) o.store × (o.errors ≡ [])
  reconcile_bgp-announced api name subnets existing generation now say store w lists applies d =
      let made =
        reconcile_bgp-made Selector is_empty api name subnets existing generation now say store w
          lists applies d in
      (AllMade-AllAnnounced api name (get_subnets_with_bgp subnets) _ made.0, made.1)
