-- ===== src/BgpSync.antt =====
-- internal/controller/bgpsync_controller.go: the CiliumBGPAdvertisements of the subnets of a DynamicPrefix
-- that are to be advertised. Advertisements are a map from names, and which requests to the
-- Kubernetes API fail is an argument.
pub mod Expected
pub mod Announced
mod Examples
use dynamic_prefix_operator.Prelude.{
  ℕ, ◌≡◌, Bool, true, false, not, ◌&&◌, ◌||◌, String, Option, none, some, List, [], ◌∷◌, ◌++◌,
  if◌then◌else◌, Result, ok, err, length,
}
use dynamic_prefix_operator.Prelude.Int.{ℤ}
use dynamic_prefix_operator.Ownership.Texts.{Text, text_eq, mem, is_blank}
use dynamic_prefix_operator.Conditions.{Condition, bgp_advertisement_ready, condition_apply_entry}
use dynamic_prefix_operator.Resource.{SubnetSpec, BgpSpec}
use dynamic_prefix_operator.Reconciler.Derived.{advertises, advertisement_name}

-- `getSubnetsWithBGP`
unfoldable pub get_subnets_with_bgp : List SubnetSpec → List SubnetSpec
get_subnets_with_bgp [] = []
get_subnets_with_bgp (s ∷ ss) =
    let rest = get_subnets_with_bgp ss in if advertises s.bgp then s ∷ rest else rest

pub community_of : Option BgpSpec → Text
community_of none = []
community_of (some b) = b.community

-- The values of `LabelManagedBy`, `LabelDynamicPrefixName` and `LabelSubnetName`, "" where one is missing.
pub record Labels : Type 0 where
  pub managed_by : Text
  pub name : Text
  pub subnet : Text

-- "dynamic-prefix-operator"
abbrev pub operator : Text
operator =
    b'd' ∷ b'y' ∷ b'n' ∷ b'a' ∷ b'm' ∷ b'i' ∷ b'c' ∷ b'-' ∷ b'p' ∷ b'r' ∷ b'e' ∷ b'f' ∷ b'i' ∷ b'x'
    ∷ b'-' ∷ b'o' ∷ b'p' ∷ b'e' ∷ b'r' ∷ b'a' ∷ b't' ∷ b'o' ∷ b'r' ∷ []

pub data BgpError : Type 0 where
  list_failed get_failed create_failed update_failed status_failed no_pool unreadable_selector :
      BgpError

-- The service selectors are a parameter, with the test for an empty one.
module _ (Selector : Type 0) (is_empty : Selector → Bool) where
  -- What an advertisement says besides its type: a selector that is not empty, and a community that is
  -- not "".
  pub record AdvertisementSpec : Type 0 where
    pub selector : Option Selector
    pub community : Text

  -- `spec` is none for any other content.
  pub record Advertisement : Type 0 where
    pub labels : Labels
    pub spec : Option AdvertisementSpec

  abbrev pub Store : Type 0
  Store = Text → Option Advertisement

  -- A CiliumLoadBalancerIPPool: its annotations, and its selector, which may be absent or unreadable.
  pub record LbPool : Type 0 where
    pub name : Text
    pub subnet : Text
    pub selector : Result BgpError (Option Selector)

  -- The requests that fail, the comparison of specs, and the pools that are listed.
  pub record Api : Type 0 where
    pub get_fails : Text → Bool
    pub create_fails : Text → Bool
    pub update_fails : Text → Bool
    pub delete_fails : Text → Bool
    pub list_fails : Bool
    pub apply_fails : Bool
    pub pools : Result BgpError (List LbPool)
    pub same_spec : Option AdvertisementSpec → AdvertisementSpec → Bool

  pub find_selector : Text → Text → List LbPool → Result BgpError (Option Selector)
  find_selector name subnet [] = err no_pool
  find_selector name subnet (p ∷ ps) =
      let rest = find_selector name subnet ps in
      if (text_eq p.name name && text_eq p.subnet subnet) then p.selector else rest

  pub get_pool_service_selector :
      Result BgpError (List LbPool) → Text → Text → Result BgpError (Option Selector)
  unfolding find_selector
  get_pool_service_selector (err x) name subnet = err list_failed
  get_pool_service_selector (ok pools) name subnet = find_selector name subnet pools

  -- A selector that cannot be had is left out.
  pub pool_selector : Result BgpError (Option Selector) → Option Selector
  pool_selector (err x) = none
  pool_selector (ok s) = s

  pub unless_empty : Option Selector → Option Selector
  unless_empty none = none
  unless_empty (some s) = if is_empty s then none else some s

  unfoldable pub build_advertisement_spec : SubnetSpec → Option Selector → AdvertisementSpec
  unfolding unless_empty community_of
  build_advertisement_spec subnet selector = record {
    selector = unless_empty selector;
    community = community_of subnet.bgp;
  }

  -- The spec that a subnet's advertisement is to have.
  unfoldable pub wanted_spec : Api → Text → SubnetSpec → AdvertisementSpec
  unfolding get_pool_service_selector pool_selector
  wanted_spec api name subnet =
      build_advertisement_spec subnet
        (pool_selector (get_pool_service_selector api.pools name subnet.name))

  abbrev pub labels_for : Text → SubnetSpec → Labels
  labels_for name subnet = record { managed_by = operator; name = name; subnet = subnet.name }

  abbrev labels_changed : Labels → Text → SubnetSpec → Bool
  labels_changed l name subnet =
      not (text_eq l.managed_by operator)
      || not (text_eq l.name name)
      || not (text_eq l.subnet subnet.name)

  unfoldable pub put : Text → Advertisement → Store → Store
  put n a store k = if text_eq k n then some a else store k

  abbrev pub Reconciled : Type 0
  Reconciled = Store × Option BgpError

  -- With what `Get` finds under the name.
  create_or_update : Api → Text → SubnetSpec → Store → Option Advertisement → Reconciled
  create_or_update api name subnet store none =
      let n = advertisement_name name subnet.name in
      if api.create_fails n then (store, some create_failed) else (
        put n
            (record { labels = labels_for name subnet; spec = some (wanted_spec api name subnet) })
            store,
        none,
      )
  create_or_update api name subnet store (some adv) =
      let n = advertisement_name name subnet.name in
      if not (api.same_spec adv.spec (wanted_spec api name subnet))
        || labels_changed adv.labels name subnet
      then (if api.update_fails n then (store, some update_failed) else (
        put n
            (record { labels = labels_for name subnet; spec = some (wanted_spec api name subnet) })
            store,
        none,
      ))
      else (store, none)

  unfoldable pub reconcile_advertisement : Api → Text → SubnetSpec → Store → Reconciled
  unfolding create_or_update
  reconcile_advertisement api name subnet store =
      if api.get_fails (advertisement_name name subnet.name)
      then (store, some get_failed)
      else create_or_update api name subnet store (store (advertisement_name name subnet.name))

  abbrev cons_error : Option BgpError → List BgpError → List BgpError
  cons_error none es = es
  cons_error (some e) es = e ∷ es

  -- The loop over the subnets: one that fails does not stop the others.
  unfoldable pub reconcile_advertisements :
      Api → Text → List SubnetSpec → Store → Store × List BgpError
  reconcile_advertisements api name [] store = (store, [])
  reconcile_advertisements api name (s ∷ ss) store =
      let first = reconcile_advertisement api name s store in
      let rest = reconcile_advertisements api name ss first.0 in (rest.0, cons_error first.1 rest.1)

  unfoldable pub expected_advertisements : Text → List SubnetSpec → List Text
  expected_advertisements name [] = []
  expected_advertisements name (s ∷ ss) =
      advertisement_name name s.name ∷ expected_advertisements name ss

  -- Whether the list of this resource's advertisements has it.
  abbrev pub labelled : Text → Option Advertisement → Bool
  labelled name none = false
  labelled name (some a) = text_eq a.labels.managed_by operator && text_eq a.labels.name name

  -- A deletion that fails is logged, and the others are made.
  unfoldable pub delete_orphaned_advertisements : Api → Text → List Text → Store → Reconciled
  delete_orphaned_advertisements api name expected store =
      if api.list_fails then (store, some list_failed) else (
        λ k.
            if (labelled name (store k) && not (mem k expected) && not (api.delete_fails k))
            then none
            else store k,
        none,
      )

  is_there : Option Advertisement → Bool
  is_there none = false
  is_there (some a) = true

  all_ready : Api → Store → List Text → Bool
  unfolding is_there
  all_ready api store [] = true
  all_ready api store (n ∷ ns) =
      not (api.get_fails n) && is_there (store n) && all_ready api store ns

  -- `buildBGPCondition`: whether it holds, and its reason.
  unfoldable pub build_bgp_condition : Api → Store → List Text → Bool × String
  unfolding all_ready
  build_bgp_condition api store [] = (false, "NoBGPSubnets")
  build_bgp_condition api store (n ∷ ns) =
      if all_ready api store (n ∷ ns)
      then (true, "AdvertisementsReady")
      else (false, "AdvertisementsPending")

  -- What a pass leaves: the advertisements, the condition if it is written, and the errors.
  pub record BgpOutcome : Type 0 where
    pub store : Store
    pub condition : Option Condition
    pub errors : List BgpError

  -- `updateStatus`, of the condition that the resource has.
  update_status :
      Api
      → Option Condition
      → ℕ
      → ℤ
      → (String → ℕ → Text)
      → Store
      → List Text
      → Option Condition × Option BgpError
  update_status api existing generation now say store names =
      let built = build_bgp_condition api store names in
      let entry =
        condition_apply_entry existing generation now bgp_advertisement_ready built.0 built.1
          (say built.1 (length names)) in
      if not entry.1
      then (none, none)
      else if api.apply_fails
      then (none, some status_failed)
      else (some entry.0, none)

  unfoldable pub reconcile_bgp :
      Api
      → Text
      → List SubnetSpec
      → Option Condition
      → ℕ
      → ℤ
      → (String → ℕ → Text)
      → Store
      → BgpOutcome
  unfolding update_status
  reconcile_bgp api name subnets existing generation now say store =
      let expected = expected_advertisements name (get_subnets_with_bgp subnets) in
      let made = reconcile_advertisements api name (get_subnets_with_bgp subnets) store in
      let kept = delete_orphaned_advertisements api name expected made.0 in
      let status = update_status api existing generation now say kept.0 expected in
      record {
        store = kept.0;
        condition = status.0;
        errors = made.1 ++ cons_error kept.1 (cons_error status.1 []);
      }
