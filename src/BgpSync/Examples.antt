-- ===== src/BgpSync/Examples.antt =====
-- A resource with one advertised subnet, as internal/controller/bgpsync_controller.go sees it.
use dynamic_prefix_operator.Prelude.{
  ℕ, ◌≡◌, refl, Bool, true, false, not, ◌&&◌, String, none, some, [], ◌∷◌, ok, if◌then◌else◌,
}
use dynamic_prefix_operator.Prelude.Int.{pos}
use dynamic_prefix_operator.Ownership.Texts.{Text, mem, Distinct}
use dynamic_prefix_operator.Resource.{SubnetSpec}
use dynamic_prefix_operator.Reconciler.Derived.{advertisement_name}
use dynamic_prefix_operator.BgpSync.{
  Store, Api, operator, get_subnets_with_bgp, expected_advertisements, labelled,
  reconcile_advertisement, reconcile_bgp,
}
use dynamic_prefix_operator.BgpSync.Expected.{
  Works, made_for, reconcile_bgp-other, advertisement_name-shared,
}
use dynamic_prefix_operator.BgpSync.Announced.{AllAnnounced, reconcile_bgp-announced}

abbrev is_empty : ℕ → Bool
is_empty s = false

abbrev api : Api ℕ is_empty
api = record {
  get_fails = λ n. false;
  create_fails = λ n. false;
  update_fails = λ n. false;
  delete_fails = λ n. false;
  list_fails = false;
  apply_fails = false;
  pools = ok [];
  same_spec = λ s t. false;
}

api-Works : Works ℕ is_empty api
api-Works = record {
  gets = λ n. refl;
  creates = λ n. refl;
  updates = λ n. refl;
  exact = λ s t h. cc;
}

-- The subnet "b-c", with a community.
abbrev advertised_subnet : SubnetSpec
advertised_subnet = record {
  name = b'b' ∷ b'-' ∷ b'c' ∷ [];
  offset = pos 0;
  prefix_length = pos 64;
  bgp = some (record { advertise = true; community = b'6' ∷ b':' ∷ b'1' ∷ [] });
}

-- An advertisement "x" of the resource "a", for a subnet that it has no longer.
abbrev before : Store ℕ is_empty
before k = some (record {
  labels = record { managed_by = operator; name = b'a' ∷ []; subnet = b'x' ∷ [] };
  spec = none;
})

abbrev say : String → ℕ → Text
say reason count = []

distinct :
    Distinct (
      expected_advertisements ℕ is_empty
        (b'a' ∷ [])
        (get_subnets_with_bgp (advertised_subnet ∷ [])))
unfolding expected_advertisements get_subnets_with_bgp
distinct = (refl, tt)

unexpected :
    mem (b'x' ∷ []) (
      expected_advertisements ℕ is_empty
        (b'a' ∷ [])
        (get_subnets_with_bgp (advertised_subnet ∷ [])))
    ≡ false
unfolding expected_advertisements get_subnets_with_bgp advertisement_name
unexpected = refl

-- Deletions fail, and the subnet's pool has a selector.
abbrev pooled : Api ℕ is_empty
pooled = record api {
  delete_fails = λ n. true;
  pools =
      ok (
        record { name = b'a' ∷ []; subnet = b'b' ∷ b'-' ∷ b'c' ∷ []; selector = ok (some 5) } ∷ []);
}

pooled-Works : Works ℕ is_empty pooled
pooled-Works = record {
  gets = λ n. refl;
  creates = λ n. refl;
  updates = λ n. refl;
  exact = λ s t h. cc;
}

reconcile_bgp-announced_example :
    let o =
      reconcile_bgp ℕ is_empty pooled
        (b'a' ∷ [])
        (advertised_subnet ∷ [])
        none
        1
        (pos 1)
        say
        before in
    AllAnnounced ℕ is_empty pooled
      (b'a' ∷ [])
      (get_subnets_with_bgp (advertised_subnet ∷ []))
      o.store
    × (o.errors ≡ [])
reconcile_bgp-announced_example =
    reconcile_bgp-announced ℕ is_empty pooled (b'a' ∷ []) (advertised_subnet ∷ []) none 1 (pos 1)
      say before pooled-Works refl refl distinct

reconcile_bgp-other_example :
    (reconcile_bgp ℕ is_empty api
        (b'a' ∷ [])
        (advertised_subnet ∷ [])
        none
        1
        (pos 1)
        say
        before).store
      (b'x' ∷ [])
    ≡ (if (labelled ℕ is_empty (b'a' ∷ []) (before (b'x' ∷ []))
          && not api.list_fails
          && not (api.delete_fails (b'x' ∷ [])))
        then none
        else before (b'x' ∷ []))
reconcile_bgp-other_example =
    reconcile_bgp-other ℕ is_empty api (b'a' ∷ []) (advertised_subnet ∷ []) none 1 (pos 1) say
      before (b'x' ∷ []) unexpected

advertisement_name-shared_example :
    (advertisement_name (b'a' ∷ b'-' ∷ b'b' ∷ []) (b'c' ∷ [])
      ≡ advertisement_name (b'a' ∷ []) advertised_subnet.name)
    × ((reconcile_advertisement ℕ is_empty api (b'a' ∷ []) advertised_subnet before).0
          (advertisement_name (b'a' ∷ b'-' ∷ b'b' ∷ []) (b'c' ∷ []))
        ≡ some (made_for ℕ is_empty api (b'a' ∷ []) advertised_subnet))
advertisement_name-shared_example =
    advertisement_name-shared ℕ is_empty api (b'a' ∷ []) (b'b' ∷ []) (b'c' ∷ []) advertised_subnet
      before api-Works refl
