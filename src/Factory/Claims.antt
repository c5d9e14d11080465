-- ===== src/Factory/Claims.antt =====
-- What building a receiver by internal/prefix/factory.go does to the claims of interfaces.
use dynamic_prefix_operator.Prelude.{
  ◌≡◌, refl, ◌⊎◌, ◌>>=◌, false, String, str_eq, str_eq_iff, Option, none, some, List, [], ◌∷◌,
  Result, ok, err, arith, Bool-cases, inl, inr,
}
use dynamic_prefix_operator.Prelude.Int.{ℤ}
use dynamic_prefix_operator.Net.{Addr}
use dynamic_prefix_operator.Policy.{policy_from_spec, Policy, RaPolicy}
use dynamic_prefix_operator.Factory.{
  Dhcpv6PdSpec, RouterAdvertisementSpec, AcquisitionSpec, Built, pd_receiver, ra_receiver,
  composite, FactoryError, is_claimed, release, claim_pd_interface, Created, after_claim,
  create_dhcpv6_pd_receiver, create_ra_receiver, ra_policy_from_spec, with_primary, with_fallback,
  with_policy, create_composite_receiver, enabled_ra, by_method, create_receiver, interface_busy,
  pd_interface_required, requested_length,
}

-- The claims there were, with that of the DHCPv6-PD client that is built, if one is.
abbrev pub claims_after : List String → Result FactoryError Built → List String
claims_after claims (err e) = claims
claims_after claims (ok (pd_receiver iface n p)) = iface ∷ claims
claims_after claims (ok (ra_receiver iface p)) = claims
claims_after claims (ok (composite p f)) = claims_after claims (ok p)

-- The interface of the client that is built had no client before.
abbrev pub WasFree : List String → Result FactoryError Built → Type 0
WasFree claims (err e) = Unit
WasFree claims (ok (pd_receiver iface n p)) = is_claimed iface claims ≡ false
WasFree claims (ok (ra_receiver iface p)) = Unit
WasFree claims (ok (composite p f)) = WasFree claims (ok p)

abbrev pub Accounted : List String → Created → Type 0
Accounted claims x = (x.0 ≡ claims_after claims x.1) × WasFree claims x.1

release_unclaimed :
    (iface : String) (claims : List String)
    → is_claimed iface claims ≡ false
    → release iface claims ≡ claims
unfolding release
release_unclaimed iface [] h = refl
release_unclaimed iface (c ∷ cs) h = ground (arith, release_unclaimed iface cs)

-- A client is built for a free interface, or none is and nothing is claimed.
pd-cases :
    (spec : Dhcpv6PdSpec) (policy : Policy) (claims : List String)
    → ((e : FactoryError) × (create_dhcpv6_pd_receiver spec policy claims ≡ (claims, err e)))
      ⊎ ((n : ℤ) × (create_dhcpv6_pd_receiver spec policy claims
            ≡ (spec.interface ∷ claims, ok (pd_receiver spec.interface n policy)))
          × (is_claimed spec.interface claims ≡ false))
unfolding create_dhcpv6_pd_receiver after_claim claim_pd_interface
pd-cases spec policy claims = elim (Bool-cases (str_eq spec.interface "")) [
  | inl missing ↦ inl (pd_interface_required, rw missing refl)
  | inr named ↦ elim (Bool-cases (is_claimed spec.interface claims)) [
    | inl busy ↦ inl (interface_busy spec.interface, rw (named, busy) refl)
    | inr free ↦ inr (requested_length spec.requested_prefix_length, rw (named, free) refl, free)
  ]
]

pd-Accounted :
    (spec : Dhcpv6PdSpec) (policy : Policy) (claims : List String)
    → Accounted claims (create_dhcpv6_pd_receiver spec policy claims)
pd-Accounted spec policy claims = elim (pd-cases spec policy claims) [
  | inl (e, failed) ↦ rw failed (refl, tt)
  | inr (n, built, free) ↦ rw built (refl, free)
]

release_own :
    (iface : String) (claims : List String)
    → is_claimed iface claims ≡ false
    → release iface (iface ∷ claims) ≡ claims
unfolding release
release_own iface claims free =
    rw ((str_eq_iff iface iface).1 refl) (release_unclaimed iface claims free)

with_fallback-Accounted :
    (iface : String) (n : ℤ) (policy : Policy) (claims : List String)
    (x : Result FactoryError Built)
    → is_claimed iface claims ≡ false
    → Accounted claims (with_fallback iface (iface ∷ claims) (pd_receiver iface n policy) x)
unfolding with_fallback
with_fallback-Accounted iface n policy claims (ok f) free = (refl, free)
with_fallback-Accounted iface n policy claims (err e) free = (release_own iface claims free, tt)

with_primary-Accounted :
    (pd : Dhcpv6PdSpec) (ra : RouterAdvertisementSpec) (policy : RaPolicy) (claims : List String)
    → Accounted claims
        (with_primary pd ra policy (create_dhcpv6_pd_receiver pd policy.policy claims))
with_primary-Accounted pd ra policy claims = elim (pd-cases pd policy.policy claims) [
  | inl (e, failed) ↦ unfold with_primary in rw failed (refl, tt)
  | inr (n, built, free) ↦
      unfold with_primary in
      rw built (
        with_fallback-Accounted pd.interface n policy.policy claims (create_ra_receiver ra policy)
          free)
]

with_policy-Accounted :
    (pd : Dhcpv6PdSpec) (ra : RouterAdvertisementSpec) (x : Result FactoryError RaPolicy)
    (claims : List String)
    → Accounted claims (with_policy pd ra claims x)
unfolding with_policy
with_policy-Accounted pd ra (ok policy) claims = with_primary-Accounted pd ra policy claims
with_policy-Accounted pd ra (err e) claims = (refl, tt)

ra-Accounted :
    (ra : RouterAdvertisementSpec) (x : Result FactoryError RaPolicy) (claims : List String)
    → Accounted claims (claims, x >>= create_ra_receiver ra)
unfolding create_ra_receiver
ra-Accounted ra (err e) claims = (refl, tt)
ra-Accounted ra (ok policy) claims = elim (Bool-cases (str_eq ra.interface "")) [
  | inl missing ↦ rw missing (refl, tt)
  | inr named ↦ rw named (refl, tt)
]

by_method-Accounted :
    (parse_addr : String → Option Addr) (spec : AcquisitionSpec) (claims : List String)
    (pd : Option Dhcpv6PdSpec) (ra : Option RouterAdvertisementSpec)
    → Accounted claims (by_method parse_addr spec claims pd ra)
unfolding by_method create_composite_receiver
by_method-Accounted parse_addr spec claims (some pd) (some ra) =
    with_policy-Accounted pd ra (ra_policy_from_spec parse_addr spec) claims
by_method-Accounted parse_addr spec claims (some pd) none =
    pd-Accounted pd (policy_from_spec spec.prefix_filter) claims
by_method-Accounted parse_addr spec claims none (some ra) =
    ra-Accounted ra (ra_policy_from_spec parse_addr spec) claims
by_method-Accounted parse_addr spec claims none none = (refl, tt)

-- Building a receiver claims just the interface of the DHCPv6-PD client that it has, which had none
-- before; one that fails, at whichever step, leaves the claims as they were.
pub create_receiver-Accounted :
    (parse_addr : String → Option Addr) (spec : AcquisitionSpec) (claims : List String)
    → Accounted claims (create_receiver parse_addr spec claims)
unfolding create_receiver
create_receiver-Accounted parse_addr spec claims =
    by_method-Accounted parse_addr spec claims spec.dhcpv6_pd (enabled_ra spec.router_advertisement)
