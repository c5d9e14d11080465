-- ===== src/Factory.antt =====
-- internal/prefix/factory.go: which receiver a spec gets, and the claims of interfaces for DHCPv6-PD.
pub mod Claims
mod Examples
use dynamic_prefix_operator.Prelude.{
  ℕ, ◌≡◌, Bool, true, false, not, ◌&&◌, ◌||◌, String, str_eq, Option, none, some, List, [], ◌∷◌,
  if◌then◌else◌, Result, ok, err, ◌>>=◌, wrap_err,
}
use dynamic_prefix_operator.Prelude.Int.{ℤ, pos}
use dynamic_prefix_operator.Net.{Addr}
use dynamic_prefix_operator.Policy.{
  Policy, RaPolicy, RouterError, parse_trusted_routers, PrefixFilterSpec, policy_from_spec,
}

pub record Dhcpv6PdSpec : Type 0 where
  pub interface : String
  pub requested_prefix_length : Option ℤ

pub record RouterAdvertisementSpec : Type 0 where
  pub interface : String
  pub enabled : Option Bool
  pub trusted_routers : List String

pub record AcquisitionSpec : Type 0 where
  pub dhcpv6_pd : Option Dhcpv6PdSpec
  pub router_advertisement : Option RouterAdvertisementSpec
  pub prefix_filter : Option PrefixFilterSpec

-- A receiver as it is built: for an interface, with a policy.
pub data Built : Type 0 where
  pd_receiver : String → ℤ → Policy → Built
  ra_receiver : String → RaPolicy → Built
  composite : Built → Built → Built

pub data FactoryError : Type 0 where
  interface_busy : String → FactoryError
  pd_interface_required ra_interface_required no_method : FactoryError
  routers : RouterError → FactoryError
  primary_failed fallback_failed : FactoryError → FactoryError

-- `pdInterfaces`: the interfaces with a DHCPv6-PD client.
abbrev pub is_claimed : String → List String → Bool
is_claimed iface [] = false
is_claimed iface (c ∷ cs) = str_eq c iface || is_claimed iface cs

-- `delete` of the map.
unfoldable pub release : String → List String → List String
release iface [] = []
release iface (c ∷ cs) = let rest = release iface cs in if str_eq c iface then rest else c ∷ rest

unfoldable pub claim_pd_interface : String → List String → List String × Option FactoryError
claim_pd_interface iface claims =
    if is_claimed iface claims
    then (claims, some (interface_busy iface))
    else (iface ∷ claims, none)

abbrev pub Created : Type 0
Created = List String × Result FactoryError Built

abbrev requested_length : Option ℤ → ℤ
requested_length none = pos 56
requested_length (some n) = n

after_claim : Dhcpv6PdSpec → Policy → List String × Option FactoryError → Created
after_claim spec policy (claims, some e) = (claims, err e)
after_claim spec policy (claims, none) =
    (claims, ok (pd_receiver spec.interface (requested_length spec.requested_prefix_length) policy))

create_dhcpv6_pd_receiver : Dhcpv6PdSpec → Policy → List String → Created
unfolding after_claim
create_dhcpv6_pd_receiver spec policy claims =
    if str_eq spec.interface ""
    then (claims, err pd_interface_required)
    else after_claim spec policy (claim_pd_interface spec.interface claims)

pub create_ra_receiver : RouterAdvertisementSpec → RaPolicy → Result FactoryError Built
create_ra_receiver spec policy =
    if str_eq spec.interface ""
    then err ra_interface_required
    else ok (ra_receiver spec.interface policy)

routers_of : Option RouterAdvertisementSpec → List String
routers_of none = []
routers_of (some s) = s.trusted_routers

-- Without a spec of Router Advertisements there are no routers to parse.
pub ra_policy_from_spec : (String → Option Addr) → AcquisitionSpec → Result FactoryError RaPolicy
unfolding routers_of
ra_policy_from_spec parse_addr spec = do
  trusted ←
      wrap_err routers (parse_trusted_routers parse_addr (routers_of spec.router_advertisement))
  ok (record { policy = policy_from_spec spec.prefix_filter; trusted_routers = trusted })

-- With the primary built: a fallback that fails hands its claim back.
with_fallback : String → List String → Built → Result FactoryError Built → Created
with_fallback iface claims p (ok f) = (claims, ok (composite p f))
with_fallback iface claims p (err e) = (release iface claims, err (fallback_failed e))

with_primary : Dhcpv6PdSpec → RouterAdvertisementSpec → RaPolicy → Created → Created
unfolding with_fallback
with_primary pd ra policy (claims, err e) = (claims, err (primary_failed e))
with_primary pd ra policy (claims, ok p) =
    with_fallback pd.interface claims p (create_ra_receiver ra policy)

with_policy :
    Dhcpv6PdSpec → RouterAdvertisementSpec → List String → Result FactoryError RaPolicy → Created
unfolding with_primary
with_policy pd ra claims (err e) = (claims, err e)
with_policy pd ra claims (ok policy) =
    with_primary pd ra policy (create_dhcpv6_pd_receiver pd policy.policy claims)

create_composite_receiver :
    (String → Option Addr)
    → Dhcpv6PdSpec
    → RouterAdvertisementSpec
    → AcquisitionSpec
    → List String
    → Created
unfolding with_policy
create_composite_receiver parse_addr pd ra spec claims =
    with_policy pd ra claims (ra_policy_from_spec parse_addr spec)

-- `RAEnabled`, with the spec where it is.
pub enabled_ra : Option RouterAdvertisementSpec → Option RouterAdvertisementSpec
enabled_ra none = none
enabled_ra (some s) = elim s.enabled [ none ↦ some s | some b ↦ if b then some s else none ]

by_method :
    (String → Option Addr)
    → AcquisitionSpec
    → List String
    → Option Dhcpv6PdSpec
    → Option RouterAdvertisementSpec
    → Created
unfolding create_composite_receiver create_dhcpv6_pd_receiver
by_method parse_addr spec claims (some pd) (some ra) =
    create_composite_receiver parse_addr pd ra spec claims
by_method parse_addr spec claims (some pd) none =
    create_dhcpv6_pd_receiver pd (policy_from_spec spec.prefix_filter) claims
by_method parse_addr spec claims none (some ra) =
    (claims, ra_policy_from_spec parse_addr spec >>= create_ra_receiver ra)
by_method parse_addr spec claims none none = (claims, err no_method)

unfoldable pub create_receiver : (String → Option Addr) → AcquisitionSpec → List String → Created
unfolding by_method
create_receiver parse_addr spec claims =
    by_method parse_addr spec claims spec.dhcpv6_pd (enabled_ra spec.router_advertisement)
