-- ===== src/Policy.antt =====
-- internal/prefix/policy.go and validate.go, and the policies factory.go builds from a spec: which
-- prefixes and which routers are accepted. `netip.ParseAddr` is a parameter.
pub mod Accepts
mod Examples
use dynamic_prefix_operator.Prelude.{
  ℕ, ◌/◌, ◌^◌, ◌≡◌, Bool, true, false, not, ◌&&◌, ◌||◌, String, str_eq, Option, none, some, List,
  [], ◌∷◌, ltb, ◌==◌, if◌then◌else◌, Result, ok, err, ◌>>=◌, ◌>>◌, wrap_err,
}
use dynamic_prefix_operator.Prelude.Int.{ℤ, pos, ltb_ℤ, leb_ℤ}
use dynamic_prefix_operator.Net.{
  NetPrefix, Addr, is6, is4_in6, zone, bits, is_valid, bit_len, byte_at, is_loopback, is_multicast,
  is_unspecified, is_link_local_unicast, addr_eq, without_zone,
}

-- 2000::/3: `bytes[0] & 0xE0 == 0x20`.
unfoldable pub is_global_unicast : Addr → Bool
is_global_unicast a = if not (is6 a) then false else byte_at 0 a / 32 == 1

-- fc00::/7: `bytes[0] & 0xFE == 0xFC`.
unfoldable pub is_ula : Addr → Bool
is_ula a = if not (is6 a) then false else byte_at 0 a / 2 == 126

pub data PolicyError : Type 0 where
  not_valid not_ipv6 zero_length length_out_of_range not_unicast link_local : PolicyError
  unique_local not_global_unicast shorter_than_minimum longer_than_maximum : PolicyError

unfoldable pub validate_delegated_prefix : NetPrefix → Bool → Result PolicyError (Unit {0})
validate_delegated_prefix p require_global_unicast =
    if not (is_valid p)
    then err not_valid
    else if (not (is6 p.addr) || is4_in6 p.addr)
    then err not_ipv6
    else if leb_ℤ (bits p) (pos 0)
    then err zero_length
    else if ltb_ℤ (pos (bit_len p.addr)) (bits p)
    then err length_out_of_range
    else if (is_loopback p.addr || is_multicast p.addr || is_unspecified p.addr)
    then err not_unicast
    else if is_link_local_unicast p.addr
    then err link_local
    else if (require_global_unicast && not (is_global_unicast p.addr))
    then (if is_ula p.addr then err unique_local else err not_global_unicast)
    else ok tt

-- A bound of zero, or below, is none.
pub record Policy : Type 0 where
  pub require_global_unicast : Bool
  pub min_prefix_length : ℤ
  pub max_prefix_length : ℤ

unfoldable pub default_policy : Policy
default_policy = record {
  require_global_unicast = true;
  min_prefix_length = pos 0;
  max_prefix_length = pos 0;
}

unfoldable pub check_length : Policy → ℤ → Result PolicyError (Unit {0})
check_length p n =
    if (ltb_ℤ (pos 0) p.min_prefix_length && ltb_ℤ n p.min_prefix_length)
    then err shorter_than_minimum
    else if (ltb_ℤ (pos 0) p.max_prefix_length && ltb_ℤ p.max_prefix_length n)
    then err longer_than_maximum
    else ok tt

unfoldable pub validate : Policy → NetPrefix → Result PolicyError (Unit {0})
validate p network = do
  validate_delegated_prefix network p.require_global_unicast
  check_length p (bits network)

pub record RaPolicy : Type 0 where
  pub policy : Policy
  pub trusted_routers : List Addr

contains_addr : List Addr → Addr → Bool
contains_addr [] a = false
contains_addr (t ∷ ts) a = addr_eq t a || contains_addr ts a

unfoldable pub trusts : RaPolicy → Addr → Bool
unfolding contains_addr
trusts p source = elim p.trusted_routers [
  | [] ↦ true
  | t ∷ ts ↦ contains_addr (t ∷ ts) (without_zone source)
]

pub data RouterError : Type 0 where
  not_an_address carries_zone not_an_ipv6_address not_link_local : String → RouterError

-- One round of the loop of `ParseTrustedRouters`.
parse_trusted_router : (String → Option Addr) → String → Result RouterError Addr
parse_trusted_router parse_addr value = elim (parse_addr value) [
  | none ↦ err (not_an_address value)
  | some a ↦
      if not (str_eq (zone a) "")
      then err (carries_zone value)
      else if (not (is6 a) || is4_in6 a)
      then err (not_an_ipv6_address value)
      else if not (is_link_local_unicast a)
      then err (not_link_local value)
      else ok a
]

pub parse_trusted_routers : (String → Option Addr) → List String → Result RouterError (List Addr)
unfolding parse_trusted_router
parse_trusted_routers parse_addr [] = ok []
parse_trusted_routers parse_addr (value ∷ values) =
    let rest = parse_trusted_routers parse_addr values in
    do router ← parse_trusted_router parse_addr value; routers ← rest; ok (router ∷ routers)

-- `AcquisitionSpec`, as far as the policies read it; `none` is a field left out.
pub record PrefixFilterSpec : Type 0 where
  pub require_global_unicast : Option Bool
  pub min_prefix_length : Option ℤ
  pub max_prefix_length : Option ℤ

abbrev given {ℓ} : {A : Type ℓ} → Option A → A → A
given none d = d
given (some a) d = a

unfoldable pub policy_from_spec : Option PrefixFilterSpec → Policy
unfolding default_policy
policy_from_spec none = default_policy
policy_from_spec (some f) = record {
  require_global_unicast = given f.require_global_unicast default_policy.require_global_unicast;
  min_prefix_length = given f.min_prefix_length default_policy.min_prefix_length;
  max_prefix_length = given f.max_prefix_length default_policy.max_prefix_length;
}

-- `prefixPolicyFor` of the controller reads the same fields through `RequireGlobalUnicast` and
-- `PrefixLengthBounds` of the API type.
require_global_unicast : Option PrefixFilterSpec → Bool
require_global_unicast none = true
require_global_unicast (some f) = given f.require_global_unicast true

prefix_length_bounds : Option PrefixFilterSpec → ℤ × ℤ
prefix_length_bounds none = (pos 0, pos 0)
prefix_length_bounds (some f) =
    (given f.min_prefix_length (pos 0), given f.max_prefix_length (pos 0))

unfoldable pub prefix_policy_for : Option PrefixFilterSpec → Policy
unfolding require_global_unicast prefix_length_bounds
prefix_policy_for filter = record {
  require_global_unicast = require_global_unicast filter;
  min_prefix_length = (prefix_length_bounds filter).0;
  max_prefix_length = (prefix_length_bounds filter).1;
}
