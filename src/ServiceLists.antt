-- ===== src/ServiceLists.antt =====
-- internal/controller/servicesync_controller.go: which entries of the lists in a Service's annotations
-- are the operator's, what a reconciliation writes into them, and the release of a Service.
pub mod Annotate
mod Examples
use dynamic_prefix_operator.Prelude.{
  ℕ, zero, suc, ◌-◌, ◌*◌, ◌/◌, ◌+◌, ◌^◌, ◌%◌, ◌==◌, Bool, true, false, not, ◌&&◌, ◌||◌, Option,
  none, some, List, [], ◌∷◌, ◌++◌, if◌then◌else◌, ltb, leb, Result, ok, err, ◌>>=◌, wrap_err,
}
use dynamic_prefix_operator.Prelude.Int.{ℤ, pos, pos_part}
use dynamic_prefix_operator.Bytes.{as_16, addr_from_16, split_byte}
use dynamic_prefix_operator.Net.{Addr, NetPrefix, is4, is6, is4_in6, bit_len, bits, contains}
use dynamic_prefix_operator.Ownership.Texts.{Text, text_eq, is_blank, trim_space, split, join}
use dynamic_prefix_operator.Ownership.{
  Netip, OwnershipRecord, parse_ownership_record, owns, exclude_pinned, dedupe_preserving_order,
  format_ownership_record,
}
use dynamic_prefix_operator.History.{PrefixHistoryEntry, max_history}
use dynamic_prefix_operator.Subnet.{SubnetConfig, Subnet, SubnetError, calculate_subnet}
use dynamic_prefix_operator.AddressRange.{
  AddressRangeConfig, AddressRange, RangeError, calculate_address_range,
}
use dynamic_prefix_operator.Resource.{
  DynamicPrefix, AddressRangeSpec, SubnetSpec, find_address_range_spec, find_subnet_spec,
  over_history, last_addr_of_prefix,
}
use dynamic_prefix_operator.ServiceSync.{ServiceError, unknown_provider}

in_managed : Addr → List NetPrefix → Bool
in_managed a [] = false
in_managed a (p ∷ ps) = contains p a || in_managed a ps

managed_addr : List NetPrefix → Option Addr → Bool
unfolding in_managed
managed_addr managed none = false
managed_addr managed (some a) = if is4 a || is4_in6 a then false else in_managed a managed

-- The loops of `preserveUnownedIPs` and `extractUnmanagedIPs` over the pieces of an annotation.
keep_pieces : (Text → Bool) → List Text → List Text
keep_pieces mine [] = []
keep_pieces mine (raw ∷ raws) =
    let rest = keep_pieces mine raws in
    if is_blank (trim_space raw) || mine (trim_space raw) then rest else trim_space raw ∷ rest

unfoldable pub extract_unmanaged_ips : Netip → Text → List NetPrefix → List Text
unfolding keep_pieces managed_addr
extract_unmanaged_ips lib annotation managed =
    if is_blank annotation
    then []
    else keep_pieces (λ ip. managed_addr managed (lib.parse_addr ip)) (split annotation)

unfoldable pub preserve_unowned_ips : Netip → Text → OwnershipRecord → List NetPrefix → List Text
unfolding keep_pieces
preserve_unowned_ips lib annotation r managed =
    if not r.present
    then extract_unmanaged_ips lib annotation managed
    else if is_blank annotation
    then []
    else keep_pieces (owns lib r) (split annotation)

-- What a reconciliation writes into the address annotation and into its record.
unfoldable pub final_ips : Netip → List Text → List Text → Text
final_ips lib preserved_ips all_ips = join (dedupe_preserving_order lib (preserved_ips ++ all_ips))

unfoldable pub claimed_ips : Netip → List Text → List Text → Text
claimed_ips lib preserved_ips all_ips =
    format_ownership_record (exclude_pinned lib all_ips preserved_ips)

-- The provider of a Service's load balancer, which decides the annotation that addresses go into.
pub data LbProvider : Type 0 where
  cilium kube_vip : LbProvider

abbrev cilium_name : Text
cilium_name = b'c' ∷ b'i' ∷ b'l' ∷ b'i' ∷ b'u' ∷ b'm' ∷ []

abbrev kube_vip_name : Text
kube_vip_name = b'k' ∷ b'u' ∷ b'b' ∷ b'e' ∷ b'-' ∷ b'v' ∷ b'i' ∷ b'p' ∷ []

unfoldable pub lb_address_annotation_for : Text → Result ServiceError LbProvider
lb_address_annotation_for value =
    let v = trim_space value in
    if is_blank v || text_eq v cilium_name
    then ok cilium
    else if text_eq v kube_vip_name
    then ok kube_vip
    else err (unknown_provider v)

-- The annotations of a Service that are written here; `none` where one is missing.
pub record AnnotationLists : Type 0 where
  pub cilium_ips : Option Text
  pub kubevip_ips : Option Text
  pub external_dns_target : Option Text
  pub managed_ips : Option Text
  pub managed_targets : Option Text
  pub last_sync : Option Text
  pub l2_nudge : Option Text

abbrev pub or_empty : Option Text → Text
or_empty none = []
or_empty (some t) = t

abbrev pub or_removed : Text → Option Text
or_removed t = if is_blank t then none else some t

-- One annotation, with what it is to hold: unless it holds that already, it is written.
put : Option Text → Text → Option Text × Bool
put old new = if text_eq (or_empty old) new then (old, false) else (some new, true)

-- The annotation of the other provider loses the operator's entries.
abandon : Netip → OwnershipRecord → List NetPrefix → Option Text → Option Text × Bool
abandon lib r managed old =
    if is_blank (or_empty old)
    then (old, false)
    else (or_removed (join (preserve_unowned_ips lib (or_empty old) r managed)), true)

unfoldable pub write_lb_addresses :
    Netip
    → LbProvider
    → Text
    → OwnershipRecord
    → List NetPrefix
    → AnnotationLists
    → AnnotationLists × Bool
unfolding put abandon
write_lb_addresses lib cilium new r managed s =
    let field = put s.cilium_ips new in
    let other = abandon lib r managed s.kubevip_ips in
    (record s { cilium_ips = field.0; kubevip_ips = other.0 }, field.1 || other.1)
write_lb_addresses lib kube_vip new r managed s =
    let field = put s.kubevip_ips new in
    let other = abandon lib r managed s.cilium_ips in
    (record s { kubevip_ips = field.0; cilium_ips = other.0 }, field.1 || other.1)

abbrev pub field_of : LbProvider → AnnotationLists → Option Text
field_of cilium s = s.cilium_ips
field_of kube_vip s = s.kubevip_ips

-- What `Reconcile` does with the addresses calculated, but for the external-dns target and the time of
-- the last write.
unfoldable pub sync_addresses :
    Netip → LbProvider → List NetPrefix → List Text → AnnotationLists → AnnotationLists × Bool
unfolding put
sync_addresses lib provider managed all_ips s =
    let r = parse_ownership_record lib s.managed_ips in
    let kept = preserve_unowned_ips lib (or_empty (field_of provider s)) r managed in
    let written = write_lb_addresses lib provider (final_ips lib kept all_ips) r managed s in
    let noted = put s.managed_ips (claimed_ips lib kept all_ips) in
    (record written.0 { managed_ips = noted.0 }, written.1 || noted.1)

release_one : Netip → Option Text → Option Text → Option Text
release_one lib none field = field
release_one lib (some value) field =
    or_removed (
      join (preserve_unowned_ips lib (or_empty field) (parse_ownership_record lib (some value)) []))

abbrev is_set : Option Text → Bool
is_set none = false
is_set (some t) = true

unfoldable pub release_service : Netip → AnnotationLists → AnnotationLists × Bool
unfolding release_one
release_service lib s =
    if is_set s.managed_ips || is_set s.managed_targets
    then (
      record {
        cilium_ips = release_one lib s.managed_ips s.cilium_ips;
        kubevip_ips = release_one lib s.managed_ips s.kubevip_ips;
        external_dns_target = release_one lib s.managed_targets s.external_dns_target;
        managed_ips = none;
        managed_targets = none;
        last_sync = none;
        l2_nudge = none;
      },
      true,
    )
    else (s, false)
