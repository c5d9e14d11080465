-- ===== src/ServiceLists/Examples.antt =====
-- The annotations of a Service of internal/controller/servicesync_controller.go.
use dynamic_prefix_operator.Prelude.{◌≡◌, refl, some, none, [], ◌∷◌}
use dynamic_prefix_operator.Prelude.{List}
use dynamic_prefix_operator.Ownership.Texts.{Text}
use dynamic_prefix_operator.Ownership.{
  Netip, canonical_entry, parse_ownership_record, dedupe_preserving_order, first_seen,
  exclude_pinned, not_pinned, pinned_keys, format_ownership_record,
}
use dynamic_prefix_operator.ServiceLists.{
  keep_pieces, managed_addr, extract_unmanaged_ips, preserve_unowned_ips, claimed_ips, cilium,
  AnnotationLists, release_service, sync_addresses,
}
use dynamic_prefix_operator.ServiceLists.Annotate.{release_service-sync_addresses}

-- Texts that are neither addresses nor prefixes are their own keys.
abbrev plain : Netip
plain = record {
  parse_addr = λ t. none;
  addr_string = λ a. [];
  parse_prefix = λ t. none;
  prefix_string = λ p. [];
}

canonical_plain : (t : Text) → canonical_entry plain t ≡ t
unfolding canonical_entry
canonical_plain t = refl

abbrev lists : AnnotationLists
lists = record {
  cilium_ips = some (b'u' ∷ []);
  kubevip_ips = none;
  external_dns_target = none;
  managed_ips = none;
  managed_targets = none;
  last_sync = none;
  l2_nudge = none;
}

abbrev calculated : List Text
calculated = (b'n' ∷ []) ∷ (b'u' ∷ []) ∷ []

abbrev released : AnnotationLists
released = (release_service plain (sync_addresses plain cilium [] calculated lists).0).0

release_service-sync_addresses_example :
    (released.cilium_ips ≡ some (b'u' ∷ [])) × (released.managed_ips ≡ none)
unfolding preserve_unowned_ips extract_unmanaged_ips keep_pieces managed_addr parse_ownership_record
    canonical_entry claimed_ips exclude_pinned not_pinned pinned_keys format_ownership_record
    dedupe_preserving_order first_seen
release_service-sync_addresses_example =
    release_service-sync_addresses plain cilium [] calculated lists refl (refl, refl, refl, tt)
      (refl, refl, refl, (refl, refl, refl, tt))
      (canonical_plain (b'n' ∷ []), (canonical_plain (b'u' ∷ []), tt))
