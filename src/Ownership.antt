-- ===== src/Ownership.antt =====
-- internal/controller/ownership.go and ownedlist.go: which entries of a list shared with users are the
-- operator's. What `netip` parses and prints is a parameter.
pub mod Texts
pub mod Sync
pub mod Settles
pub mod Entries
mod Examples
use dynamic_prefix_operator.Prelude.{
  ℕ, ◌≡◌, Bool, true, false, not, ◌&&◌, ◌||◌, Option, none, some, List, [], ◌∷◌, ◌++◌,
  if◌then◌else◌, map,
}
use dynamic_prefix_operator.Prelude.Int.{leb_ℤ}
use dynamic_prefix_operator.Net.{Addr, NetPrefix, bits, contains}
use dynamic_prefix_operator.Ownership.Texts.{Text, text_eq, mem, is_blank, trim_space, split, join}

-- `netip.ParseAddr` and `netip.ParsePrefix`, with the `String` methods.
pub record Netip : Type 0 where
  pub parse_addr : Text → Option Addr
  pub addr_string : Addr → Text
  pub parse_prefix : Text → Option NetPrefix
  pub prefix_string : NetPrefix → Text

pub record OwnershipRecord : Type 0 where
  pub entries : List Text
  pub present : Bool

unfoldable pub canonical_entry : Netip → Text → Text
canonical_entry lib entry = elim (lib.parse_addr entry) [
  | some a ↦ lib.addr_string a
  | none ↦ elim (lib.parse_prefix entry) [ some p ↦ lib.prefix_string p | none ↦ entry ]
]

-- The loop over the pieces of an annotation.
record_entries : Netip → List Text → List Text
record_entries lib [] = []
record_entries lib (raw ∷ raws) =
    let rest = record_entries lib raws in
    if is_blank (trim_space raw) then rest else canonical_entry lib (trim_space raw) ∷ rest

unfoldable pub parse_ownership_record : Netip → Option Text → OwnershipRecord
unfolding record_entries
parse_ownership_record lib none = record { entries = []; present = false }
parse_ownership_record lib (some value) = record {
  entries = record_entries lib (split value);
  present = true;
}

unfoldable pub owns : Netip → OwnershipRecord → Text → Bool
owns lib r entry = mem (canonical_entry lib entry) r.entries

unfoldable pub format_ownership_record : List Text → Text
format_ownership_record entries = join entries

unfoldable pub is_prefix_subset_of_managed : NetPrefix → List NetPrefix → Bool
is_prefix_subset_of_managed p [] = false
is_prefix_subset_of_managed p (mp ∷ mps) =
    (leb_ℤ (bits mp) (bits p) && contains mp p.addr) || is_prefix_subset_of_managed p mps

-- `isOwnedCIDR`
unfoldable pub is_owned_cidr : Netip → Text → OwnershipRecord → List NetPrefix → Bool
is_owned_cidr lib cidr r managed_prefixes =
    if not r.present
    then elim (lib.parse_prefix cidr) [
      | none ↦ false
      | some p ↦ is_prefix_subset_of_managed p managed_prefixes
    ]
    else owns lib r cidr

unfoldable pub pinned_keys : Netip → List Text → List Text
pinned_keys lib pinned = map (λ p. canonical_entry lib (trim_space p)) pinned

unfoldable pub not_pinned : Netip → List Text → List Text → List Text
not_pinned lib keys [] = []
not_pinned lib keys (c ∷ cs) =
    let rest = not_pinned lib keys cs in
    if mem (canonical_entry lib (trim_space c)) keys then rest else c ∷ rest

unfoldable pub exclude_pinned : Netip → List Text → List Text → List Text
unfolding pinned_keys not_pinned
exclude_pinned lib candidates [] = candidates
exclude_pinned lib candidates (p ∷ ps) = not_pinned lib (pinned_keys lib (p ∷ ps)) candidates

-- The loop with the keys seen so far.
unfoldable pub first_seen : Netip → List Text → List Text → List Text
first_seen lib seen [] = []
first_seen lib seen (item ∷ items) =
    let key = canonical_entry lib item in
    let rest = first_seen lib (if mem key seen then seen else key ∷ seen) items in
    if mem key seen then rest else item ∷ rest

unfoldable pub dedupe_preserving_order : Netip → List Text → List Text
unfolding first_seen
dedupe_preserving_order lib items = first_seen lib [] items

-- ownedlist.go.
pub record OwnedEntry (Item : Type 0) : Type 0 where
  pub value : Item
  pub key : Text

-- The object: its list field and the annotation of the record.
pub record Pool (Item : Type 0) : Type 0 where
  pub field : List Item
  pub annotation : Option Text

same_annotation : Option Text → Text → Bool
same_annotation none t = false
same_annotation (some s) t = text_eq s t

module _ {Item : Type 0} where
  -- The entries of the field that are not the operator's.
  unfoldable pub preserved : (Item → Bool) → List Item → List Item
  preserved owned [] = []
  preserved owned (item ∷ items) =
      let rest = preserved owned items in if owned item then rest else item ∷ rest

  -- `pinned`: the keys of the entries preserved.
  unfoldable pub keys_of : (Item → Text) → List Item → List Text
  keys_of key_of [] = []
  keys_of key_of (item ∷ items) =
      let rest = keys_of key_of items in if is_blank (key_of item) then rest else key_of item ∷ rest

  -- The loop over the desired entries, with the keys seen so far: what is written and its keys.
  unfoldable pub write_entries :
      List Text → List Text → List (OwnedEntry Item) → List Item × List Text
  write_entries pinned seen [] = ([], [])
  write_entries pinned seen (e ∷ es) =
      let skipped = is_blank e.key || mem e.key seen in
      let rest = write_entries pinned (if skipped then seen else e.key ∷ seen) es in
      if (skipped || mem e.key pinned) then rest else (e.value ∷ rest.0, e.key ∷ rest.1)

  -- What a pass computes before it compares: the new field and the keys it records.
  unfoldable pub compute :
      (Item → Text) → (Item → Bool) → List Item → List (OwnedEntry Item) → List Item × List Text
  compute key_of owned existing desired =
      let kept = preserved owned existing in
      let added = write_entries (keys_of key_of kept) [] desired in (kept ++ added.0, added.1)

  -- `syncOwnedList` of an object that can be read and written; `same` is `equality.Semantic.DeepEqual`.
  -- The result says whether the object was written.
  unfoldable pub sync_owned_list :
      (List Item → List Item → Bool)
      → (Item → Text)
      → (Item → Bool)
      → List (OwnedEntry Item)
      → Pool Item
      → Pool Item × Bool
  unfolding same_annotation
  sync_owned_list same key_of owned desired pool =
      let result = compute key_of owned pool.field desired in
      let managed_record = format_ownership_record result.1 in
      if (same pool.field result.0 && same_annotation pool.annotation managed_record)
      then (pool, false)
      else (record { field = result.0; annotation = some managed_record }, true)

  -- `isOwnedBlock` and the like, with a record: an entry without a key is never owned.
  unfoldable pub is_owned : Netip → (Item → Text) → OwnershipRecord → Item → Bool
  is_owned lib key_of r item = if is_blank (key_of item) then false else owns lib r (key_of item)
