-- ===== src/PoolBackends.antt =====
-- internal/controller/poolsync_backends.go, with what it shares with poolsync_controller.go and
-- ownership.go: the entries that the backends of Cilium and MetalLB write for the configurations of a
-- pool, how entries are recognised, the CIDR of a Calico pool, and the release of a pool. An object read
-- through the Kubernetes API is its list field with the annotation of the record.
pub mod Release
pub mod Exact
pub mod Within
mod Examples
use dynamic_prefix_operator.Prelude.{
  ℕ, ◌==◌, Bool, true, false, not, ◌&&◌, ◌||◌, Option, none, some, List, [], ◌∷◌, ◌++◌,
  if◌then◌else◌, ltb, leb, Result, ok, err, ◌>>=◌, wrap_err,
}
use dynamic_prefix_operator.Prelude.Int.{ℤ}
use dynamic_prefix_operator.Net.{Addr, NetPrefix, is4, is6, addr_eq, masked, contains, bit_len}
use dynamic_prefix_operator.Ownership.Texts.{Text, text_eq, is_blank, trim_space}
use dynamic_prefix_operator.Ownership.{
  Netip, OwnershipRecord, canonical_entry, parse_ownership_record, owns, is_owned_cidr, is_owned,
  is_prefix_subset_of_managed, OwnedEntry, Pool, preserved, sync_owned_list,
}
use dynamic_prefix_operator.History.{PrefixHistoryEntry, max_history}
use dynamic_prefix_operator.Subnet.{SubnetError, Subnet, calculate_subnet}
use dynamic_prefix_operator.AddressRange.{
  RangeError, AddressRange, calculate_address_range, range_to_cidr, is_after,
}
use dynamic_prefix_operator.Resource.{
  DynamicPrefix, AddressRangeSpec, SubnetSpec, AddressRangeStatus, SubnetStatus,
  find_address_range_spec, find_subnet_spec, over_history, last_addr_of_prefix,
}
use dynamic_prefix_operator.ServiceSync.{range_config, subnet_config}
use dynamic_prefix_operator.PoolSync.{
  PoolConfiguration, PoolError, or_err, invalid_start, invalid_end, not_aligned, mixed_families,
  reversed, not_ipv6, no_last_addr, no_cidr,
}

-- A block of a pool, as far as its string fields go.
pub record Block : Type 0 where
  pub cidr : Option Text
  pub start : Option Text
  pub stop : Option Text

abbrev or_empty : Option Text → Text
or_empty none = []
or_empty (some t) = t

-- "cidr=", "range=" and "-"
abbrev cidr_tag : Text
cidr_tag = b'c' ∷ b'i' ∷ b'd' ∷ b'r' ∷ b'=' ∷ []

abbrev range_tag : Text
range_tag = b'r' ∷ b'a' ∷ b'n' ∷ b'g' ∷ b'e' ∷ b'=' ∷ []

abbrev dash : ℕ
dash = b'-'

unfoldable pub block_key : Netip → Block → Text
block_key lib b =
    let stop_part =
      if is_blank (or_empty b.stop) then [] else dash ∷ canonical_entry lib (or_empty b.stop) in
    if not (is_blank (or_empty b.cidr))
    then cidr_tag ++ canonical_entry lib (or_empty b.cidr)
    else if not (is_blank (or_empty b.start))
    then range_tag ++ canonical_entry lib (or_empty b.start) ++ stop_part
    else []

abbrev addr_is4 : Option Addr → Bool
addr_is4 none = false
addr_is4 (some a) = is4 a

abbrev prefix_is4 : Option NetPrefix → Bool
prefix_is4 none = false
prefix_is4 (some p) = is4 p.addr

abbrev text_then {ℓ} : {A : Type ℓ} → (Text → Option A) → Option Text → Option A
text_then f none = none
text_then f (some t) = f t

unfoldable pub is_ipv4_block : Netip → Block → Bool
is_ipv4_block lib b =
    prefix_is4 (text_then lib.parse_prefix b.cidr)
    || addr_is4 (text_then lib.parse_addr b.start)
    || addr_is4 (text_then lib.parse_addr b.stop)

unfoldable pub contains_both : Addr → Addr → List NetPrefix → Bool
contains_both a end [] = false
contains_both a end (mp ∷ mps) = (contains mp a && contains mp end) || contains_both a end mps

-- The end of a block with the first address `a`: `none` where the code gives up.
ipv6_end : Option Addr → Option Addr
ipv6_end none = none
ipv6_end (some e) = if is4 e then none else some e

end_of : Netip → Addr → Text → Option Addr
unfolding ipv6_end
end_of lib a stop = if is_blank stop then some a else ipv6_end (lib.parse_addr stop)

both_managed : Addr → Option Addr → List NetPrefix → Bool
unfolding contains_both
both_managed a none managed = false
both_managed a (some end) managed = contains_both a end managed

managed_range : Netip → Block → Option Addr → List NetPrefix → Bool
unfolding end_of both_managed
managed_range lib b none managed = false
managed_range lib b (some a) managed =
    if is4 a then false else both_managed a (end_of lib a (or_empty b.stop)) managed

managed_block : Netip → Block → Option NetPrefix → List NetPrefix → Bool
unfolding managed_range
managed_block lib b none managed = managed_range lib b (text_then lib.parse_addr b.start) managed
managed_block lib b (some p) managed =
    if is4 p.addr then false else is_prefix_subset_of_managed p managed

unfoldable pub is_managed_block : Netip → Block → List NetPrefix → Bool
unfolding managed_block
is_managed_block lib b managed = managed_block lib b (text_then lib.parse_prefix b.cidr) managed

unfoldable pub is_owned_block : Netip → OwnershipRecord → List NetPrefix → Block → Bool
is_owned_block lib r managed b =
    if not r.present then is_managed_block lib b managed else is_owned lib (block_key lib) r b

-- The blocks that `updateLoadBalancerIPPool` asks for.
block_for : PoolConfiguration → Block
block_for c =
    if c.use_address_range && not (is_blank c.start) && not (is_blank c.end)
    then record { cidr = none; start = some c.start; stop = some c.end }
    else record { cidr = some c.cidr; start = none; stop = none }

unfoldable pub desired_blocks : Netip → List PoolConfiguration → List (OwnedEntry Block)
unfolding block_for
desired_blocks lib [] = []
desired_blocks lib (c ∷ cs) =
    record { value = block_for c; key = block_key lib (block_for c) } ∷ desired_blocks lib cs

-- `same` is the comparison of two lists of blocks.
unfoldable pub update_load_balancer_ip_pool :
    Netip
    → (List Block → List Block → Bool)
    → List PoolConfiguration
    → List NetPrefix
    → Pool Block
    → Pool Block × Bool
update_load_balancer_ip_pool lib same configs managed pool =
    let r = parse_ownership_record lib pool.annotation in
    sync_owned_list same (block_key lib) (is_owned_block lib r managed) (desired_blocks lib configs)
      pool

unfoldable pub desired_cidrs : Netip → List PoolConfiguration → List (OwnedEntry Text)
desired_cidrs lib [] = []
desired_cidrs lib (c ∷ cs) =
    record { value = c.cidr; key = canonical_entry lib c.cidr } ∷ desired_cidrs lib cs

unfoldable pub update_cidr_group :
    Netip
    → (List Text → List Text → Bool)
    → List PoolConfiguration
    → List NetPrefix
    → Pool Text
    → Pool Text × Bool
update_cidr_group lib same configs managed pool =
    let r = parse_ownership_record lib pool.annotation in
    sync_owned_list same (canonical_entry lib) (λ cidr. is_owned_cidr lib cidr r managed)
      (desired_cidrs lib configs) pool

release_with : {Item : Type 0} → Netip → (Item → Text) → Pool Item → Option Text → Pool Item × Bool
release_with lib key_of pool none = (pool, false)
release_with lib key_of pool (some value) =
    let r = parse_ownership_record lib (some value) in
    (record { field = preserved (is_owned lib key_of r) pool.field; annotation = none }, true)

-- `releaseRecordedSlice`
unfoldable pub release_recorded_slice :
    {Item : Type 0} → Netip → (Item → Text) → Pool Item → Pool Item × Bool
unfolding release_with
release_recorded_slice lib key_of pool = release_with lib key_of pool pool.annotation

same_family : Addr → Addr → Bool
same_family a b = if is4 a then is4 b else not (is4 b)

-- `none` of the last address is its error.
exact_of : Netip → Addr → Addr → NetPrefix → Option Addr → Result PoolError (Text × Bool)
exact_of lib start end cidr none = err no_last_addr
exact_of lib start end cidr (some last) =
    ok (lib.prefix_string cidr, addr_eq (masked cidr).addr start && addr_eq last end)

unfoldable pub exact_cidr_for_address_range : Netip → Text → Text → Result PoolError (Text × Bool)
unfolding same_family exact_of
exact_cidr_for_address_range lib start_text end_text = do
  start ← or_err (invalid_start start_text) (lib.parse_addr start_text)
  end ← or_err (invalid_end end_text) (lib.parse_addr end_text)
  if not (same_family start end)
      then err mixed_families
      else if is_after start end
      then err reversed
      else if not (is6 start)
      then err not_ipv6
      else exact_of lib start end (range_to_cidr start end)
          (last_addr_of_prefix (range_to_cidr start end))

only_exact : PoolConfiguration → Text × Bool → Result PoolError Text
only_exact c (cidr, exact) = if not exact then err (not_aligned c.start) else ok cidr

unfoldable pub calico_cidr_for_config : Netip → PoolConfiguration → Result PoolError Text
unfolding only_exact
calico_cidr_for_config lib c =
    if not c.use_address_range
    then (if is_blank c.cidr then err no_cidr else ok c.cidr)
    else exact_cidr_for_address_range lib c.start c.end >>= only_exact c

-- `a.Compare(b) >= 0` is `not (is_after b a)`.
within_one : Addr → Addr → Addr → Option Addr → Bool
within_one start end managed_start none = false
within_one start end managed_start (some managed_end) =
    not (is_after managed_start start) && not (is_after end managed_end)

within_managed : Addr → Addr → List NetPrefix → Bool
unfolding same_family within_one
within_managed start end [] = false
within_managed start end (mp ∷ mps) =
    let rest = within_managed start end mps in
    (same_family mp.addr start && within_one start end (masked mp).addr (last_addr_of_prefix mp))
    || rest

unfoldable pub address_range_within_managed : Addr → Addr → List NetPrefix → Bool
unfolding within_managed
address_range_within_managed start end managed =
    if is_after start end
    then within_managed end start managed
    else within_managed start end managed

abbrev prefixed : ℕ → Option (Text × Text) → Option (Text × Text)
prefixed c none = none
prefixed c (some (before, after)) = some (c ∷ before, after)

-- `strings.Cut(s, "-")`; `none` where there is no dash.
cut : Text → Option (Text × Text)
cut [] = none
cut (c ∷ s) = let rest = cut s in if c == dash then some ([], s) else prefixed c rest

canonical_cut : Netip → Text → Option (Text × Text) → Text
canonical_cut lib entry none = canonical_entry lib entry
canonical_cut lib entry (some (start, end)) =
    canonical_entry lib (trim_space start) ++ dash ∷ canonical_entry lib (trim_space end)

unfoldable pub canonical_address_entry : Netip → Text → Text
unfolding canonical_cut cut
canonical_address_entry lib entry = canonical_cut lib (trim_space entry) (cut (trim_space entry))

in_managed : Addr → List NetPrefix → Bool
in_managed a [] = false
in_managed a (p ∷ ps) = contains p a || in_managed a ps

managed_ends : List NetPrefix → Option Addr → Option Addr → Bool
managed_ends managed (some start) (some end) =
    if is4 start || is4 end then false else address_range_within_managed start end managed
managed_ends managed _ _ = false

managed_single : List NetPrefix → Option NetPrefix → Option Addr → Bool
unfolding in_managed
managed_single managed (some p) a =
    if is4 p.addr then false else is_prefix_subset_of_managed p managed
managed_single managed none (some a) = if is4 a then false else in_managed a managed
managed_single managed none none = false

managed_cut : Netip → List NetPrefix → Text → Option (Text × Text) → Bool
unfolding managed_ends managed_single
managed_cut lib managed entry none =
    managed_single managed (lib.parse_prefix entry) (lib.parse_addr entry)
managed_cut lib managed entry (some (start, end)) =
    managed_ends managed (lib.parse_addr (trim_space start)) (lib.parse_addr (trim_space end))

unfoldable pub is_managed_address_entry : Netip → Text → List NetPrefix → Bool
unfolding managed_cut cut
is_managed_address_entry lib entry managed =
    if is_blank (trim_space entry)
    then false
    else managed_cut lib managed (trim_space entry) (cut (trim_space entry))

unfoldable pub is_owned_address_entry : Netip → OwnershipRecord → List NetPrefix → Text → Bool
is_owned_address_entry lib r managed entry =
    if not r.present
    then is_managed_address_entry lib entry managed
    else owns lib r (canonical_address_entry lib entry)

-- The entry of MetalLB's pool for a configuration.
address_for : PoolConfiguration → Text
address_for c =
    if c.use_address_range && not (is_blank c.start) && not (is_blank c.end)
    then c.start ++ dash ∷ c.end
    else c.cidr

unfoldable pub desired_addresses : Netip → List PoolConfiguration → List (OwnedEntry Text)
unfolding address_for
desired_addresses lib [] = []
desired_addresses lib (c ∷ cs) =
    let rest = desired_addresses lib cs in
    if is_blank (address_for c)
    then rest
    else record { value = address_for c; key = canonical_address_entry lib (address_for c) } ∷ rest

unfoldable pub update_metallb :
    Netip
    → (List Text → List Text → Bool)
    → List PoolConfiguration
    → List NetPrefix
    → Pool Text
    → Pool Text × Bool
update_metallb lib same configs managed pool =
    let r = parse_ownership_record lib pool.annotation in
    sync_owned_list same (canonical_address_entry lib) (is_owned_address_entry lib r managed)
      (desired_addresses lib configs) pool
