-- ===== src/ServiceSync.antt =====
-- internal/controller/servicesync_controller.go: the addresses that a Service of a DynamicPrefix in
-- high availability mode is given. `netip`'s parsers and printers are a parameter.
pub mod Combine
pub mod Offset
pub mod Addresses
pub mod Rotate
mod Examples
use dynamic_prefix_operator.Prelude.{
  ℕ, zero, suc, ◌-◌, ◌*◌, ◌/◌, ◌+◌, ◌^◌, ◌%◌, ◌==◌, Bool, true, false, not, ◌&&◌, ◌||◌, Option,
  none, some, List, [], ◌∷◌, ◌++◌, if◌then◌else◌, ltb, leb, Result, ok, err, ◌>>=◌, wrap_err,
}
use dynamic_prefix_operator.Prelude.Int.{ℤ, pos, pos_part}
use dynamic_prefix_operator.Bytes.{as_16, addr_from_16, split_byte}
use dynamic_prefix_operator.Net.{Addr, NetPrefix, is4, is6, is4_in6, bit_len, bits, contains}
use dynamic_prefix_operator.Ownership.Texts.{Text, text_eq, is_blank, trim_space, split, join}
use dynamic_prefix_operator.Ownership.{
  Netip, OwnershipRecord, owns, exclude_pinned, dedupe_preserving_order, format_ownership_record,
}
use dynamic_prefix_operator.History.{PrefixHistoryEntry, max_history}
use dynamic_prefix_operator.Subnet.{SubnetConfig, Subnet, SubnetError, calculate_subnet}
use dynamic_prefix_operator.AddressRange.{
  AddressRangeConfig, AddressRange, RangeError, calculate_address_range,
}
use dynamic_prefix_operator.Resource.{
  DynamicPrefix, AddressRangeSpec, SubnetSpec, find_address_range_spec, find_subnet_spec,
  over_history, last_addr_of_prefix,
}

-- The byte at the index `i` of the loop, for a prefix of `n` bits.
combine_byte : ℕ → ℕ → ℕ → ℕ → ℕ
combine_byte i n p s =
    if leb (i * 8 + 8) n then p else if leb n (i * 8) then s else split_byte (n - i * 8) p s

combine_bytes : ℕ → ℕ → List ℕ → List ℕ → List ℕ
unfolding combine_byte
combine_bytes i n (p ∷ ps) (s ∷ ss) = combine_byte i n p s ∷ combine_bytes (i + 1) n ps ss
combine_bytes i n _ _ = []

-- A length of -1, of an invalid prefix, is 0 here: every byte comes from the suffix in either case.
unfoldable pub combine_prefix_suffix : NetPrefix → List ℕ → Addr
unfolding combine_bytes
combine_prefix_suffix p suffix =
    addr_from_16 (combine_bytes 0 (pos_part (bits p)) (as_16 p.addr) suffix)

-- The loop from the last byte to the first, with the borrow out of what it has done.
subtract_bytes : List ℕ → List ℕ → List ℕ × ℕ
subtract_bytes (t ∷ ts) (b ∷ bs) =
    let rest = subtract_bytes ts bs in
    ((t + 512 - b - rest.1) % 256 ∷ rest.0, if ltb t b || (t == b && rest.1 == 1) then 1 else 0)
subtract_bytes _ _ = ([], 0)

unfoldable pub calculate_ip_offset : Addr → Addr → List ℕ × Bool
unfolding subtract_bytes
calculate_ip_offset base target =
    let r = subtract_bytes (as_16 target) (as_16 base) in (r.0, r.1 == 0)

add_bytes : List ℕ → List ℕ → List ℕ × ℕ
add_bytes (b ∷ bs) (o ∷ os) =
    let rest = add_bytes bs os in ((b + o + rest.1) % 256 ∷ rest.0, (b + o + rest.1) / 256)
add_bytes _ _ = ([], 0)

unfoldable pub apply_ip_offset : Addr → List ℕ → Addr × Bool
unfolding add_bytes
apply_ip_offset base offset = let r = add_bytes (as_16 base) offset in (addr_from_16 r.0, r.1 == 0)

-- `a.Less(b)`, of addresses without zones.
abbrev pub less : Addr → Addr → Bool
less a b = ltb (bit_len a) (bit_len b) || (bit_len a == bit_len b && ltb a.value b.value)

unfoldable pub offset_address_within : Addr → Addr → List ℕ → Option Addr
offset_address_within base last offset =
    let r = apply_ip_offset base offset in
    if not r.1 then none else if less r.0 base || less last r.0 then none else some r.0

-- `invalid_prefix` and `invalid_address` are errors of the parsers.
pub data ServiceError : Type 0 where
  no_current_prefix range_not_defined subnet_not_defined below_range below_subnet : ServiceError
  invalid_suffix suffix_not_ipv6 invalid_prefix invalid_address unknown_provider :
      Text → ServiceError
  range_failed : RangeError → ServiceError
  subnet_failed : SubnetError → ServiceError

abbrev or_err {ℓ} : {A : Type ℓ} → ServiceError → Option A → Result ServiceError A
or_err e none = err e
or_err e (some a) = ok a

-- The address that a text of the history gives with a suffix.
combined : Netip → List ℕ → Option NetPrefix → Option Text
combined lib suffix none = none
combined lib suffix (some p) = some (lib.addr_string (combine_prefix_suffix p suffix))

combined_text : Netip → List ℕ → Text → Option Text
unfolding combined
combined_text lib suffix prefix = combined lib suffix (lib.parse_prefix prefix)

-- The current address, then those of the earlier prefixes.
unfoldable pub suffix_addresses : Netip → DynamicPrefix → NetPrefix → List ℕ → List Text
unfolding combined_text
suffix_addresses lib dp current suffix =
    lib.addr_string (combine_prefix_suffix current suffix)
    ∷ over_history (combined_text lib suffix) (max_history dp.transition) dp.history

check_suffix : Text → Addr → Result ServiceError Addr
check_suffix suffix a = if is4 a then err (suffix_not_ipv6 suffix) else ok a

-- The addresses and the current one.
unfoldable pub calculate_suffix_ips :
    Netip → DynamicPrefix → Text → Result ServiceError (List Text × Text)
unfolding check_suffix suffix_addresses
calculate_suffix_ips lib dp suffix = do
  a ← or_err (invalid_suffix suffix) (lib.parse_addr suffix)
  a ← check_suffix suffix a
  if is_blank dp.current_prefix then err no_current_prefix else do
    current ← or_err (invalid_prefix dp.current_prefix) (lib.parse_prefix dp.current_prefix)
    ok (
      suffix_addresses lib dp current (as_16 a),
      lib.addr_string (combine_prefix_suffix current (as_16 a)),
    )

some_contains : Addr → Option NetPrefix → Bool
some_contains a none = false
some_contains a (some p) = contains p a

parsed_contains : Netip → Addr → Text → Bool
unfolding some_contains
parsed_contains lib a prefix = some_contains a (lib.parse_prefix prefix)

-- Whether one of the first `most` earlier prefixes contains an address.
in_history : Netip → Addr → ℕ → List PrefixHistoryEntry → Bool
unfolding parsed_contains
in_history lib a zero es = false
in_history lib a (suc most) [] = false
in_history lib a (suc most) (e ∷ es) = parsed_contains lib a e.prefix || in_history lib a most es

inferred_from : Netip → DynamicPrefix → Addr → Option NetPrefix → Option (Text × List Text)
unfolding in_history
inferred_from lib dp a none = none
inferred_from lib dp a (some current) =
    if contains current a || in_history lib a (max_history dp.transition) dp.history
    then some (
      lib.addr_string (combine_prefix_suffix current (as_16 a)),
      suffix_addresses lib dp current (as_16 a),
    )
    else none

-- `none` is its pair of the empty string and no list.
unfoldable pub calculate_inferred_suffix_ips :
    Netip → DynamicPrefix → Addr → Option (Text × List Text)
unfolding inferred_from
calculate_inferred_suffix_ips lib dp a = inferred_from lib dp a (lib.parse_prefix dp.current_prefix)

abbrev pub range_config : AddressRangeSpec → AddressRangeConfig
range_config s = record { name = s.name; start = s.start; end = s.end }

abbrev pub subnet_config : SubnetSpec → SubnetConfig
subnet_config s = record { name = s.name; offset = s.offset; prefix_length = s.prefix_length }

-- What the loops over the history do with one entry.
abbrev printed : Netip → Option Addr → Option Text
printed lib none = none
printed lib (some a) = some (lib.addr_string a)

in_range : Netip → List ℕ → Result RangeError AddressRange → Option Text
in_range lib offset (err e) = none
in_range lib offset (ok r) = printed lib (offset_address_within r.start r.end offset)

range_ip : Netip → AddressRangeConfig → List ℕ → Option NetPrefix → Option Text
unfolding in_range
range_ip lib cfg offset none = none
range_ip lib cfg offset (some p) =
    in_range lib offset (calculate_address_range lib.parse_addr p cfg)

unfoldable pub historical_range_ip : Netip → AddressRangeConfig → List ℕ → Text → Option Text
unfolding range_ip
historical_range_ip lib cfg offset prefix = range_ip lib cfg offset (lib.parse_prefix prefix)

in_block : Netip → List ℕ → Addr → Option Addr → Option Text
in_block lib offset first none = none
in_block lib offset first (some last) = printed lib (offset_address_within first last offset)

in_subnet : Netip → List ℕ → Result SubnetError Subnet → Option Text
unfolding in_block
in_subnet lib offset (err e) = none
in_subnet lib offset (ok s) = in_block lib offset s.cidr.addr (last_addr_of_prefix s.cidr)

subnet_ip : Netip → SubnetConfig → List ℕ → Option NetPrefix → Option Text
unfolding in_subnet
subnet_ip lib cfg offset none = none
subnet_ip lib cfg offset (some p) = in_subnet lib offset (calculate_subnet p cfg)

unfoldable pub historical_subnet_ip : Netip → SubnetConfig → List ℕ → Text → Option Text
unfolding subnet_ip
historical_subnet_ip lib cfg offset prefix = subnet_ip lib cfg offset (lib.parse_prefix prefix)

-- `(currentPrefixIP, allIPs)`: the assigned address, and what its offset gives in earlier prefixes.
with_offset :
    Netip
    → DynamicPrefix
    → Addr
    → ℕ
    → ServiceError
    → (List ℕ → Text → Option Text)
    → List ℕ × Bool
    → Result ServiceError (Text × List Text)
with_offset lib dp a most below earlier r =
    if not r.1
    then err below
    else ok (lib.addr_string a, lib.addr_string a ∷ over_history (earlier r.0) most dp.history)

unfoldable pub calculate_address_range_ips :
    Netip → DynamicPrefix → Addr → Text → ℕ → Result ServiceError (Text × List Text)
unfolding with_offset
calculate_address_range_ips lib dp a name most = do
  spec ← or_err range_not_defined (find_address_range_spec name dp.address_ranges)
  current ← or_err (invalid_prefix dp.current_prefix) (lib.parse_prefix dp.current_prefix)
  r ← wrap_err range_failed (calculate_address_range lib.parse_addr current (range_config spec))
  with_offset lib dp a most below_range (historical_range_ip lib (range_config spec))
      (calculate_ip_offset r.start a)

unfoldable pub calculate_subnet_ips :
    Netip → DynamicPrefix → Addr → Text → ℕ → Result ServiceError (Text × List Text)
unfolding with_offset
calculate_subnet_ips lib dp a name most = do
  spec ← or_err subnet_not_defined (find_subnet_spec name dp.subnets)
  current ← or_err (invalid_prefix dp.current_prefix) (lib.parse_prefix dp.current_prefix)
  s ← wrap_err subnet_failed (calculate_subnet current (subnet_config spec))
  with_offset lib dp a most below_subnet (historical_subnet_ip lib (subnet_config spec))
      (calculate_ip_offset s.cidr.addr a)

-- The annotations of a Service that this code reads; "" where one is missing.
pub record ServiceAnnotations : Type 0 where
  pub suffix : Text
  pub service_address_range : Text
  pub service_subnet : Text
  pub address_range : Text
  pub subnet : Text

abbrev pub or_backward : Text → Text → Text
or_backward a b = if is_blank a then b else a

-- On an error of the mode, and for an address outside every managed prefix, the address as it is.
abbrev or_unchanged : Text → Result ServiceError (Text × List Text) → List Text × Text
or_unchanged ip (ok (current, all)) = (all, current)
or_unchanged ip (err e) = (ip ∷ [], ip)

-- `currentPrefixIP == ""` stands for no answer, and for an answer that prints as nothing.
abbrev or_left_alone : Text → Option (Text × List Text) → List Text × Text
or_left_alone ip none = (ip ∷ [], ip)
or_left_alone ip (some (current, all)) = if is_blank current then (ip ∷ [], ip) else (all, current)

calculate_parsed : Netip → DynamicPrefix → ServiceAnnotations → Text → Addr → List Text × Text
calculate_parsed lib dp ann ip a =
    let range_name = or_backward ann.service_address_range ann.address_range in
    let subnet_name = or_backward ann.service_subnet ann.subnet in
    let most = max_history dp.transition in
    if not (is_blank range_name)
    then or_unchanged ip (calculate_address_range_ips lib dp a range_name most)
    else if not (is_blank subnet_name)
    then or_unchanged ip (calculate_subnet_ips lib dp a subnet_name most)
    else or_left_alone ip (calculate_inferred_suffix_ips lib dp a)

unfoldable pub calculate_service_ips :
    Netip → DynamicPrefix → ServiceAnnotations → Text → Result ServiceError (List Text × Text)
unfolding calculate_parsed
calculate_service_ips lib dp ann ip = do
  a ← or_err (invalid_address ip) (lib.parse_addr ip)
  ok (calculate_parsed lib dp ann ip a)

some_ipv6 : Option Addr → Bool
some_ipv6 none = false
some_ipv6 (some a) = is6 a

is_ipv6_text : Netip → Text → Bool
unfolding some_ipv6
is_ipv6_text lib ip = some_ipv6 (lib.parse_addr ip)

-- The two loops over the addresses of `status.loadBalancer.ingress`.
first_ipv6 : Netip → List Text → Option Text
unfolding is_ipv6_text
first_ipv6 lib [] = none
first_ipv6 lib (ip ∷ ips) =
    let rest = first_ipv6 lib ips in
    if not (is_blank ip) && is_ipv6_text lib ip then some ip else rest

first_any : List Text → Text
first_any [] = []
first_any (ip ∷ ips) = let rest = first_any ips in if is_blank ip then rest else ip

abbrev or_first : Option Text → Text → Text
or_first (some ip) other = ip
or_first none other = other

unfoldable pub get_current_service_ip : Netip → List Text → Text
unfolding first_ipv6 first_any
get_current_service_ip lib ingress = or_first (first_ipv6 lib ingress) (first_any ingress)

-- What `addressesForService` answers: addresses with the current one, or how long to wait.
pub data ServiceAnswer : Type 0 where
  addresses : List Text → Text → ServiceAnswer
  wait : ℕ → ServiceAnswer

answer : List Text × Text → Result ServiceError ServiceAnswer
answer r = ok (addresses r.0 r.1)

-- The wait is in nanoseconds.
unfoldable pub addresses_for_service :
    Netip → DynamicPrefix → ServiceAnnotations → List Text → Result ServiceError ServiceAnswer
unfolding answer
addresses_for_service lib dp ann ingress =
    if not (is_blank ann.suffix)
    then calculate_suffix_ips lib dp ann.suffix >>= answer
    else if is_blank (get_current_service_ip lib ingress)
    then ok (wait 5_000_000_000)
    else calculate_service_ips lib dp ann (get_current_service_ip lib ingress) >>= answer
