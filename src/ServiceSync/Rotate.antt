-- ===== src/ServiceSync/Rotate.antt =====
-- What happens to an assigned address when the prefix changes, in address range mode of
-- internal/controller/servicesync_controller.go.
use native.Mathlib.Nat.{mod-lt, mod-add-div', div-lt_iff_lt-mul}
use dynamic_prefix_operator.Prelude.{
  ℕ, zero, suc, ◌+◌, ◌-◌, ◌*◌, ◌/◌, ◌%◌, ◌^◌, ◌≤◌, ◌<◌, ◌≡◌, ◌⊎◌, refl, sym, ap, ◌∙◌, subst, arith,
  leb, ltb, List, [], ◌∷◌, if◌then◌else◌, inl, inr, true, false, ==_iff, Option, some, none, ok,
}
use dynamic_prefix_operator.Prelude.Powers.{pow-add, pow_pos, index-lt-pow}
use dynamic_prefix_operator.Bytes.{value_of, as_16}
use dynamic_prefix_operator.Net.{
  Addr, NetPrefix, IsIpv6, mask, contains, contains-ipv6, ipv6-shape, is6,
}
use dynamic_prefix_operator.Ownership.Texts.{Text}
use dynamic_prefix_operator.Ownership.{Netip}
use dynamic_prefix_operator.History.{PrefixHistoryEntry, max_history}
use dynamic_prefix_operator.Resource.{
  DynamicPrefix, AddressRangeSpec, find_address_range_spec, over_history,
}
use dynamic_prefix_operator.AddressRange.{AddressRangeConfig, calculate_address_range}
use dynamic_prefix_operator.AddressRange.Suffix.{at_value, at_mask, calculate_address_range_lem}
use dynamic_prefix_operator.ServiceSync.{
  calculate_ip_offset, offset_address_within, combine_prefix_suffix, combined_text,
  suffix_addresses, historical_range_ip, range_ip, in_range, combined, range_config,
  calculate_address_range_ips, with_offset,
}
use dynamic_prefix_operator.ServiceSync.Combine.{combine_prefix_suffix-at_suffix}
use dynamic_prefix_operator.ServiceSync.Offset.{calculate_ip_offset_lem, offset_address_within_lem}

abbrev pub low : ℕ → ℕ → ℕ
low n w = w % 2 ^ (128 - n)

mask_low_fits : (n u r : ℕ) → n ≤ 128 → u < 2 ^ 128 → r < 2 ^ (128 - n) → mask n u + r < 2 ^ 128
mask_low_fits n u r h hu hr =
    let e : n + (128 - n) ≡ 128 = omega arith in
    let whole : u < 2 ^ n * 2 ^ (128 - n) =
      subst (λ (t : ℕ). u < t) (sym (ap (λ (t : ℕ). 2 ^ t) e) ∙ pow-add n (128 - n)) hu in
    let i : u / 2 ^ (128 - n) < 2 ^ n = (div-lt_iff_lt-mul (pow_pos (128 - n))).1 whole in
    subst (λ (t : ℕ). mask n u + r < 2 ^ t) e (index-lt-pow n (128 - n) (u / 2 ^ (128 - n)) r i hr)

split_low : (n v w : ℕ) → mask n v ≡ mask n w → w ≡ mask n v + low n w
split_low n v w e = omega (arith, mod-add-div' w (2 ^ (128 - n)), e)

from_first :
    (m a x w : ℕ)
    → w < 2 ^ 128
    → w ≡ m + x
    → a ≤ x
    → (leb (m + a) w ≡ true) × ((w + 2 ^ 128 - (m + a)) % 2 ^ 128 ≡ x - a)
from_first m a x w hw e h = (ground arith, omega arith)

onto_first :
    (m a b x o : ℕ)
    → o ≡ x - a
    → a ≤ x
    → x ≤ b
    → (if leb (m + a + o) (m + b) then some (at_value (m + a + o)) else none)
      ≡ some (at_value (m + x))
onto_first m a b x o e h k =
    let sum : m + a + o ≡ m + x = omega arith in
    let stays : leb (m + x) (m + b) ≡ true = ground arith in rw (sum, stays) refl

-- The address `w` of a prefix, at the offset from the low part `a` of the first address of a range,
-- placed in a range of another prefix with low parts `a` and `b`.
module _ (n v u w a b : ℕ) (h : n ≤ 128) (hv : v < 2 ^ 128) (hu : u < 2 ^ 128) (hw : w < 2 ^ 128)
    (inside : mask n v ≡ mask n w) (ha : a < 2 ^ (128 - n)) (hb : b < 2 ^ (128 - n))
    (above : a ≤ low n w) (below : low n w ≤ b) where
  distance : (calculate_ip_offset (at_value (mask n v + a)) (at_value w)).1 ≡ true
  distance =
      let c =
        calculate_ip_offset_lem (at_value (mask n v + a)) (at_value w) (mask_low_fits n v a h hv ha)
          hw in
      c.2 ∙ (from_first (mask n v) a (low n w) w hw (split_low n v w inside) above).0

  moved :
      offset_address_within
        (at_value (mask n u + a))
        (at_value (mask n u + b))
        (calculate_ip_offset (at_value (mask n v + a)) (at_value w)).0
      ≡ some (at_value (mask n u + low n w))
  moved =
      let s = mask_low_fits n v a h hv ha in
      let c = calculate_ip_offset_lem (at_value (mask n v + a)) (at_value w) s hw in
      let o = (calculate_ip_offset (at_value (mask n v + a)) (at_value w)).0 in
      let value : value_of o ≡ low n w - a =
        c.1 ∙ (from_first (mask n v) a (low n w) w hw (split_low n v w inside) above).1 in
      offset_address_within_lem (mask n u + a) (mask n u + b) o (mask_low_fits n u a h hu ha)
        (mask_low_fits n u b h hu hb) c.0
      ∙ onto_first (mask n u) a b (low n w) (value_of o) value above below

-- A range of low parts that holds that of an assigned address.
record Holds (n : ℕ) (t a b : Addr) : Type 0 where
  above : low n a.value ≤ low n t.value
  below : low n t.value ≤ low n b.value

-- An entry of the history that does not parse, or is an IPv6 prefix of the length of the current one.
abbrev pub OfLength : Netip → NetPrefix → Text → Type 0
OfLength lib p text =
    (lib.parse_prefix text ≡ none)
    ⊎ ((q : NetPrefix) × (lib.parse_prefix text ≡ some q)
        × IsIpv6 q
        × (q.bits_plus_one ≡ p.bits_plus_one))

abbrev pub AllOfLength : Netip → NetPrefix → List PrefixHistoryEntry → Type 0
AllOfLength lib p [] = Unit
AllOfLength lib p (e ∷ es) = OfLength lib p e.prefix × AllOfLength lib p es

abbrev AllSame : (Text → Option Text) → (Text → Option Text) → List PrefixHistoryEntry → Type 0
AllSame f g [] = Unit
AllSame f g (e ∷ es) = (f e.prefix ≡ g e.prefix) × AllSame f g es

-- The same entries give the same texts.
over_history-same :
    (f g : Text → Option Text) (most : ℕ) (es : List PrefixHistoryEntry)
    → AllSame f g es
    → over_history f most es ≡ over_history g most es
over_history-same f g zero es h = refl
over_history-same f g (suc most) [] h = refl
over_history-same f g (suc most) (e ∷ es) h = rw (h.0, over_history-same f g most es h.1) refl

module _ (lib : Netip) (cfg : AddressRangeConfig) (a b : Addr) (n w : ℕ)
    (pa : lib.parse_addr cfg.start ≡ some a) (sa : is6 a ≡ true)
    (pb : lib.parse_addr cfg.end ≡ some b) (sb : is6 b ≡ true) (above : low n a.value ≤ low n w)
    (below : low n w ≤ low n b.value) where
  range_at :
      (q : NetPrefix)
      → IsIpv6 q
      → q.bits_plus_one - 1 ≡ n
      → calculate_address_range lib.parse_addr q cfg
        ≡ ok (record {
          name = cfg.name;
          start = at_mask q.addr.value n a;
          end = at_mask q.addr.value n b;
        })
  range_at q v e =
      let ordered : ltb (low n b.value) (low n a.value) ≡ false = ground arith in
      calculate_address_range_lem lib.parse_addr q cfg v a b pa sa pb sb ∙ rw (e, ordered) refl

  module _ (p : NetPrefix) (vp : IsIpv6 p) (ep : p.bits_plus_one - 1 ≡ n) (hw : w < 2 ^ 128)
      (inside : mask n p.addr.value ≡ mask n w) where
    entry :
        (text : Text)
        → OfLength lib p text
        → historical_range_ip lib cfg
            (calculate_ip_offset (at_mask p.addr.value n a) (at_value w)).0
            text
          ≡ combined_text lib (as_16 (at_value w)) text
    unfolding historical_range_ip range_ip in_range combined_text combined
    entry text (inl unparsed) = rw unparsed refl
    entry text (inr (q, parsed, vq, eq)) =
        let e : q.bits_plus_one - 1 ≡ n = ap (λ (k : ℕ). k - 1) eq ∙ ep in
        let h : n ≤ 128 = omega (arith, vp.length_fits) in
        let m =
          moved n p.addr.value q.addr.value w (low n a.value) (low n b.value) h vp.value_fits
            vq.value_fits hw inside (mod-lt a.value (pow_pos (128 - n)))
            (mod-lt b.value (pow_pos (128 - n))) above below in
        let c : combine_prefix_suffix q (as_16 (at_value w)) ≡ at_mask q.addr.value n (at_value w) =
          combine_prefix_suffix-at_suffix q (at_value w) vq
          ∙ ap (λ (k : ℕ). at_mask q.addr.value k (at_value w)) e in
        rw (parsed, range_at q vq e, m, c) refl

    entries :
        (es : List PrefixHistoryEntry)
        → AllOfLength lib p es
        → AllSame
            (historical_range_ip lib cfg
              (calculate_ip_offset (at_mask p.addr.value n a) (at_value w)).0)
            (combined_text lib (as_16 (at_value w)))
            es
    entries [] h = tt
    entries (e ∷ es) h = (entry e.prefix h.0, entries es h.1)

inside_prefix :
    (p : NetPrefix)
    → (w : ℕ) → IsIpv6 p
    → contains p (at_value w) ≡ true
    → mask (p.bits_plus_one - 1) p.addr.value ≡ mask (p.bits_plus_one - 1) w
inside_prefix p w v c =
    let n = p.bits_plus_one - 1 in
    let shaped = subst (λ (q : NetPrefix). contains q (at_value w) ≡ true) (ipv6-shape p v) c in
    (==_iff (mask n p.addr.value) (mask n w)).0 (sym (contains-ipv6 p.addr.value n w) ∙ shaped)

combined_again :
    (p : NetPrefix)
    → (w : ℕ) → IsIpv6 p
    → contains p (at_value w) ≡ true
    → combine_prefix_suffix p (as_16 (at_value w)) ≡ at_value w
combined_again p w v c =
    combine_prefix_suffix-at_suffix p (at_value w) v
    ∙ ap at_value (sym (split_low (p.bits_plus_one - 1) p.addr.value w (inside_prefix p w v c)))

-- Address range mode, for a range that is in the spec with ends that parse as IPv6 addresses, a current
-- prefix that parses as a valid IPv6 one, an assigned address in it whose low bits are between those of
-- the ends, and a history whose entries do not parse or are valid IPv6 prefixes of the same length: the
-- assigned address is kept, and the addresses are those that suffix mode computes from its bits, the
-- same host part in the current prefix and in each entry that may be used.
pub calculate_address_range_ips-suffix_addresses :
    (lib : Netip) (dp : DynamicPrefix) (name : Text) (spec : AddressRangeSpec)
    → (p : NetPrefix) (a b : Addr) (w : ℕ)
    → find_address_range_spec name dp.address_ranges ≡ some spec
    → lib.parse_prefix dp.current_prefix ≡ some p
    → IsIpv6 p
    → lib.parse_addr spec.start ≡ some a
    → is6 a ≡ true
    → lib.parse_addr spec.end ≡ some b
    → is6 b ≡ true
    → w < 2 ^ 128
    → contains p (at_value w) ≡ true
    → low (p.bits_plus_one - 1) a.value ≤ low (p.bits_plus_one - 1) w
    → low (p.bits_plus_one - 1) w ≤ low (p.bits_plus_one - 1) b.value
    → AllOfLength lib p dp.history
    → calculate_address_range_ips lib dp (at_value w) name (max_history dp.transition)
      ≡ ok (lib.addr_string (at_value w), suffix_addresses lib dp p (as_16 (at_value w)))
unfolding calculate_address_range_ips with_offset suffix_addresses
calculate_address_range_ips-suffix_addresses lib dp name spec p a b w found parsed v pa sa pb sb hw
      c above below earlier =
    let n = p.bits_plus_one - 1 in
    let h : n ≤ 128 = omega (arith, v.length_fits) in
    let inside = inside_prefix p w v c in
    let r = range_at lib (range_config spec) a b n w pa sa pb sb above below p v refl in
    let d =
      distance n p.addr.value p.addr.value w (low n a.value) (low n b.value) h v.value_fits
        v.value_fits hw inside (mod-lt a.value (pow_pos (128 - n)))
        (mod-lt b.value (pow_pos (128 - n))) above below in
    let es =
      entries lib (range_config spec) a b n w pa sa pb sb above below p v refl hw inside dp.history
        earlier in
    rw
      (
        found,
        parsed,
        r,
        d,
        combined_again p w v c,
        over_history-same
            (historical_range_ip lib (range_config spec)
              (calculate_ip_offset (at_mask p.addr.value n a) (at_value w)).0)
            (combined_text lib (as_16 (at_value w))) (max_history dp.transition) dp.history es,
      )
      refl
