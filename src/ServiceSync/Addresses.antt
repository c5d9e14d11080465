-- ===== src/ServiceSync/Addresses.antt =====
-- What `addressesForService` of internal/controller/servicesync_controller.go can answer.
use dynamic_prefix_operator.Prelude.{
  ℕ, zero, suc, ◌≤◌, ◌≡◌, refl, subst, arith, length, List, [], ◌∷◌, if◌then◌else◌, Bool,
  Bool-cases, inl, inr, true, false, not, ◌||◌, Option, some, none, Option-cases, Result-cases,
  Result, ok, err, ◌>>=◌,
}
use dynamic_prefix_operator.Net.{Addr, is4, NetPrefix, contains}
use dynamic_prefix_operator.Bytes.{as_16}
use dynamic_prefix_operator.Ownership.Texts.{Text, is_blank}
use dynamic_prefix_operator.Ownership.{Netip}
use dynamic_prefix_operator.History.{PrefixHistoryEntry, max_history}
use dynamic_prefix_operator.Resource.{
  DynamicPrefix, find_address_range_spec, find_subnet_spec, over_history, cons_some,
}
use dynamic_prefix_operator.AddressRange.{calculate_address_range}
use dynamic_prefix_operator.Subnet.{calculate_subnet}
use dynamic_prefix_operator.ServiceSync.{
  ServiceAnnotations, ServiceError, ServiceAnswer, addresses, wait, suffix_addresses,
  calculate_suffix_ips, calculate_inferred_suffix_ips, inferred_from, in_history,
  calculate_address_range_ips, calculate_subnet_ips, with_offset, or_unchanged, or_left_alone,
  calculate_parsed, calculate_service_ips, combine_prefix_suffix, combined_text,
  historical_range_ip, historical_subnet_ip, range_config, subnet_config, calculate_ip_offset,
  get_current_service_ip, answer, addresses_for_service, or_backward, check_suffix,
}

-- The list starts with the current address and has at most one more for each entry of the history
-- that may be used.
abbrev pub Led : ℕ → Text → List Text → Type 0
Led most current [] = ⊥
Led most current (ip ∷ ips) = (ip ≡ current) × (length ips ≤ most)

-- What holds of a result that is no error.
data Ensures {ℓ} {A : Type ℓ} (P : A → Type 0) : Result ServiceError A → Type ℓ where
  gives : (a : A) → P a → Ensures P (ok a)
  fails : (e : ServiceError) → Ensures P (err e)

either_way {ℓ} :
    {A : Type ℓ} {P : A → Type 0} (b : Bool) {x y : Result ServiceError A}
    → Ensures P x
    → Ensures P y
    → Ensures P (if b then x else y)
either_way true h k = h
either_way false h k = k

length-cons_some :
    (o : Option Text) (m : ℕ) (xs : List Text) → length xs ≤ m → length (cons_some o xs) ≤ suc m
length-cons_some none m xs h = omega arith
length-cons_some (some x) m xs h = omega arith

length-over_history :
    (f : Text → Option Text) (most : ℕ) (es : List PrefixHistoryEntry)
    → length (over_history f most es) ≤ most
length-over_history f zero es = omega arith
length-over_history f (suc most) [] = omega arith
length-over_history f (suc most) (e ∷ es) =
    length-cons_some (f e.prefix) most (over_history f most es) (length-over_history f most es)

module _ (lib : Netip) (dp : DynamicPrefix) where
  record LedPair (r : Text × List Text) : Type 0 where
    led : Led (max_history dp.transition) r.0 r.1

  record LedSwapped (r : List Text × Text) : Type 0 where
    led : Led (max_history dp.transition) r.1 r.0

  data LedAnswer : ServiceAnswer → Type 0 where
    answered :
        (ips : List Text) (current : Text)
        → Led (max_history dp.transition) current ips
        → LedAnswer (addresses ips current)
    waits : (n : ℕ) → LedAnswer (wait n)

  suffix_addresses-Led :
      (p : NetPrefix) (bs : List ℕ)
      → Led
          (max_history dp.transition)
          (lib.addr_string (combine_prefix_suffix p bs))
          (suffix_addresses lib dp p bs)
  unfolding suffix_addresses
  suffix_addresses-Led p bs =
      (refl, length-over_history (combined_text lib bs) (max_history dp.transition) dp.history)

  suffix_ips-Led : (suffix : Text) → Ensures LedSwapped (calculate_suffix_ips lib dp suffix)
  unfolding calculate_suffix_ips check_suffix
  suffix_ips-Led suffix = elim (Option-cases (lib.parse_addr suffix)) [
    | inl none_parsed ↦ rw none_parsed (fails _)
    | inr (a, parsed) ↦ elim (Bool-cases (is4 a)) [
      | inl four ↦ rw (parsed, four) (fails _)
      | inr six ↦ elim (Bool-cases (is_blank dp.current_prefix)) [
        | inl blank ↦ rw (parsed, six, blank) (fails _)
        | inr held ↦ elim (Option-cases (lib.parse_prefix dp.current_prefix)) [
          | inl bad ↦ rw (parsed, six, held, bad) (fails _)
          | inr (p, good) ↦
              rw (parsed, six, held, good)
                (gives _ (record { led = suffix_addresses-Led p (as_16 a) }))
        ]
      ]
    ]
  ]

  with_offset-Led :
      (a : Addr) (below : ServiceError) (earlier : List ℕ → Text → Option Text) (r : List ℕ × Bool)
      → Ensures LedPair (with_offset lib dp a (max_history dp.transition) below earlier r)
  unfolding with_offset
  with_offset-Led a below earlier r = either_way (not r.1) (fails below) (
      gives _ (record {
        led = (refl, length-over_history (earlier r.0) (max_history dp.transition) dp.history);
      }))

  range_ips-Led :
      (a : Addr) (name : Text)
      → Ensures LedPair (calculate_address_range_ips lib dp a name (max_history dp.transition))
  unfolding calculate_address_range_ips
  range_ips-Led a name = elim (Option-cases (find_address_range_spec name dp.address_ranges)) [
    | inl unknown ↦ rw unknown (fails _)
    | inr (spec, known) ↦ elim (Option-cases (lib.parse_prefix dp.current_prefix)) [
      | inl bad ↦ rw (known, bad) (fails _)
      | inr (p, good) ↦
          elim (Result-cases (calculate_address_range lib.parse_addr p (range_config spec))) [
            | inl (r, placed) ↦
                rw (known, good, placed)
                  (with_offset-Led a ServiceError.below_range
                    (historical_range_ip lib (range_config spec)) (calculate_ip_offset r.start a))
            | inr (e, refused) ↦ rw (known, good, refused) (fails _)
          ]
    ]
  ]

  subnet_ips-Led :
      (a : Addr) (name : Text)
      → Ensures LedPair (calculate_subnet_ips lib dp a name (max_history dp.transition))
  unfolding calculate_subnet_ips
  subnet_ips-Led a name = elim (Option-cases (find_subnet_spec name dp.subnets)) [
    | inl unknown ↦ rw unknown (fails _)
    | inr (spec, known) ↦ elim (Option-cases (lib.parse_prefix dp.current_prefix)) [
      | inl bad ↦ rw (known, bad) (fails _)
      | inr (p, good) ↦ elim (Result-cases (calculate_subnet p (subnet_config spec))) [
        | inl (r, placed) ↦
            rw (known, good, placed)
              (with_offset-Led a ServiceError.below_subnet
                (historical_subnet_ip lib (subnet_config spec)) (calculate_ip_offset r.cidr.addr a))
        | inr (e, refused) ↦ rw (known, good, refused) (fails _)
      ]
    ]
  ]

  alone-Led : (ip : Text) → LedSwapped (ip ∷ [], ip)
  alone-Led ip = record { led = (refl, omega arith) }

  swap_if :
      (b : Bool) {x y : List Text × Text}
      → LedSwapped x
      → LedSwapped y
      → LedSwapped (if b then x else y)
  swap_if true h k = h
  swap_if false h k = k

  inferred_from-Led :
      (ip : Text) (a : Addr) (o : Option NetPrefix)
      → LedSwapped (or_left_alone ip (inferred_from lib dp a o))
  unfolding inferred_from
  inferred_from-Led ip a none = alone-Led ip
  inferred_from-Led ip a (some p) =
      elim (Bool-cases (contains p a || in_history lib a (max_history dp.transition) dp.history)) [
        | inl inside ↦ rw inside (
            swap_if (is_blank (lib.addr_string (combine_prefix_suffix p (as_16 a)))) (alone-Led ip)
              (record { led = suffix_addresses-Led p (as_16 a) }))
        | inr outside ↦ rw outside (alone-Led ip)
      ]

  unchanged-Led :
      (ip : Text) {r : Result ServiceError (Text × List Text)}
      → Ensures LedPair r
      → LedSwapped (or_unchanged ip r)
  unchanged-Led ip (gives r h) = record { led = h.led }
  unchanged-Led ip (fails e) = alone-Led ip

  calculate_parsed-Led :
      (ann : ServiceAnnotations) (ip : Text) (a : Addr)
      → LedSwapped (calculate_parsed lib dp ann ip a)
  unfolding calculate_parsed calculate_inferred_suffix_ips
  calculate_parsed-Led ann ip a =
      let range_name = or_backward ann.service_address_range ann.address_range in
      let subnet_name = or_backward ann.service_subnet ann.subnet in
      swap_if (not (is_blank range_name)) (unchanged-Led ip (range_ips-Led a range_name)) (
        swap_if (not (is_blank subnet_name)) (unchanged-Led ip (subnet_ips-Led a subnet_name))
          (inferred_from-Led ip a (lib.parse_prefix dp.current_prefix)))

  service_ips-Led :
      (ann : ServiceAnnotations) (ip : Text)
      → Ensures LedSwapped (calculate_service_ips lib dp ann ip)
  unfolding calculate_service_ips
  service_ips-Led ann ip = elim (Option-cases (lib.parse_addr ip)) [
    | inl bad ↦ rw bad (fails _)
    | inr (a, good) ↦ rw good (gives _ (calculate_parsed-Led ann ip a))
  ]

  answer-Led :
      {r : Result ServiceError (List Text × Text)}
      → Ensures LedSwapped r
      → Ensures LedAnswer (r >>= answer)
  unfolding answer
  answer-Led (gives r h) = gives _ (answered r.0 r.1 h.led)
  answer-Led (fails e) = fails e

  all-Led :
      (ann : ServiceAnnotations) (ingress : List Text)
      → Ensures LedAnswer (addresses_for_service lib dp ann ingress)
  unfolding addresses_for_service
  all-Led ann ingress =
      either_way (not (is_blank ann.suffix)) (answer-Led (suffix_ips-Led ann.suffix)) (
        either_way (is_blank (get_current_service_ip lib ingress)) (gives _ (waits 5_000_000_000))
          (answer-Led (service_ips-Led ann (get_current_service_ip lib ingress))))

  found :
      {ips : List Text} {current : Text}
      → Ensures LedAnswer (ok (addresses ips current))
      → Led (max_history dp.transition) current ips
  found (gives _ (answered ips current h)) = h

-- Whatever the mode and the fallbacks taken, when the calculation answers with addresses, their list is
-- not empty: it starts with the current address, and it has at most as many more as entries of the
-- history may be used.
pub addresses_for_service-Led :
    (lib : Netip) (dp : DynamicPrefix) (ann : ServiceAnnotations) (ingress ips : List Text)
    (current : Text)
    → addresses_for_service lib dp ann ingress ≡ ok (addresses ips current)
    → Led (max_history dp.transition) current ips
addresses_for_service-Led lib dp ann ingress ips current e = found lib dp (
    subst (λ (r : Result ServiceError ServiceAnswer). Ensures (LedAnswer lib dp) r) e
      (all-Led lib dp ann ingress))
