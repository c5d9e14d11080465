-- ===== src/Ra/Select.antt =====
-- Which prefix of an advertisement internal/prefix/ra_receiver.go takes.
use native.Mathlib.Nat.{add-zero}
use mathlib.Core.Path.{ap₂}
use dynamic_prefix_operator.Prelude.{
  ℕ, suc, ◌+◌, ◌%◌, ◌^◌, ◌≡◌, refl, sym, ◌∙◌, ap, Bool, not, ◌&&◌, Option, none, some, List, [],
  ◌∷◌, ltb, if◌then◌else◌, is_ok, arith, inl, inr, Option-cases,
}
use dynamic_prefix_operator.Prelude.Int.{ℤ, pos, leb_ℤ}
use dynamic_prefix_operator.Types.{Prefix, router_advertisement}
use dynamic_prefix_operator.Net.{prefix_from, masked}
use dynamic_prefix_operator.Policy.{Policy, check_length, is_global_unicast, is_ula}
use dynamic_prefix_operator.Ra.{
  RaReceiver, PrefixInformation, RaOption, prefix_information, other_option, Scan, consider, scan,
  adopt, handle_router_advertisement, update_prefix, record_rejection,
}

-- An option that may be taken: on-link, with a valid lifetime, and of a length in the bounds.
abbrev pub is_usable : Policy → PrefixInformation → Bool
is_usable p pi =
    pi.on_link
    && not (leb_ℤ pi.valid_lifetime (pos 0) && leb_ℤ (pos 0) pi.valid_lifetime)
    && is_ok (check_length p (pos pi.prefix_length))

abbrev pub is_usable_global : Policy → PrefixInformation → Bool
is_usable_global p pi = is_usable p pi && is_global_unicast pi.prefix

abbrev pub is_usable_local : Policy → PrefixInformation → Bool
is_usable_local p pi =
    is_usable p pi
    && not (is_global_unicast pi.prefix)
    && is_ula pi.prefix
    && not p.require_global_unicast

abbrev pub first_where : (PrefixInformation → Bool) → List RaOption → Option PrefixInformation
first_where test [] = none
first_where test (other_option ∷ os) = first_where test os
first_where test (prefix_information pi ∷ os) = if test pi then some pi else first_where test os

abbrev pub or_else {ℓ} : {A : Type ℓ} → Option A → Option A → Option A
or_else none later = later
or_else (some a) later = some a

-- The rule: the first usable global prefix, and only without one the first usable unique-local one.
unfoldable pub selected : Policy → List RaOption → Option PrefixInformation
selected p os = or_else (first_where (is_usable_global p) os) (first_where (is_usable_local p) os)

-- The rule for the rest of the options, with a best one so far.
improved : Policy → List RaOption → Option PrefixInformation → Option PrefixInformation
improved p os none =
    or_else (first_where (is_usable_global p) os) (first_where (is_usable_local p) os)
improved p os (some b) =
    if is_global_unicast b.prefix
    then some b
    else or_else (first_where (is_usable_global p) os) (some b)

policy_of : Scan → Policy
policy_of s = s.receiver.ra_policy.policy

consider_policy : (pi : PrefixInformation) (s : Scan) → policy_of (consider pi s) ≡ policy_of s
unfolding consider policy_of record_rejection
consider_policy pi s = ground arith

improved-consider :
    (pi : PrefixInformation) (os : List RaOption) (s : Scan)
    → improved (policy_of s) os (consider pi s).best
      ≡ improved (policy_of s) (prefix_information pi ∷ os) s.best
unfolding consider policy_of improved
improved-consider pi os s = elim (Option-cases s.best) [
  | inl missing ↦ ground arith
  | inr (b, best) ↦ ground arith
]

improved-other :
    (p : Policy) (os : List RaOption) (b : Option PrefixInformation)
    → improved p os b ≡ improved p (other_option ∷ os) b
unfolding improved
improved-other p os none = refl
improved-other p os (some b) = refl

scan-improved :
    (os : List RaOption) (s : Scan) → (scan os s).best ≡ improved (policy_of s) os s.best
unfolding scan
scan-improved [] s = elim (Option-cases s.best) [
  | inl missing ↦ unfold improved in ground arith
  | inr (b, best) ↦ unfold improved in ground arith
]
scan-improved (other_option ∷ os) s = scan-improved os s ∙ improved-other (policy_of s) os s.best
scan-improved (prefix_information pi ∷ os) s =
    scan-improved os (consider pi s)
    ∙ ap (λ p. improved p os (consider pi s).best) (consider_policy pi s)
    ∙ improved-consider pi os s

pub scan-selected :
    (os : List RaOption) (r : RaReceiver)
    → (scan os (record { receiver = r; best = none })).best ≡ selected r.ra_policy.policy os
unfolding selected improved policy_of
scan-selected os r = scan-improved os (record { receiver = r; best = none })

-- How many on-link options with a valid lifetime have a length out of the bounds.
abbrev pub out_of_bounds : Policy → List RaOption → ℕ
out_of_bounds p [] = 0
out_of_bounds p (other_option ∷ os) = out_of_bounds p os
out_of_bounds p (prefix_information pi ∷ os) =
    if (pi.on_link
      && not (leb_ℤ pi.valid_lifetime (pos 0) && leb_ℤ (pos 0) pi.valid_lifetime)
      && not (is_ok (check_length p (pos pi.prefix_length))))
    then suc (out_of_bounds p os)
    else out_of_bounds p os

-- The loop over the options moves nothing of the receiver but the count of rejections and its reason.
consider_counts :
    (pi : PrefixInformation) (s : Scan) (p : Policy) (os : List RaOption)
    → s.receiver.ra_policy.policy ≡ p
    → ((consider pi s).receiver.current_prefix ≡ s.receiver.current_prefix)
      × ((consider pi s).receiver.events ≡ s.receiver.events)
      × ((consider pi s).receiver.health ≡ s.receiver.health)
      × (((consider pi s).receiver.rejected + out_of_bounds p os) % 2 ^ 64
          ≡ (s.receiver.rejected + out_of_bounds p (prefix_information pi ∷ os)) % 2 ^ 64)
unfolding consider record_rejection
consider_counts pi s p os e = ground arith

pub scan_counts :
    (os : List RaOption) (s : Scan) (p : Policy)
    → s.receiver.ra_policy.policy ≡ p
    → ((scan os s).receiver.current_prefix ≡ s.receiver.current_prefix)
      × ((scan os s).receiver.events ≡ s.receiver.events)
      × ((scan os s).receiver.health ≡ s.receiver.health)
      × ((scan os s).receiver.rejected % 2 ^ 64
          ≡ (s.receiver.rejected + out_of_bounds p os) % 2 ^ 64)
unfolding scan
scan_counts [] s p e =
    (refl, refl, refl, ap (λ (t : ℕ). t % 2 ^ 64) (sym (add-zero s.receiver.rejected)))
scan_counts (other_option ∷ os) s p e = scan_counts os s p e
scan_counts (prefix_information pi ∷ os) s p e =
    let rest = scan_counts os (consider pi s) p (unfold policy_of in consider_policy pi s ∙ e) in
    let here = consider_counts pi s p os e in
    (rest.0 ∙ here.0, rest.1 ∙ here.1, rest.2 ∙ here.2, rest.3 ∙ here.3)

abbrev pub prefix_after : ℤ → Option PrefixInformation → Option Prefix → Option Prefix
prefix_after now none p = p
prefix_after now (some pi) p =
    if ltb 128 pi.prefix_length
    then p
    else some (record {
      network = masked (prefix_from pi.prefix (pos pi.prefix_length));
      valid_lifetime = pi.valid_lifetime;
      preferred_lifetime = pi.preferred_lifetime;
      source = router_advertisement;
      received_at = now;
    })

pub adopt_after :
    (now : ℤ) (o : Option PrefixInformation) (r : RaReceiver)
    → ((adopt now o r).rejected ≡ r.rejected)
      × ((adopt now o r).current_prefix ≡ prefix_after now o r.current_prefix)
unfolding adopt update_prefix
adopt_after now none r = (refl, refl)
adopt_after now (some pi) r = ground arith

-- An advertisement is counted, modulo 2 ^ 64, once for each of its on-link prefix options with a
-- valid lifetime other than zero whose length is out of the bounds, and changes the prefix held exactly
-- when the rule selects an option of at most 128 bits: then it is that option's network, masked, with
-- its lifetimes, from the present time on.
pub handle-selected :
    (now : ℤ) (os : List RaOption) (r : RaReceiver)
    → let s = handle_router_advertisement now os r in
      (s.rejected % 2 ^ 64 ≡ (r.rejected + out_of_bounds r.ra_policy.policy os) % 2 ^ 64)
      × (s.current_prefix ≡ prefix_after now (selected r.ra_policy.policy os) r.current_prefix)
unfolding handle_router_advertisement
handle-selected now os r =
    let s = scan os (record { receiver = r; best = none }) in
    let kept = scan_counts os (record { receiver = r; best = none }) r.ra_policy.policy refl in
    let done = adopt_after now s.best s.receiver in
    (
      ap (λ (t : ℕ). t % 2 ^ 64) done.0 ∙ kept.3,
      done.1 ∙ ap₂ (prefix_after now) (scan-selected os r) kept.0,
    )
