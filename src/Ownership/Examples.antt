-- ===== src/Ownership/Examples.antt =====
-- Passes of internal/controller/ownedlist.go over a list with an entry of a user and one of an earlier
-- pass, and lists of entries in more than one spelling.
use dynamic_prefix_operator.Prelude.{
  ◌≡◌, refl, Bool, true, false, Option, none, some, List, [], ◌∷◌, inl, inr, Bool-cases, arith,
  if◌then◌else◌,
}
use dynamic_prefix_operator.Net.{Addr, ip6}
use dynamic_prefix_operator.Ownership.Texts.{
  Text, text_eq, text_eq_refl, text_eq→eq, texts_eq, texts_eq→eq,
}
use dynamic_prefix_operator.Ownership.{
  Netip, canonical_entry, parse_ownership_record, OwnedEntry, Pool, preserved, sync_owned_list,
  is_owned,
}
use dynamic_prefix_operator.Ownership.Settles.{Fit, sync-preserved, sync-settles}

-- The texts "a" and "A" are one address, printed as "a"; all else is no address and no prefix.
abbrev parse : Text → Option Addr
parse s =
    if text_eq s (97 ∷ [])
    then some (record { kind = ip6 ""; value = 1 })
    else if text_eq s (65 ∷ [])
    then some (record { kind = ip6 ""; value = 1 })
    else none

abbrev lib : Netip
lib = record {
  parse_addr = parse;
  addr_string = λ a. 97 ∷ [];
  parse_prefix = λ s. none;
  prefix_string = λ p. [];
}

-- "a", "A" and "b"
abbrev lower : Text
lower = 97 ∷ []

abbrev upper : Text
upper = 65 ∷ []

abbrev other : Text
other = 98 ∷ []

texts_eq_refl : (ss : List Text) → texts_eq ss ss ≡ true
texts_eq_refl [] = refl
texts_eq_refl (s ∷ ss) = ground (arith, texts_eq_refl ss, text_eq_refl s)

-- The keys of the entries, as the backends give them.
abbrev key_of : Text → Text
key_of s = if text_eq s upper then lower else s

key_of-canonical : (s : Text) → canonical_entry lib (key_of s) ≡ key_of s
unfolding canonical_entry
key_of-canonical s = elim (Bool-cases (text_eq s upper)) [
  | inl is_upper ↦ rw is_upper refl
  | inr not_upper ↦ elim (Bool-cases (text_eq s lower)) [
    | inl is_lower ↦ rw (text_eq→eq s lower is_lower) refl
    | inr not_lower ↦ ground arith
  ]
]

abbrev pool : Pool Text
pool = record { field = upper ∷ other ∷ []; annotation = some other }

abbrev desired : List (OwnedEntry Text)
desired = record { value = lower; key = lower } ∷ record { value = 99 ∷ []; key = 99 ∷ [] } ∷ []

abbrev owned : Text → Bool
owned s = is_owned lib key_of (parse_ownership_record lib (some other)) s

desired-Fit : Fit lib key_of texts_eq desired
unfolding canonical_entry
desired-Fit = (inr (refl, refl, refl), (inr (refl, refl, refl), tt))

abbrev synced : Pool Text
synced = (sync_owned_list texts_eq key_of owned desired pool).0

sync-preserved_example :
    preserved (is_owned lib key_of (parse_ownership_record lib synced.annotation)) synced.field
    ≡ preserved owned pool.field
sync-preserved_example =
    sync-preserved lib key_of texts_eq owned desired pool texts_eq→eq key_of-canonical desired-Fit
      (refl, (refl, tt))

sync-settles_example :
    sync_owned_list texts_eq key_of
      (is_owned lib key_of (parse_ownership_record lib synced.annotation))
      desired
      synced
    ≡ (synced, false)
sync-settles_example =
    sync-settles lib key_of texts_eq owned desired pool texts_eq→eq texts_eq_refl key_of-canonical
      desired-Fit (refl, (refl, tt))
