-- ===== src/CrowdSec/Markers.antt =====
-- What internal/controller/crowdsec_controller.go trusts, and what it asks of the local API.
use dynamic_prefix_operator.Prelude.{
  ◌≡◌, refl, ◌∙◌, Bool, false, not, ◌&&◌, ◌||◌, List, [], ◌∷◌, ◌++◌, arith, Bool-cases, inl, inr,
}
use dynamic_prefix_operator.Ownership.Texts.{Text, text_eq, mem, mem-eq, is_blank, Distinct}
use dynamic_prefix_operator.CrowdSec.{
  TrustedEntry, trusted_from, crowdsec_trusted_prefixes, Command, create, expire,
}

mem-snoc : (k y : Text) (xs : List Text) → mem k (xs ++ y ∷ []) ≡ (mem k xs || text_eq k y)
mem-snoc k y [] = ground arith
mem-snoc k y (x ∷ xs) = ground (arith, mem-snoc k y xs)

text_eq_comm : (s t : Text) → text_eq s t ≡ text_eq t s
text_eq_comm [] [] = refl
text_eq_comm [] (d ∷ t) = refl
text_eq_comm (c ∷ s) [] = refl
text_eq_comm (c ∷ s) (d ∷ t) = ground (arith, text_eq_comm s t)

Distinct-snoc :
    (y : Text) (xs : List Text) → Distinct xs → mem y xs ≡ false → Distinct (xs ++ y ∷ [])
Distinct-snoc y [] d h = (refl, tt)
Distinct-snoc y (x ∷ xs) d h =
    (ground (arith, mem-snoc x y xs, text_eq_comm x y, d.0), Distinct-snoc y xs d.1 (ground arith))

-- Whether an entry of a prefix is there that has not expired.
abbrev pub active : Text → List TrustedEntry → Bool
active k [] = false
active k (e ∷ es) = (not e.expired && text_eq k e.prefix) || active k es

trusted_from-mem :
    (prefixes : List Text) (es : List TrustedEntry) (k : Text)
    → mem k (trusted_from prefixes es) ≡ (mem k prefixes || active k es)
unfolding trusted_from
trusted_from-mem prefixes [] k = ground arith
trusted_from-mem prefixes (e ∷ es) k =
    let rest = trusted_from prefixes es in
    let ih = trusted_from-mem prefixes es k in
    elim (Bool-cases (text_eq k e.prefix)) [
      | inl same ↦ ground (arith, ih, mem-snoc k e.prefix rest, mem-eq k e.prefix rest same)
      | inr differs ↦ ground (arith, ih, mem-snoc k e.prefix rest)
    ]

trusted_from-Distinct :
    (prefixes : List Text) (es : List TrustedEntry)
    → Distinct prefixes
    → Distinct (trusted_from prefixes es)
unfolding trusted_from
trusted_from-Distinct prefixes [] d = d
trusted_from-Distinct prefixes (e ∷ es) d =
    let rest = trusted_from prefixes es in
    elim (Bool-cases (e.expired || mem e.prefix rest)) [
      | inl skipped ↦ rw skipped (trusted_from-Distinct prefixes es d)
      | inr fresh ↦
          rw fresh
            (Distinct-snoc e.prefix rest (trusted_from-Distinct prefixes es d) (ground arith))
    ]

-- With a current prefix, the prefixes trusted are distinct, and they are the current one and those of
-- the history that have an entry which has not expired.
pub crowdsec_trusted_prefixes-Distinct :
    (current : Text) (history : List TrustedEntry)
    → is_blank current ≡ false
    → Distinct (crowdsec_trusted_prefixes current history)
      × ((k : Text)
          → mem k (crowdsec_trusted_prefixes current history)
            ≡ (text_eq k current || active k history))
unfolding crowdsec_trusted_prefixes
crowdsec_trusted_prefixes-Distinct current history h = rw h (
  trusted_from-Distinct (current ∷ []) history (refl, tt),
  λ k. trusted_from-mem (current ∷ []) history k ∙ ground arith,
)

-- Whether a list of commands creates, or expires, a marker of a value.
abbrev pub creates : Text → List Command → Bool
creates p [] = false
creates p (create q ∷ cs) = text_eq p q || creates p cs
creates p (expire q ∷ cs) = creates p cs

abbrev pub expires : Text → List Command → Bool
expires p [] = false
expires p (create q ∷ cs) = expires p cs
expires p (expire q ∷ cs) = text_eq p q || expires p cs

-- Whether a list of commands creates a marker of `q` before it expires one of `p`.
abbrev pub created_before : Text → Text → List Command → Bool
created_before q p [] = false
created_before q p (create r ∷ cs) = text_eq q r || created_before q p cs
created_before q p (expire r ∷ cs) = not (text_eq p r) && created_before q p cs
