-- ===== src/History/Kept.antt =====
-- What the history of internal/controller/dynamicprefix_controller.go holds.
use dynamic_prefix_operator.Prelude.{
  ℕ, zero, suc, ◌-◌, ◌≤◌, ◌≡◌, refl, sym, ap, ◌∙◌, false, ◌||◌, Option, List, [], ◌∷◌, ◌++◌, length,
  drop, arith, Bool-cases, inl, inr, ◌⊎◌,
}
use dynamic_prefix_operator.Prelude.Int.{ℤ}
use dynamic_prefix_operator.Ownership.Texts.{
  Text, text_eq, text_eq→eq, mem, mem-eq, is_blank, Distinct,
}
use dynamic_prefix_operator.History.{
  PrefixHistoryEntry, Status, without, max_history, limited, handle_prefix_change, observe,
  observe_all,
}

abbrev pub prefixes : List PrefixHistoryEntry → List Text
prefixes [] = []
prefixes (e ∷ es) = e.prefix ∷ prefixes es

-- The history has no prefix twice, not the current one, and nothing before there was a current one.
pub record Apart (s : Status) : Type 0 where
  pub distinct : Distinct (prefixes s.history)
  pub not_current : mem s.current_prefix (prefixes s.history) ≡ false
  pub after_first : (is_blank s.current_prefix ≡ false) ⊎ (s.history ≡ [])

without-mem :
    (old new k : Text) (es : List PrefixHistoryEntry)
    → mem k (prefixes es) ≡ false
    → mem k (prefixes (without old new es)) ≡ false
unfolding without
without-mem old new k [] h = refl
without-mem old new k (e ∷ es) h = ground (arith, without-mem old new k es)

text_eq_sym : (s t : Text) → text_eq s t ≡ text_eq t s
text_eq_sym s t = elim (Bool-cases (text_eq s t)) [
  | inl same ↦ rw (text_eq→eq s t same) refl
  | inr differs ↦ elim (Bool-cases (text_eq t s)) [
    | inl same ↦ rw (text_eq→eq t s same) refl
    | inr differs' ↦ differs ∙ sym differs'
  ]
]

without-old_new :
    (old new : Text) (es : List PrefixHistoryEntry)
    → (mem old (prefixes (without old new es)) ≡ false)
      × (mem new (prefixes (without old new es)) ≡ false)
unfolding without
without-old_new old new [] = (refl, refl)
without-old_new old new (e ∷ es) =
    ground (arith, without-old_new old new es, text_eq_sym e.prefix old, text_eq_sym e.prefix new)

without-Distinct :
    (old new : Text) (es : List PrefixHistoryEntry)
    → Distinct (prefixes es)
    → Distinct (prefixes (without old new es))
unfolding without
without-Distinct old new [] d = tt
without-Distinct old new (e ∷ es) d =
    ground (arith, without-Distinct old new es d.1, without-mem old new e.prefix es d.0)

snoc-mem :
    (k : Text) (es : List PrefixHistoryEntry) (e : PrefixHistoryEntry)
    → mem k (prefixes (es ++ e ∷ [])) ≡ (mem k (prefixes es) || text_eq k e.prefix)
snoc-mem k [] e = ground arith
snoc-mem k (x ∷ es) e = ground (arith, snoc-mem k es e)

snoc-Distinct :
    (es : List PrefixHistoryEntry) (e : PrefixHistoryEntry)
    → Distinct (prefixes es)
    → mem e.prefix (prefixes es) ≡ false
    → Distinct (prefixes (es ++ e ∷ []))
snoc-Distinct [] e d h = (refl, tt)
snoc-Distinct (x ∷ es) e d h =
    ground (arith, snoc-Distinct es e d.1, snoc-mem x.prefix es e, text_eq_sym x.prefix e.prefix)

drop-mem :
    (n : ℕ) (k : Text) (es : List PrefixHistoryEntry)
    → mem k (prefixes es) ≡ false
    → mem k (prefixes (drop n es)) ≡ false
drop-mem zero k es h = h
drop-mem (suc n) k [] h = refl
drop-mem (suc n) k (e ∷ es) h = drop-mem n k es (ground arith)

drop-Distinct :
    (n : ℕ) (es : List PrefixHistoryEntry)
    → Distinct (prefixes es)
    → Distinct (prefixes (drop n es))
drop-Distinct zero es d = d
drop-Distinct (suc n) [] d = tt
drop-Distinct (suc n) (e ∷ es) d = drop-Distinct n es d.1

length-drop : (n : ℕ) (es : List PrefixHistoryEntry) → length (drop n es) ≡ length es - n
length-drop zero es = omega arith
length-drop (suc n) [] = omega arith
length-drop (suc n) (e ∷ es) = omega (arith, length-drop n es)

-- Cutting a list to its last entries keeps what holds of all of them.
limited_lem :
    (most : ℕ) (es : List PrefixHistoryEntry) (k : Text)
    → Distinct (prefixes es)
    → mem k (prefixes es) ≡ false
    → Distinct (prefixes (limited most es))
      × (mem k (prefixes (limited most es)) ≡ false)
      × (length (limited most es) ≤ most)
unfolding limited
limited_lem most es k d h =
    let n = length es - most in
    ground (arith, drop-Distinct n es d, drop-mem n k es h, length-drop n es)

change-Apart :
    (transition : Option ℤ) (now : ℤ) (new : Text) (s : Status)
    → Apart s
    → text_eq s.current_prefix new ≡ false
    → is_blank s.current_prefix ≡ false
    → let t = handle_prefix_change transition now new s in
      (Distinct (prefixes t.history))
      × (mem new (prefixes t.history) ≡ false)
      × (length t.history ≤ max_history transition)
unfolding handle_prefix_change limited
change-Apart transition now new s v differs held =
    let old : PrefixHistoryEntry = record {
      prefix = s.current_prefix;
      acquired_at = s.acquired_since;
      deprecated_at = now;
    } in
    let rest = without s.current_prefix new s.history in
    let away = without-old_new s.current_prefix new s.history in
    let all =
      snoc-Distinct rest old (without-Distinct s.current_prefix new s.history v.distinct) away.0 in
    let fresh = snoc-mem new rest old in
    let cut =
      limited_lem (max_history transition) (rest ++ old ∷ []) new all
        (ground (arith, away.1, text_eq_sym new s.current_prefix)) in
    rw held cut

-- Reconciliations that find a prefix, under specs that keep no more than a number of entries.
abbrev pub Observed : ℕ → List (Option ℤ × ℤ × Text) → Type 0
Observed most [] = Unit
Observed most ((transition, now, new) ∷ rest) =
    (is_blank new ≡ false) × (max_history transition ≤ most) × Observed most rest

observe-Apart :
    (most : ℕ) (transition : Option ℤ) (now : ℤ) (new : Text) (s : Status)
    → is_blank new ≡ false
    → max_history transition ≤ most
    → Apart s
    → length s.history ≤ most
    → Apart (observe transition now new s) × (length (observe transition now new s).history ≤ most)
unfolding observe handle_prefix_change
observe-Apart most transition now new s filled fits v bound =
    elim (Bool-cases (text_eq s.current_prefix new)) [
      | inl same ↦ rw same (
        record {
          distinct = v.distinct;
          not_current = mem-eq s.current_prefix new (prefixes s.history) same ∙ v.not_current;
          after_first = inl filled;
        },
        bound,
      )
      | inr differs ↦ elim (Bool-cases (is_blank s.current_prefix)) [
        | inl blank ↦
            let empty : s.history ≡ [] = ground arith in
            rw (differs, blank)
              (
                record {
                  distinct = v.distinct;
                  not_current = ap (λ es. mem new (prefixes es)) empty;
                  after_first = inl filled;
                },
                bound,
              )
        | inr held ↦
            let (d, n, l) = change-Apart transition now new s v differs held in
            rw differs (
              record { distinct = d; not_current = n; after_first = inl filled },
              omega (arith, l, fits),
            )
      ]
    ]

observe_all-Apart :
    (most : ℕ) (seen : List (Option ℤ × ℤ × Text)) (s : Status)
    → Observed most seen
    → Apart s
    → length s.history ≤ most
    → Apart (observe_all seen s) × (length (observe_all seen s).history ≤ most)
unfolding observe_all
observe_all-Apart most [] s o v bound = (v, bound)
observe_all-Apart most ((transition, now, new) ∷ rest) s o v bound =
    let (w, shorter) = observe-Apart most transition now new s o.0 o.1 v bound in
    observe_all-Apart most rest (observe transition now new s) o.2 w shorter

-- However prefixes follow each other on a new resource, flapping back to earlier ones included, and
-- however its spec changes: the history never has a prefix twice nor the current one, and never more
-- entries than the largest bound of its specs.
pub observe_all-new_Apart :
    (most : ℕ) (seen : List (Option ℤ × ℤ × Text)) (since : ℤ)
    → Observed most seen
    → let s =
        observe_all seen (record { current_prefix = []; history = []; acquired_since = since }) in
      Apart s × (length s.history ≤ most)
observe_all-new_Apart most seen since o =
    observe_all-Apart most seen
      (record { current_prefix = []; history = []; acquired_since = since }) o
      (record { distinct = tt; not_current = refl; after_first = inr refl }) (omega arith)
