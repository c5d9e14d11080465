-- ===== src/History/Stamped.antt =====
-- The acquisition times of the history of internal/controller/dynamicprefix_controller.go.
use dynamic_prefix_operator.Prelude.{
  ℕ, zero, suc, ◌-◌, ◌≡◌, refl, Option, List, [], ◌∷◌, ◌++◌, drop, length, arith, Bool-cases, inl,
  inr,
}
use dynamic_prefix_operator.Prelude.Int.{ℤ}
use dynamic_prefix_operator.Ownership.Texts.{Text, is_blank}
use dynamic_prefix_operator.History.{
  PrefixHistoryEntry, Status, without, limited, max_history, handle_prefix_change,
}

-- Every entry has one and the same time.
abbrev pub Stamped : ℤ → List PrefixHistoryEntry → Type 0
Stamped t [] = Unit
Stamped t (e ∷ es) = (e.acquired_at ≡ t) × Stamped t es

without-Stamped :
    (t : ℤ) (old new : Text) (es : List PrefixHistoryEntry)
    → Stamped t es
    → Stamped t (without old new es)
unfolding without
without-Stamped t old new [] h = tt
without-Stamped t old new (e ∷ es) h = ground (arith, without-Stamped t old new es h.1)

append-Stamped :
    (t : ℤ) (es : List PrefixHistoryEntry) (e : PrefixHistoryEntry)
    → Stamped t es
    → e.acquired_at ≡ t
    → Stamped t (es ++ e ∷ [])
append-Stamped t [] e h k = (k, tt)
append-Stamped t (x ∷ es) e h k = (h.0, append-Stamped t es e h.1 k)

drop-Stamped : (t : ℤ) (n : ℕ) (es : List PrefixHistoryEntry) → Stamped t es → Stamped t (drop n es)
drop-Stamped t zero es h = h
drop-Stamped t (suc n) [] h = tt
drop-Stamped t (suc n) (e ∷ es) h = drop-Stamped t n es h.1

limited-Stamped :
    (t : ℤ) (most : ℕ) (es : List PrefixHistoryEntry) → Stamped t es → Stamped t (limited most es)
unfolding limited
limited-Stamped t most es h = ground (arith, drop-Stamped t (length es - most) es h)

pub handle_prefix_change-Stamped :
    (transition : Option ℤ) (now : ℤ) (new : Text) (s : Status)
    → Stamped s.acquired_since s.history
    → Stamped s.acquired_since (handle_prefix_change transition now new s).history
unfolding handle_prefix_change
handle_prefix_change-Stamped transition now new s h =
    elim (Bool-cases (is_blank s.current_prefix)) [
      | inl blank ↦ rw blank h
      | inr held ↦ rw held (
          limited-Stamped s.acquired_since (max_history transition) _ (
            append-Stamped s.acquired_since (without s.current_prefix new s.history) _
              (without-Stamped s.acquired_since s.current_prefix new s.history h) refl))
    ]
