-- ===== src/History.antt =====
-- `handlePrefixChange` of internal/controller/dynamicprefix_controller.go and its call in `Reconcile`:
-- the earlier prefixes that a resource keeps. Prefixes are texts, as the status holds them.
pub mod Kept
pub mod Stamped
mod Examples
use dynamic_prefix_operator.Prelude.{
  ℕ, zero, suc, ◌-◌, ◌≡◌, Bool, true, false, not, ◌||◌, Option, none, some, List, [], ◌∷◌, ◌++◌,
  ltb, if◌then◌else◌, length, drop,
}
use dynamic_prefix_operator.Prelude.Int.{ℤ, pos, ltb_ℤ, pos_part}
use dynamic_prefix_operator.Ownership.Texts.{Text, text_eq, is_blank}

-- An entry of the history; its state is always draining.
pub record PrefixHistoryEntry : Type 0 where
  pub prefix : Text
  pub acquired_at : ℤ
  pub deprecated_at : ℤ

-- The part of the status that is read and written here, with the time at which the condition that a
-- prefix is acquired last changed.
pub record Status : Type 0 where
  pub current_prefix : Text
  pub history : List PrefixHistoryEntry
  pub acquired_since : ℤ

-- `slices.DeleteFunc` of the entries of the old and the new prefix.
without : Text → Text → List PrefixHistoryEntry → List PrefixHistoryEntry
without old new [] = []
without old new (e ∷ es) =
    let rest = without old new es in
    if (text_eq e.prefix old || text_eq e.prefix new) then rest else e ∷ rest

-- `MaxPrefixHistory`, of a spec that may leave the transition out.
unfoldable pub max_history : Option ℤ → ℕ
max_history none = 2
max_history (some n) = if ltb_ℤ (pos 0) n then pos_part n else 2

limited : ℕ → List PrefixHistoryEntry → List PrefixHistoryEntry
limited most entries =
    if ltb most (length entries) then drop (length entries - most) entries else entries

-- The prefixes that leave the history by this.
completed : ℕ → List PrefixHistoryEntry → List Text
completed zero entries = []
completed (suc n) [] = []
completed (suc n) (e ∷ es) = e.prefix ∷ completed n es

unfoldable pub completed_prefixes : Option ℤ → Text → Status → List Text
unfolding without completed max_history
completed_prefixes transition new s =
    let kept = without s.current_prefix new s.history in
    if is_blank s.current_prefix
    then []
    else completed (suc (length kept) - max_history transition) kept

unfoldable pub handle_prefix_change : Option ℤ → ℤ → Text → Status → Status
unfolding without max_history limited
handle_prefix_change transition now new s =
    if is_blank s.current_prefix
    then s
    else (let old : PrefixHistoryEntry = record {
      prefix = s.current_prefix;
      acquired_at = s.acquired_since;
      deprecated_at = now;
    } in
        record s {
          history =
              limited (max_history transition) (without s.current_prefix new s.history ++ old ∷ []);
        })

-- What a reconciliation does with an acquired prefix, as far as the history is concerned.
unfoldable pub observe : Option ℤ → ℤ → Text → Status → Status
observe transition now new s =
    let changed =
      if text_eq s.current_prefix new then s else handle_prefix_change transition now new s in
    record changed { current_prefix = new }

-- One reconciliation after another, each with the bound in the spec, the time and the prefix it finds.
unfoldable pub observe_all : List (Option ℤ × ℤ × Text) → Status → Status
observe_all [] s = s
observe_all ((transition, now, new) ∷ rest) s = observe_all rest (observe transition now new s)
