-- ===== src/History/Examples.antt =====
-- A prefix that flaps, as the history of internal/controller/dynamicprefix_controller.go sees it.
use dynamic_prefix_operator.Prelude.{◌≤◌, refl, Option, none, List, [], ◌∷◌, length, arith}
use dynamic_prefix_operator.Prelude.Int.{ℤ, pos}
use dynamic_prefix_operator.Ownership.Texts.{Text}
use dynamic_prefix_operator.History.{observe_all, max_history}
use dynamic_prefix_operator.History.Kept.{Apart, Observed, observe_all-new_Apart}

-- "a", then "b", then "a" again, then "c", with the default bound.
abbrev flapping : List (Option ℤ × ℤ × Text)
flapping =
    (none, pos 1, 97 ∷ [])
    ∷ (none, pos 2, 98 ∷ [])
    ∷ (none, pos 3, 97 ∷ [])
    ∷ (none, pos 4, 99 ∷ [])
    ∷ []

flapping-Observed : Observed 2 flapping
unfolding max_history
flapping-Observed =
    (refl, omega arith, (refl, omega arith, (refl, omega arith, (refl, omega arith, tt))))

observe_all-new_Apart_example :
    let s =
      observe_all flapping (record { current_prefix = []; history = []; acquired_since = pos 0 }) in
    Apart s × (length s.history ≤ 2)
observe_all-new_Apart_example = observe_all-new_Apart 2 flapping (pos 0) flapping-Observed
