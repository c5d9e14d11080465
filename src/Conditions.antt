-- ===== src/Conditions.antt =====
-- internal/controller/conditions_apply.go, and `setCondition` and `warnOnConditionChange` of
-- dynamicprefix_controller.go: the conditions in the status of a DynamicPrefix. The list itself, with
-- `meta.FindStatusCondition` and `meta.SetStatusCondition` of Kubernetes' API machinery, is a parameter.
use dynamic_prefix_operator.Prelude.{
  map_option, ℕ, ◌≡◌, Bool, true, false, not, ◌&&◌, ◌||◌, String, str_eq, Option, none, some, ◌==◌,
  if◌then◌else◌,
}
use dynamic_prefix_operator.Prelude.Int.{ℤ}
use dynamic_prefix_operator.Ownership.Texts.{Text, text_eq}

pub data ConditionType : Type 0 where
  prefix_acquired degraded pools_synced bgp_advertisement_ready : ConditionType

abbrev pub type_eq : ConditionType → ConditionType → Bool
type_eq prefix_acquired prefix_acquired = true
type_eq degraded degraded = true
type_eq pools_synced pools_synced = true
type_eq bgp_advertisement_ready bgp_advertisement_ready = true
type_eq _ _ = false

-- `holds` is whether the status is "True"; it is "False" otherwise.
pub record Condition : Type 0 where
  pub type : ConditionType
  pub holds : Bool
  pub observed_generation : ℕ
  pub last_transition_time : ℤ
  pub reason : String
  pub message : Text

abbrev pub bool_eq : Bool → Bool → Bool
bool_eq true b = b
bool_eq false b = not b

-- The time that a condition keeps where its status stays as it was.
abbrev pub transition_time : Option Condition → Bool → ℤ → ℤ
transition_time none holds now = now
transition_time (some old) holds now =
    if bool_eq old.holds holds then old.last_transition_time else now

abbrev pub retimed : (ℤ → ℤ) → Condition → Condition
retimed f c = record c { last_transition_time = f c.last_transition_time }

-- `SetStatusCondition` replaces the condition of its type, and its time only if the status changes;
-- `with_times` is a list whose times have passed through an encoding.
pub record ConditionList : Type 1 where
  pub State : Type 0
  pub find : ConditionType → State → Option Condition
  pub set : Condition → State → State
  pub find-set :
      (t : ConditionType) (c : Condition) (s : State)
      → find t (set c s) ≡ (
          if type_eq t c.type
          then some (record c {
            last_transition_time = transition_time (find t s) c.holds c.last_transition_time;
          })
          else find t s)
  pub with_times : (ℤ → ℤ) → State → State
  pub find-with_times :
      (f : ℤ → ℤ) (t : ConditionType) (s : State)
      → find t (with_times f s) ≡ map_option (retimed f) (find t s)

-- `setCondition`
unfoldable pub set_condition :
    (C : ConditionList)
    → ℕ
    → ℤ
    → ConditionType
    → Bool
    → String
    → Text
    → ConditionList.State C
    → ConditionList.State C
set_condition C generation now type holds reason message = ConditionList.set C (record {
  type = type;
  holds = holds;
  observed_generation = generation;
  last_transition_time = now;
  reason = reason;
  message = message;
})

says : Option Condition → String → Text → Bool
says none reason message = false
says (some c) reason message = str_eq c.reason reason && text_eq c.message message

-- Whether `warnOnConditionChange` emits its event.
unfoldable pub warns : Option Condition → String → Text → Bool
unfolding says
warns existing reason message = not (says existing reason message)

entry_changed : Option Condition → ℕ → Bool → String → Text → Bool
entry_changed none generation holds reason message = true
entry_changed (some old) generation holds reason message =
    not (bool_eq old.holds holds)
    || not (str_eq old.reason reason)
    || not (text_eq old.message message)
    || not (old.observed_generation == generation)

-- `conditionApplyEntry`: the entry to apply, and whether it says anything new.
unfoldable pub condition_apply_entry :
    Option Condition → ℕ → ℤ → ConditionType → Bool → String → Text → Condition × Bool
unfolding entry_changed
condition_apply_entry existing generation now type holds reason message = (
  record {
    type = type;
    holds = holds;
    observed_generation = generation;
    last_transition_time = transition_time existing holds now;
    reason = reason;
    message = message;
  },
  entry_changed existing generation holds reason message,
)
