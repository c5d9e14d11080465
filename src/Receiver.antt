-- ===== src/Receiver.antt =====
-- The `Receiver` interface of internal/prefix/types.go, as its clients use it: operations on the
-- state of an implementation. `running` is whether it is started, which the
-- laws are about; the clients do not read it.
use dynamic_prefix_operator.Prelude.{◌≡◌, Bool, true, false, Option, none, some}
use dynamic_prefix_operator.Types.{Prefix, Source, Error}

pub record Receiver : Type 1 where
  pub State : Type 0
  pub start : State → State × Option Error
  pub stop : State → State × Option Error
  pub current_prefix : State → Option Prefix
  pub source : State → Source
  pub last_error : State → Option Error
  pub running : State → Bool
  pub start_failed :
      (s : State) (e : Error) → (start s).1 ≡ some e → running (start s).0 ≡ running s
  pub start_done : (s : State) → (start s).1 ≡ none → running (start s).0 ≡ true
  pub stop_done : (s : State) → running (stop s).0 ≡ false
