-- ===== src/Reconciler/Given.antt =====
-- What `DynamicPrefixReconciler` of internal/controller/dynamicprefix_controller.go is given: the
-- receivers and their factory, Kubernetes' conditions, and the texts that it prints.
use dynamic_prefix_operator.Prelude.{ℕ, Bool, Option, Result}
use dynamic_prefix_operator.Prelude.Int.{ℤ}
use dynamic_prefix_operator.Net.{NetPrefix}
use dynamic_prefix_operator.Ownership.Texts.{Text}
use dynamic_prefix_operator.Ownership.{Netip}
use dynamic_prefix_operator.Types.{Source, Error}
use dynamic_prefix_operator.Receiver.{Receiver}
use dynamic_prefix_operator.Policy.{PolicyError}
use dynamic_prefix_operator.Subnet.{SubnetError}
use dynamic_prefix_operator.AddressRange.{RangeError}
use dynamic_prefix_operator.Factory.{AcquisitionSpec}
use dynamic_prefix_operator.Conditions.{ConditionList}

-- The messages of conditions and events, each with what it prints.
pub data Message : Type 0 where
  waiting healthy : Message
  creation_failed acquisition_failing still_serving : Error → Message
  rejected : NetPrefix → PolicyError → Message
  subnets_failed : SubnetError → Message
  ranges_failed : RangeError → Message
  acquired_via : NetPrefix → Source → Message

-- The events on the resource.
pub data Notice : Type 0 where
  creation_failed_event acquisition_failed_event : Error → Notice
  prefix_rejected_event : NetPrefix → PolicyError → Notice
  received_event : NetPrefix → Source → Notice
  changed_event : Text → NetPrefix → Source → Notice
  transition_completed : Text → ℕ → Notice
  transition_started : Text → NetPrefix → Notice
  receiver_rebuilt : Notice
  advertisements_rejected : ℕ → ℕ → Text → Notice

-- `create` is none where no factory is configured; `listening` is whether receivers' events have a
-- queue to go to. `rejections` is none for a receiver that does not count them. `scaled` is
-- `time.Duration(float64(d) * 0.8)`. `stored_time` is what is read again of a `metav1.Time` that the API
-- has stored, which keeps whole seconds.
pub record World : Type 1 where
  pub lib : Netip
  pub receiver : Receiver
  pub conditions : ConditionList
  pub Factory : Type 0
  pub create : Option (AcquisitionSpec → Factory → Factory × Result Error (Receiver.State receiver))
  pub listening : Bool
  pub same_spec : AcquisitionSpec → AcquisitionSpec → Bool
  pub rejections : Receiver.State receiver → Option (ℕ × Text)
  pub scaled : ℤ → ℤ
  pub stored_time : ℤ → ℤ
  pub say : Message → Text
