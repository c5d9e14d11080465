-- ===== src/Reconciler/Held.antt =====
-- The receivers that `DynamicPrefixReconciler` of internal/controller/dynamicprefix_controller.go holds,
-- with internal/controller/rarejections.go: their creation, replacement and clean-up, the forwarding
-- of their events, and the reports on dropped advertisements.
pub mod Running
use dynamic_prefix_operator.Prelude.{
  ℕ, ◌-◌, Bool, true, false, not, ◌&&◌, ◌||◌, Option, none, some, List, [], ◌∷◌, ◌++◌, ltb, ◌==◌,
  length, if◌then◌else◌, Result, ok, err,
}
use dynamic_prefix_operator.Prelude.Int.{ℤ, pos, ltb_ℤ, ◌-ℤ◌}
use dynamic_prefix_operator.Ownership.Texts.{Text}
use dynamic_prefix_operator.Types.{
  Error, message, wrapped, EventType, acquired, renewed, changed, expired, failed,
}
use dynamic_prefix_operator.Receiver.{Receiver}
use dynamic_prefix_operator.Factory.{AcquisitionSpec}
use dynamic_prefix_operator.Reconciler.Given.{
  World, Notice, receiver_rebuilt, advertisements_rejected,
}

-- `forwardPrefixEvents`, for one event of the receiver of a resource: `waiting` are the resources that
-- are to be woken.
abbrev pub queue_size : ℕ
queue_size = 32

abbrev pub wakes : EventType → Bool
wakes acquired = true
wakes changed = true
wakes expired = true
wakes renewed = false
wakes failed = false

unfoldable pub forward_event : Text → EventType → List Text → List Text
forward_event name type waiting =
    if wakes type && ltb (length waiting) queue_size then waiting ++ name ∷ [] else waiting

pub record RejectionReport : Type 0 where
  pub total : ℕ
  pub at : ℤ

-- Five minutes, in nanoseconds.
abbrev pub rejection_report_interval : ℤ
rejection_report_interval = pos 300_000_000_000

previous_total : Option RejectionReport → ℕ
previous_total none = 0
previous_total (some r) = r.total

too_soon : Option RejectionReport → ℤ → Bool
unfolding ◌-ℤ◌
too_soon none now = false
too_soon (some r) now = ltb_ℤ (now -ℤ r.at) rejection_report_interval

-- The drops since the last report; all of them where the count went backwards.
since_report : ℕ → ℕ → ℕ
since_report total previous = if ltb total previous then total else total - previous

report_total : ℤ → Option RejectionReport → ℕ × Text → Option RejectionReport × List Notice
unfolding previous_total too_soon since_report
report_total now report (total, reason) =
    if total == 0
    then (report, [])
    else if total == previous_total report
    then (report, [])
    else if (ltb (previous_total report) total && too_soon report now)
    then (report, [])
    else (
      some (record { total = total; at = now }),
      advertisements_rejected (since_report total (previous_total report)) total reason ∷ [],
    )

-- `reportRARejections`, of the count and the last reason that the receiver tells.
unfoldable pub report_ra_rejections :
    ℤ → Option RejectionReport → Option (ℕ × Text) → Option RejectionReport × List Notice
unfolding report_total
report_ra_rejections now report none = (report, [])
report_ra_rejections now report (some stats) = report_total now report stats

module _ (W : World) where
  abbrev pub Receiving : Type 0
  Receiving = Receiver.State (World.receiver W)

  -- What the maps of the reconciler have under the name of one resource, and the state of the factory.
  -- `let_go` are the receivers that the maps no longer have or never had, as they were left.
  pub record Entry : Type 0 where
    pub receiver : Option Receiving
    pub spec : Option AcquisitionSpec
    pub forwarding : Bool
    pub report : Option RejectionReport
    pub factory : World.Factory W
    pub let_go : List Receiving

  -- `stopReceiverLocked`, of a receiver that has been stopped.
  stop_receiver : Receiving → Entry → Entry
  stop_receiver r e = record e {
    receiver = none;
    spec = none;
    forwarding = false;
    report = none;
    let_go = r ∷ e.let_go;
  }

  abbrev pub Got : Type 0
  Got = Entry × List Notice × Result Error Receiving

  started : Entry → AcquisitionSpec → List Notice → Receiving × Option Error → Got
  started e spec notices (r, some x) =
      (record e { let_go = r ∷ e.let_go }, notices, err (wrapped "failed to start receiver" x))
  started e spec notices (r, none) = (
    record e {
      receiver = some r;
      spec = some spec;
      forwarding = World.listening W || e.forwarding;
    },
    notices,
    ok r,
  )

  created : Entry → AcquisitionSpec → List Notice → World.Factory W × Result Error Receiving → Got
  unfolding started
  created e spec notices (f, err x) =
      (record e { factory = f }, notices, err (wrapped "failed to create receiver" x))
  created e spec notices (f, ok r) =
      started (record e { factory = f }) spec notices (Receiver.start (World.receiver W) r)

  build :
      Option (AcquisitionSpec → World.Factory W → World.Factory W × Result Error Receiving)
      → Entry
      → AcquisitionSpec
      → List Notice
      → Got
  unfolding created
  build none e spec notices = (e, notices, err (message "no receiver factory configured"))
  build (some create) e spec notices = created e spec notices (create spec e.factory)

  -- The reads under the first and under the second lock find the same here.
  by_held : Entry → AcquisitionSpec → Option Receiving → Option AcquisitionSpec → Got
  unfolding build stop_receiver
  by_held e spec none recorded = build (World.create W) e spec []
  by_held e spec (some r) none = (record e { spec = some spec }, [], ok r)
  by_held e spec (some r) (some recorded) =
      if World.same_spec W recorded spec
      then (e, [], ok r)
      else build (World.create W) (stop_receiver (Receiver.stop (World.receiver W) r).0 e) spec
          (receiver_rebuilt ∷ [])

  unfoldable pub get_or_create_receiver : Entry → AcquisitionSpec → Got
  unfolding by_held
  get_or_create_receiver e spec = by_held e spec e.receiver e.spec

  cleaned : Entry → Option Receiving → Entry
  unfolding stop_receiver
  cleaned e none = e
  cleaned e (some r) = stop_receiver (Receiver.stop (World.receiver W) r).0 e

  unfoldable pub cleanup_receiver : Entry → Entry
  unfolding cleaned
  cleanup_receiver e = cleaned e e.receiver
