-- ===== src/Reconciler/Held/Running.antt =====
-- Which receivers run, over the passes of internal/controller/dynamicprefix_controller.go.
use dynamic_prefix_operator.Prelude.{
  ◌≡◌, refl, Bool, true, false, Option, none, some, List, [], ◌∷◌, Result, ok, arith, Bool-cases,
  Option-cases, Result-cases, inl, inr, if◌then◌else◌,
}
use dynamic_prefix_operator.Types.{Error}
use dynamic_prefix_operator.Receiver.{Receiver}
use dynamic_prefix_operator.Factory.{AcquisitionSpec}
use dynamic_prefix_operator.Reconciler.Given.{World, Notice, receiver_rebuilt}
use dynamic_prefix_operator.Reconciler.Held.{
  Entry, Receiving, get_or_create_receiver, by_held, build, created, started, cleanup_receiver,
  cleaned, stop_receiver,
}

module _ (W : World) where
  abbrev pub running : Receiving W → Bool
  running r = Receiver.running (World.receiver W) r

  abbrev pub AllStopped : List (Receiving W) → Type 0
  AllStopped [] = Unit
  AllStopped (r ∷ rs) = (running r ≡ false) × AllStopped rs

  abbrev pub HeldRuns : Option (Receiving W) → Type 0
  HeldRuns none = Unit
  HeldRuns (some r) = running r ≡ true

  abbrev pub is_some {ℓ} : {A : Type ℓ} → Option A → Bool
  is_some none = false
  is_some (some a) = true

  -- The receiver that is held runs, those let go do not, and the maps agree on whether there is one.
  pub record Tidy (e : Entry W) : Type 0 where
    pub held : HeldRuns e.receiver
    pub stopped : AllStopped e.let_go
    pub recorded : is_some e.spec ≡ is_some e.receiver
    pub forwarded : e.forwarding ≡ (if World.listening W then is_some e.receiver else false)

  -- What the factory makes is not running yet.
  abbrev MakesIdle :
      Option (AcquisitionSpec → World.Factory W → World.Factory W × Result Error (Receiving W))
      → Type 0
  MakesIdle none = Unit
  MakesIdle (some create) =
      (spec : AcquisitionSpec) (f : World.Factory W) (r : Receiving W)
      → (create spec f).1 ≡ ok r
      → running r ≡ false

  abbrev pub CreatesIdle : Type 0
  CreatesIdle = MakesIdle (World.create W)

  stop-Tidy :
      (r : Receiving W) (e : Entry W)
      → Tidy e
      → Tidy (stop_receiver W (Receiver.stop (World.receiver W) r).0 e)
  unfolding stop_receiver
  stop-Tidy r e v = record {
    held = tt;
    stopped = (Receiver.stop_done (World.receiver W) r, v.stopped);
    recorded = refl;
    forwarded = ground arith;
  }

  stop_receiver-none : (r : Receiving W) (e : Entry W) → (stop_receiver W r e).receiver ≡ none
  unfolding stop_receiver
  stop_receiver-none r e = refl

  started-Tidy :
      (e : Entry W) (spec : AcquisitionSpec) (notices : List Notice) (r : Receiving W)
      → Tidy e
      → e.receiver ≡ none
      → running r ≡ false
      → Tidy (started W e spec notices (Receiver.start (World.receiver W) r)).0
  unfolding started
  started-Tidy e spec notices r v empty idle =
      elim (Option-cases (Receiver.start (World.receiver W) r).1) [
        | inl fine ↦ ground (arith, Receiver.start_done (World.receiver W) r)
        | inr (x, failed) ↦ ground (arith, Receiver.start_failed (World.receiver W) r x)
      ]

  build-Tidy :
      (create : Option
        (AcquisitionSpec → World.Factory W → World.Factory W × Result Error (Receiving W)))
      (e : Entry W) (spec : AcquisitionSpec) (notices : List Notice)
      → MakesIdle create
      → Tidy e
      → e.receiver ≡ none
      → Tidy (build W create e spec notices).0
  unfolding build created
  build-Tidy none e spec notices idle v empty = v
  build-Tidy (some create) e spec notices idle v empty =
      elim (Result-cases (create spec e.factory).1) [
        | inl (r, made) ↦ rw made (
            started-Tidy (record e { factory = (create spec e.factory).0 }) spec notices r
              (record {
                held = v.held;
                stopped = v.stopped;
                recorded = v.recorded;
                forwarded = v.forwarded;
              })
              empty (idle spec e.factory r made))
        | inr (x, failed) ↦ rw failed (record {
          held = v.held;
          stopped = v.stopped;
          recorded = v.recorded;
          forwarded = v.forwarded;
        })
      ]

  by_held-Tidy :
      (e : Entry W) (spec : AcquisitionSpec) (held : Option (Receiving W))
      (recorded : Option AcquisitionSpec)
      → CreatesIdle
      → Tidy e
      → e.receiver ≡ held
      → Tidy (by_held W e spec held recorded).0
  unfolding by_held
  by_held-Tidy e spec none recorded idle v is = build-Tidy (World.create W) e spec [] idle v is
  by_held-Tidy e spec (some r) none idle v is = ground arith
  by_held-Tidy e spec (some r) (some recorded) idle v is =
      elim (Bool-cases (World.same_spec W recorded spec)) [
        | inl same ↦ rw same v
        | inr differs ↦
            let stopped = (Receiver.stop (World.receiver W) r).0 in
            rw differs (
              build-Tidy (World.create W) (stop_receiver W stopped e) spec (receiver_rebuilt ∷ [])
                idle (stop-Tidy r e v) (stop_receiver-none stopped e))
      ]

  pub get_or_create_receiver-Tidy :
      (e : Entry W) (spec : AcquisitionSpec)
      → CreatesIdle
      → Tidy e
      → Tidy (get_or_create_receiver W e spec).0
  unfolding get_or_create_receiver
  get_or_create_receiver-Tidy e spec idle v = by_held-Tidy e spec e.receiver e.spec idle v refl

  cleaned-Tidy : (e : Entry W) (held : Option (Receiving W)) → Tidy e → Tidy (cleaned W e held)
  unfolding cleaned
  cleaned-Tidy e none v = v
  cleaned-Tidy e (some r) v = stop-Tidy r e v

  pub cleanup_receiver-Tidy : (e : Entry W) → Tidy e → Tidy (cleanup_receiver W e)
  unfolding cleanup_receiver
  cleanup_receiver-Tidy e v = cleaned-Tidy e e.receiver v

  cleaned-none :
      (e : Entry W) (held : Option (Receiving W))
      → e.receiver ≡ held
      → (cleaned W e held).receiver ≡ none
  unfolding cleaned stop_receiver
  cleaned-none e none is = is
  cleaned-none e (some r) is = refl

  pub cleanup_receiver-none : (e : Entry W) → (cleanup_receiver W e).receiver ≡ none
  unfolding cleanup_receiver
  cleanup_receiver-none e = cleaned-none e e.receiver refl
