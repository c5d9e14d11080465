-- ===== src/Composite/Lifecycle.antt =====
-- Starting and stopping in internal/prefix/composite_receiver.go, and its life between them.
use dynamic_prefix_operator.Prelude.{
  ◌≤◌, ◌≡◌, ◌⊎◌, refl, Bool, true, false, Option, none, some, List, ◌∷◌, length, arith, ap,
  Option-cases, inl, inr,
}
use dynamic_prefix_operator.Types.{Event, capacity, send, send-le-capacity, prefix_event, acquired}
use dynamic_prefix_operator.Receiver.{Receiver}
use dynamic_prefix_operator.Composite.{
  CompositeReceiver, start, stop, handle_primary_event, handle_fallback_event,
  new_composite_receiver,
}

abbrev pub is_none {ℓ} : {A : Type ℓ} → Option A → Bool
is_none none = true
is_none (some a) = false

module _ (P F : Receiver) where
  -- Between two calls: a started receiver runs both of its own under a live context with a merge
  -- loop, one that is not runs neither and has no merge loop, and the channel is not overfull.
  pub record Inv (c : CompositeReceiver P F) : Type 0 where
    pub primary_runs : P.running c.primary_receiver ≡ c.started
    pub fallback_runs : F.running c.fallback_receiver ≡ c.started
    pub merges : c.merging ≡ c.started
    pub context : c.ctx_live ≡ c.started
    pub bounded : length c.events ≤ capacity

  -- A start of a receiver that is not running starts both of its own or neither: with an error it
  -- leaves both not running, no merge loop and the context cancelled, without one it leaves both
  -- running. A start of a running receiver changes nothing.
  pub start-all_or_nothing :
      (c : CompositeReceiver P F)
      → Inv c
      → Inv (start P F c).0
        × ((c.started ≡ false) × ((start P F c).0.started ≡ is_none (start P F c).1)
            ⊎ (c.started ≡ true) × (start P F c ≡ (c, none)))
  unfolding start
  start-all_or_nothing c v = elim (Option-cases (P.start c.primary_receiver).1) [
    | inl p ↦ elim (Option-cases (F.start c.fallback_receiver).1) [
      | inl f ↦ ground (arith, P.start_done c.primary_receiver, F.start_done c.fallback_receiver)
      | inr (e, f) ↦ ground (
        arith,
        P.start_done c.primary_receiver,
        P.stop_done (P.start c.primary_receiver).0,
        F.start_failed c.fallback_receiver e,
      )
    ]
    | inr (e, p) ↦ ground (arith, P.start_failed c.primary_receiver e)
  ]

  -- A stop leaves both receivers not running and no merge loop, whether the receiver ran or not.
  pub stop-Inv :
      (c : CompositeReceiver P F) → Inv c → Inv (stop P F c).0 × ((stop P F c).0.started ≡ false)
  unfolding stop
  stop-Inv c v = ground (arith, P.stop_done c.primary_receiver, F.stop_done c.fallback_receiver)

  handle_primary-Inv :
      (e : Event) (c : CompositeReceiver P F) → Inv c → Inv (handle_primary_event P F e c)
  unfolding handle_primary_event
  handle_primary-Inv e c v = elim (Option-cases (F.current_prefix c.fallback_receiver)) [
    | inl missing ↦ ground (arith, send-le-capacity e c.events)
    | inr (p, held) ↦
        let offer = prefix_event acquired (some p) in
        ground (
          arith,
          send-le-capacity e c.events,
          send-le-capacity offer c.events,
          send-le-capacity e (send offer c.events),
        )
  ]

  handle_fallback-Inv :
      (e : Event) (c : CompositeReceiver P F) → Inv c → Inv (handle_fallback_event P F e c)
  unfolding handle_fallback_event
  handle_fallback-Inv e c v = ground (arith, send-le-capacity e c.events)

  -- What can happen to a composite receiver. Its own two receivers change their prefixes at any time,
  -- which is no change of whether they run; a subscriber takes the first event waiting.
  pub data Step : CompositeReceiver P F → CompositeReceiver P F → Type 0 where
    starts : (c : CompositeReceiver P F) → Step c (start P F c).0
    stops : (c : CompositeReceiver P F) → Step c (stop P F c).0
    primary_event :
        (e : Event) (c : CompositeReceiver P F)
        → c.merging ≡ true
        → Step c (handle_primary_event P F e c)
    fallback_event :
        (e : Event) (c : CompositeReceiver P F)
        → c.merging ≡ true
        → Step c (handle_fallback_event P F e c)
    primary_moves :
        (c : CompositeReceiver P F) (p : P.State)
        → P.running p ≡ P.running c.primary_receiver
        → Step c (record c { primary_receiver = p })
    fallback_moves :
        (c : CompositeReceiver P F) (f : F.State)
        → F.running f ≡ F.running c.fallback_receiver
        → Step c (record c { fallback_receiver = f })
    received :
        (c : CompositeReceiver P F) (e : Event) (es : List Event)
        → c.events ≡ e ∷ es
        → Step c (record c { events = es })

  pub data Reach (c : CompositeReceiver P F) : CompositeReceiver P F → Type 0 where
    here : Reach c c
    next : {d e : CompositeReceiver P F} → Reach c d → Step d e → Reach c e

  Step-Inv : {c d : CompositeReceiver P F} → Step c d → Inv c → Inv d
  Step-Inv (starts c) v = (start-all_or_nothing c v).0
  Step-Inv (stops c) v = (stop-Inv c v).0
  Step-Inv (primary_event e c m) v = handle_primary-Inv e c v
  Step-Inv (fallback_event e c m) v = handle_fallback-Inv e c v
  Step-Inv (primary_moves c p same) v = ground arith
  Step-Inv (fallback_moves c f same) v = ground arith
  Step-Inv (received c e es taken) v = record {
    primary_runs = v.primary_runs;
    fallback_runs = v.fallback_runs;
    merges = v.merges;
    context = v.context;
    bounded = omega (arith, ap length taken, v.bounded);
  }

  Reach-Inv : {c d : CompositeReceiver P F} → Inv c → Reach c d → Inv d
  Reach-Inv v here = v
  Reach-Inv v (next r st) = Step-Inv st (Reach-Inv v r)

  -- However a composite receiver over two receivers that do not run is started, stopped, fed and
  -- read, both of them run exactly while it is started, with one merge loop and a live context, and
  -- at most ten events wait.
  pub Reach-new-Inv :
      (p : P.State) (f : F.State) (d : CompositeReceiver P F)
      → P.running p ≡ false
      → F.running f ≡ false
      → Reach (new_composite_receiver P F p f) d
      → Inv d
  unfolding new_composite_receiver
  Reach-new-Inv p f d hp hf r =
      Reach-Inv
        (record {
          primary_runs = hp;
          fallback_runs = hf;
          merges = refl;
          context = refl;
          bounded = omega arith;
        })
        r
