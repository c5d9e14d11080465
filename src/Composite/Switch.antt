-- ===== src/Composite/Switch.antt =====
-- When internal/prefix/composite_receiver.go switches between its receivers, and what it reports.
use dynamic_prefix_operator.Prelude.{
  ℕ, suc, ◌+◌, ◌≡◌, ◌≢◌, refl, ap, Bool, true, false, none, some, List, [], ◌∷◌, ◌⊎◌, leb,
  if◌then◌else◌, arith, Bool-cases, Option-cases, inl, inr, ◌∙◌,
}
use dynamic_prefix_operator.Types.{
  Prefix, Event, acquired, renewed, changed, expired, Error, send, prefix_event, failed_event,
}
use dynamic_prefix_operator.Receiver.{Receiver}
use dynamic_prefix_operator.Composite.{
  CompositeReceiver, primary, fallback, handle_primary_event, handle_fallback_event, current_prefix,
  source, is_using_fallback, is_fallback,
}

module _ (P F : Receiver) where
  -- A run of failures of the primary.
  unfoldable pub after_failures : CompositeReceiver P F → List Error → CompositeReceiver P F
  after_failures c [] = c
  after_failures c (e ∷ es) = after_failures (handle_primary_event P F (failed_event e) c) es

  abbrev pub number_of : List Error → ℕ
  number_of [] = 0
  number_of (e ∷ es) = suc (number_of es)

  -- A failure moves a receiver to the fallback exactly when it is the third in a row, or a later one.
  one_failure :
      (e : Error) (c : CompositeReceiver P F)
      → ((handle_primary_event P F (failed_event e) c).active
          ≡ (if leb c.max_failures (suc c.consecutive_failures) then fallback else c.active))
        × ((handle_primary_event P F (failed_event e) c).max_failures ≡ c.max_failures)
        × ((handle_primary_event P F (failed_event e) c).consecutive_failures
            ≡ suc c.consecutive_failures)
  unfolding handle_primary_event
  one_failure e c = ground arith

  stays_fallback :
      (es : List Error) (c : CompositeReceiver P F)
      → c.active ≡ fallback
      → (after_failures c es).active ≡ fallback
  unfolding after_failures
  stays_fallback [] c h = h
  stays_fallback (e ∷ es) c h =
      stays_fallback es (handle_primary_event P F (failed_event e) c)
        (ground (arith, one_failure e c))

  -- From a receiver on its primary, a run of failures switches to the fallback exactly when the
  -- failures counted before it and those of the run reach the maximum.
  pub failures-active :
      (e : Error) (es : List Error) (c : CompositeReceiver P F)
      → c.active ≡ primary
      → (after_failures c (e ∷ es)).active ≡ (
          if leb c.max_failures (c.consecutive_failures + number_of (e ∷ es))
          then fallback
          else primary)
  unfolding after_failures
  failures-active e [] c h = ground (arith, one_failure e c)
  failures-active e (x ∷ es) c h =
      elim (Bool-cases (leb c.max_failures (suc c.consecutive_failures))) [
        | inl reached ↦
            stays_fallback (x ∷ es) (handle_primary_event P F (failed_event e) c)
              (ground (arith, one_failure e c))
            ∙ ground arith
        | inr below ↦
            failures-active x es (handle_primary_event P F (failed_event e) c)
              (ground (arith, one_failure e c))
            ∙ ground (arith, one_failure e c)
      ]

  -- An acquired, renewed or changed event of the primary forgets the failures, moves the receiver
  -- back to the primary, and is passed on if there is room.
  pub success-resets :
      (e : Event) (c : CompositeReceiver P F)
      → (e.type ≡ acquired) ⊎ (e.type ≡ renewed) ⊎ (e.type ≡ changed)
      → let d = handle_primary_event P F e c in
        (d.active ≡ primary) × (d.consecutive_failures ≡ 0) × (d.events ≡ send e c.events)
  unfolding handle_primary_event
  success-resets e c h = ground arith

  -- An expiry of the primary is replaced by the fallback's prefix, as an acquired event, when the
  -- fallback holds one, and passed on otherwise; the count of failures stays.
  pub expiry-falls_back :
      (e : Event) (c : CompositeReceiver P F)
      → e.type ≡ expired
      → let d = handle_primary_event P F e c in
        (d.consecutive_failures ≡ c.consecutive_failures)
        × ((F.current_prefix c.fallback_receiver ≡ none)
              × (d.active ≡ c.active)
              × (d.events ≡ send e c.events)
            ⊎ ((p : Prefix) × (F.current_prefix c.fallback_receiver ≡ some p)
                × (d.active ≡ fallback)
                × (d.events ≡ send (prefix_event acquired (some p)) c.events)))
  unfolding handle_primary_event
  expiry-falls_back e c h = elim (Option-cases (F.current_prefix c.fallback_receiver)) [
    | inl missing ↦ ground arith
    | inr (p, held) ↦ (ground arith, inr (p, held, ground arith, ground arith))
  ]

  -- An event of the fallback is passed on exactly while the fallback is in use, and changes nothing
  -- else.
  pub fallback-forwarded :
      (e : Event) (c : CompositeReceiver P F)
      → handle_fallback_event P F e c
        ≡ record c { events = if is_using_fallback P F c then send e c.events else c.events }
  unfolding handle_fallback_event is_using_fallback
  fallback-forwarded e c = ground arith

  -- The source reported is the fallback's exactly when the prefix reported is its, the primary
  -- holding none.
  pub source-follows_prefix :
      (c : CompositeReceiver P F)
      → ((P.current_prefix c.primary_receiver ≢ none)
          × (source P F c ≡ P.source c.primary_receiver)
          × (current_prefix P F c ≡ P.current_prefix c.primary_receiver))
        ⊎ ((P.current_prefix c.primary_receiver ≡ none)
            × (F.current_prefix c.fallback_receiver ≢ none)
            × (source P F c ≡ F.source c.fallback_receiver)
            × (current_prefix P F c ≡ F.current_prefix c.fallback_receiver))
        ⊎ ((current_prefix P F c ≡ none) × (source P F c ≡ P.source c.primary_receiver))
  unfolding source current_prefix
  source-follows_prefix c = ground arith

  failure-prefix :
      (e : Error) (c : CompositeReceiver P F)
      → let d = handle_primary_event P F (failed_event e) c in
        (current_prefix P F d ≡ current_prefix P F c) × (source P F d ≡ source P F c)
  unfolding handle_primary_event current_prefix source
  failure-prefix e c = ground arith

  after_failures-prefix :
      (es : List Error) (c : CompositeReceiver P F)
      → (current_prefix P F (after_failures c es) ≡ current_prefix P F c)
        × (source P F (after_failures c es) ≡ source P F c)
  unfolding after_failures
  after_failures-prefix [] c = (refl, refl)
  after_failures-prefix (e ∷ es) c =
      let first = failure-prefix e c in
      let rest = after_failures-prefix es (handle_primary_event P F (failed_event e) c) in
      (rest.0 ∙ first.0, rest.1 ∙ first.1)

  using_when : (b : Bool) → is_fallback P F (if b then fallback else primary) ≡ b
  unfolding is_fallback
  using_when true = refl
  using_when false = refl

  -- From a receiver on its primary, over any run of one failure of the primary or more, in which the two
  -- receivers keep what they hold: the fallback comes into use exactly when the failures counted before the run
  -- and those of the run reach the maximum, and the current prefix and the source that are reported
  -- stay the same, whichever receiver is in use, so that a prefix of the primary is still reported
  -- while the fallback is in use.
  pub after_failures-switched :
      (e : Error) (es : List Error) (c : CompositeReceiver P F)
      → c.active ≡ primary
      → let d = after_failures c (e ∷ es) in
        (is_using_fallback P F d ≡ leb c.max_failures (c.consecutive_failures + number_of (e ∷ es)))
        × (current_prefix P F d ≡ current_prefix P F c)
        × (source P F d ≡ source P F c)
  unfolding is_using_fallback
  after_failures-switched e es c h =
      let kept = after_failures-prefix (e ∷ es) c in
      (
        ap (is_fallback P F) (failures-active e es c h)
            ∙ using_when (leb c.max_failures (c.consecutive_failures + number_of (e ∷ es))),
        kept.0,
        kept.1,
      )
