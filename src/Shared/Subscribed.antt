-- ===== src/Shared/Subscribed.antt =====
-- When the receiver behind the subscriptions of internal/prefix/shared_ra_receiver.go runs.
use dynamic_prefix_operator.Prelude.{
  ℕ, ◌≡◌, ◌≢◌, Bool, ap, ◌∙◌, refl, true, false, not, ◌&&◌, none, List, [], ◌∷◌, ◌==◌, arith,
  Bool-cases, Option-cases, inl, inr,
}
use dynamic_prefix_operator.Receiver.{Receiver}
use dynamic_prefix_operator.Shared.{
  subscribed, is_empty, without, SharedRaReceiverEntry, first_subscriber, add_subscriber,
  remove_subscriber, stop, unsubscribe,
}

without_empty : (sub : ℕ) (ss : List ℕ) → is_empty ss ≡ true → is_empty (without sub ss) ≡ true
unfolding without
without_empty sub [] h = refl
without_empty sub (s ∷ ss) h = cc

unwanted : ◌≢◌ {A = Bool} false true
unwanted h = cc

without_only : (sub : ℕ) (ss : List ℕ) → ss ≡ sub ∷ [] → without sub ss ≡ []
unfolding without
without_only sub ss only = rw only (ground arith)

module _ (R : Receiver) where
  -- The receiver and the fan-out run exactly while someone is subscribed.
  pub record Served (e : SharedRaReceiverEntry R) : Type 0 where
    pub runs : R.running e.receiver ≡ e.started
    pub fans : e.fanning ≡ e.started
    pub wanted : e.started ≡ not (is_empty e.subscribers)

  add-Served :
      (sub : ℕ) (e : SharedRaReceiverEntry R) → Served e → Served (add_subscriber R sub e).0
  unfolding add_subscriber first_subscriber
  add-Served sub e v = elim (Option-cases (R.start e.receiver).1) [
    | inl fine ↦ ground (arith, R.start_done e.receiver)
    | inr (x, failed) ↦ ground (arith, R.start_failed e.receiver x)
  ]

  unsubscribe-Served :
      (sub : ℕ) (e : SharedRaReceiverEntry R) → Served e → Served (unsubscribe R sub e).0
  unfolding unsubscribe remove_subscriber stop
  unsubscribe-Served sub e v =
      elim (Bool-cases (is_empty (without sub e.subscribers) && e.started)) [
        | inl last ↦ rw last (ground (arith, R.stop_done e.receiver))
        | inr others ↦ rw others (ground (arith, without_empty sub e.subscribers))
      ]

  -- Subscriptions that start and stop, one at a time.
  pub data Step : SharedRaReceiverEntry R → SharedRaReceiverEntry R → Type 0 where
    adds : (sub : ℕ) (e : SharedRaReceiverEntry R) → Step e (add_subscriber R sub e).0
    leaves : (sub : ℕ) (e : SharedRaReceiverEntry R) → Step e (unsubscribe R sub e).0

  pub data Reach (e : SharedRaReceiverEntry R) : SharedRaReceiverEntry R → Type 0 where
    here : Reach e e
    next : {d f : SharedRaReceiverEntry R} → Reach e d → Step d f → Reach e f

  Step-Served : {d e : SharedRaReceiverEntry R} → Step d e → Served d → Served e
  Step-Served (adds sub e) v = add-Served sub e v
  Step-Served (leaves sub e) v = unsubscribe-Served sub e v

  -- From an entry whose receiver and fan-out run exactly while someone is subscribed, as none is on
  -- a new one: however subscriptions start and stop, one at a time, that stays so.
  pub Reach-Served : {d e : SharedRaReceiverEntry R} → Served d → Reach d e → Served e
  Reach-Served v here = v
  Reach-Served v (next path last) = Step-Served last (Reach-Served v path)

  -- Between the two steps of an unsubscription nothing holds the entry. If another subscription starts
  -- there, as the only one leaves an entry whose receiver runs exactly while someone is subscribed, it
  -- is subscribed without an error to a receiver that runs and is then stopped, so that the receiver no
  -- longer runs although someone is subscribed; and starting that subscription again changes nothing.
  pub late_subscriber-stopped :
      (sub late : ℕ) (e : SharedRaReceiverEntry R)
      → Served e
      → e.subscribers ≡ sub ∷ []
      → (late == sub) ≡ false
      → let removed = remove_subscriber R sub e in
        let joined = add_subscriber R late removed.0 in
        let stopped = (stop R joined.0).0 in
        (removed.1 ≡ true)
        × (joined.1 ≡ none)
        × (R.running joined.0.receiver ≡ true)
        × (subscribed late stopped.subscribers ≡ true)
        × (R.running stopped.receiver ≡ false)
        × ¬ Served stopped
        × (add_subscriber R late stopped ≡ (stopped, none))
  unfolding remove_subscriber add_subscriber stop first_subscriber without
  late_subscriber-stopped sub late e v only other =
      let gone = without_only sub e.subscribers only in
      let h : e.started ≡ true = v.wanted ∙ ap (λ ss. not (is_empty ss)) only in
      let runs : R.running e.receiver ≡ true = v.runs ∙ h in
      rw (gone, h)
        (
          refl,
          refl,
          runs,
          ground arith,
          R.stop_done e.receiver,
          λ broken. unwanted broken.wanted,
          ground arith,
        )
