-- ===== src/Shared.antt =====
-- The entries of the pool of internal/prefix/shared_ra_receiver.go: one receiver behind several
-- subscriptions. Each function runs under the lock of the entry; subscriptions are named by numbers.
pub mod Subscribed
mod Examples
use dynamic_prefix_operator.Prelude.{
  ℕ, ◌≡◌, Bool, true, false, not, ◌&&◌, ◌||◌, Option, none, some, List, [], ◌∷◌, ◌==◌,
  if◌then◌else◌,
}
use dynamic_prefix_operator.Types.{Error}
use dynamic_prefix_operator.Receiver.{Receiver}

abbrev pub subscribed : ℕ → List ℕ → Bool
subscribed sub [] = false
subscribed sub (s ∷ ss) = (s == sub) || subscribed sub ss

abbrev pub is_empty : List ℕ → Bool
is_empty [] = true
is_empty (s ∷ ss) = false

-- `delete` of the map.
unfoldable pub without : ℕ → List ℕ → List ℕ
without sub [] = []
without sub (s ∷ ss) = let rest = without sub ss in if s == sub then rest else s ∷ rest

module _ (R : Receiver) where
  -- `fanning` is whether a `fanOut` goroutine of a live run exists.
  pub record SharedRaReceiverEntry : Type 0 where
    pub receiver : R.State
    pub subscribers : List ℕ
    pub started : Bool
    pub fanning : Bool

  -- `addSubscriber` of an entry that is not started, once its receiver has been started.
  first_subscriber :
      ℕ → SharedRaReceiverEntry → R.State × Option Error → SharedRaReceiverEntry × Option Error
  first_subscriber sub e (r, some x) = (record e { receiver = r }, some x)
  first_subscriber sub e (r, none) = (
    record e { receiver = r; started = true; fanning = true; subscribers = sub ∷ e.subscribers },
    none,
  )

  unfoldable pub add_subscriber : ℕ → SharedRaReceiverEntry → SharedRaReceiverEntry × Option Error
  unfolding first_subscriber
  add_subscriber sub e =
      if subscribed sub e.subscribers
      then (e, none)
      else if not e.started
      then first_subscriber sub e (R.start e.receiver)
      else (record e { subscribers = sub ∷ e.subscribers }, none)

  -- The Boolean says that the entry is to be stopped.
  unfoldable pub remove_subscriber : ℕ → SharedRaReceiverEntry → SharedRaReceiverEntry × Bool
  remove_subscriber sub e =
      let left = without sub e.subscribers in
      (record e { subscribers = left }, is_empty left && e.started)

  unfoldable pub stop : SharedRaReceiverEntry → SharedRaReceiverEntry × Option Error
  stop e = if not e.started then (e, none) else (
    record e { started = false; fanning = false; receiver = (R.stop e.receiver).0 },
    (R.stop e.receiver).1,
  )

  -- `unsubscribe` where nothing else happens to the entry between its two steps.
  unfoldable pub unsubscribe : ℕ → SharedRaReceiverEntry → SharedRaReceiverEntry × Option Error
  unsubscribe sub e =
      let removed = remove_subscriber sub e in
      if removed.1 then stop removed.0 else (removed.0, none)
