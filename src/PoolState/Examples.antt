-- ===== src/PoolState/Examples.antt =====
-- Two pools of a DynamicPrefix, as internal/controller/poolsync_condition.go follows them.
use dynamic_prefix_operator.Prelude.{◌≡◌, ◌⊎◌, true, false, none, some, List, [], ◌∷◌}
use dynamic_prefix_operator.Ownership.Texts.{Text}
use dynamic_prefix_operator.PoolState.{PoolStateKey, condition_for, pools_of}
use dynamic_prefix_operator.PoolState.Latest.{
  Happening, synced, remembered, last_error, condition_for-last_error,
}

abbrev first_key : PoolStateKey
first_key = record { backend = b'c' ∷ []; pool = b'p' ∷ [] }

abbrev second_key : PoolStateKey
second_key = record { backend = b'm' ∷ []; pool = b'p' ∷ [] }

-- Both failed, and the first, of the same name, has recovered.
abbrev course : List Happening
course =
    synced (b'h' ∷ []) first_key none
    ∷ synced (b'h' ∷ []) second_key (some (b'e' ∷ []))
    ∷ synced (b'h' ∷ []) first_key (some (b'e' ∷ []))
    ∷ []

condition_for-last_error_example :
    let c = condition_for (pools_of (b'h' ∷ []) (remembered course)) in
    ((c.holds ≡ true) × ((j : PoolStateKey) → last_error (b'h' ∷ []) j course ≡ none))
    ⊎ ((c.holds ≡ false)
        × ((j : PoolStateKey) × (e : Text) × (last_error (b'h' ∷ []) j course ≡ some e)))
condition_for-last_error_example = condition_for-last_error (b'h' ∷ []) course
