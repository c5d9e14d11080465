-- ===== src/CrowdSec/Examples.antt =====
-- A resource of internal/controller/crowdsec_controller.go whose prefix has changed.
use dynamic_prefix_operator.Prelude.{◌≡◌, refl, Bool, true, false, List, [], ◌∷◌}
use dynamic_prefix_operator.CrowdSec.{
  TrustedEntry, Marker, values, owned_values, Command, sync, issue, then_expire, except,
}
use dynamic_prefix_operator.CrowdSec.Markers.{expires}

-- "c" is the current prefix; "o" is draining, and "x" has expired.
abbrev history : List TrustedEntry
history =
    record { prefix = b'x' ∷ []; expired = true }
    ∷ record { prefix = b'o' ∷ []; expired = false }
    ∷ record { prefix = b'c' ∷ []; expired = false }
    ∷ []

-- The resource "n" owns a marker of the prefix "p" that is desired no longer, and "c" has none.
abbrev markers : List Marker
markers =
    record { value = b'p' ∷ []; owner = b'n' ∷ [] }
    ∷ record { value = b'u' ∷ []; owner = b'm' ∷ [] }
    ∷ []

abbrev works : Command → Bool
works c = false

expired : expires (b'p' ∷ []) (sync works (b'n' ∷ []) ((b'c' ∷ []) ∷ []) markers).0 ≡ true
unfolding sync issue then_expire except values owned_values
expired = refl
