-- ===== src/CrowdSec.antt =====
-- internal/controller/crowdsec_controller.go: the prefixes of a DynamicPrefix that are trusted, and what
-- `sync` asks of CrowdSec's local API to bring the markers in line with them. A call of the API is a
-- command, and which of them fail is an argument.
pub mod Markers
mod Examples
use dynamic_prefix_operator.Prelude.{
  Bool, true, false, not, ◌&&◌, ◌||◌, List, [], ◌∷◌, ◌++◌, if◌then◌else◌, map,
}
use dynamic_prefix_operator.Ownership.Texts.{Text, text_eq, mem, is_blank}

-- An entry of the history, with whether its state is expired.
pub record TrustedEntry : Type 0 where
  pub prefix : Text
  pub expired : Bool

-- The loop from the last entry to the first, over the prefixes listed before it.
trusted_from : List Text → List TrustedEntry → List Text
trusted_from prefixes [] = prefixes
trusted_from prefixes (e ∷ es) =
    let rest = trusted_from prefixes es in
    if e.expired || mem e.prefix rest then rest else rest ++ e.prefix ∷ []

unfoldable pub crowdsec_trusted_prefixes : Text → List TrustedEntry → List Text
unfolding trusted_from
crowdsec_trusted_prefixes current history =
    if is_blank current then [] else trusted_from (current ∷ []) history

pub record Marker : Type 0 where
  pub value : Text
  pub owner : Text

pub values : List Marker → List Text
values [] = []
values (m ∷ ms) = m.value ∷ values ms

-- The loop with the values found so far.
pub owned_values : Text → List Text → List Marker → List Text
owned_values name owned [] = owned
owned_values name owned (m ∷ ms) =
    owned_values name
      (if text_eq m.owner name && not (mem m.value owned) then owned ++ m.value ∷ [] else owned) ms

-- Those of a list that are not in another.
except : List Text → List Text → List Text
except others [] = []
except others (p ∷ ps) = let rest = except others ps in if mem p others then rest else p ∷ rest

pub data Command : Type 0 where
  create expire : Text → Command

-- The commands made, up to and with the first that fails, and whether none did.
issue : (Command → Bool) → List Command → List Command × Bool
issue fails [] = ([], true)
issue fails (c ∷ cs) =
    let rest = issue fails cs in if fails c then (c ∷ [], false) else (c ∷ rest.0, rest.1)

then_expire : (Command → Bool) → List Command → List Command × Bool → List Command × Bool
then_expire fails expires (made, false) = (made, false)
then_expire fails expires (made, true) = (made ++ (issue fails expires).0, (issue fails expires).1)

unfoldable pub sync : (Command → Bool) → Text → List Text → List Marker → List Command × Bool
unfolding then_expire issue except values owned_values
sync fails name desired markers =
    then_expire fails (map expire (except desired (owned_values name [] markers)))
      (issue fails (map create (except (values markers) desired)))
