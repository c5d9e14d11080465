-- ===== src/PoolState.antt =====
-- internal/controller/poolsync_condition.go: which pools fail to sync, for each DynamicPrefix, and the
-- condition that tells it. The maps are lists of pairs; the condition does not depend on their order
-- but for pools that print alike.
pub mod Latest
mod Examples
use dynamic_prefix_operator.Prelude.{
  ℕ, zero, suc, ◌≡◌, Bool, true, false, not, ◌&&◌, ◌||◌, String, Option, none, some, List, [], ◌∷◌,
  ◌++◌, ltb, ◌==◌, if◌then◌else◌, length,
}
use dynamic_prefix_operator.Prelude.Int.{ℤ}
use dynamic_prefix_operator.Ownership.Texts.{Text, text_eq}
use dynamic_prefix_operator.Conditions.{Condition, pools_synced, condition_apply_entry}

pub record PoolStateKey : Type 0 where
  pub backend : Text
  pub pool : Text

abbrev pub key_eq : PoolStateKey → PoolStateKey → Bool
key_eq a b = text_eq a.backend b.backend && text_eq a.pool b.pool

-- `String`: the two with a blank between them.
abbrev key_string : PoolStateKey → Text
key_string k = k.backend ++ b' ' ∷ k.pool

-- A pool with the error of its last sync.
pub record FailingPool : Type 0 where
  pub key : PoolStateKey
  pub error : Text

abbrev pub PoolSyncState : Type 0
PoolSyncState = List (Text × List FailingPool)

unfoldable pub pools_of : Text → PoolSyncState → List FailingPool
pools_of name [] = []
pools_of name ((n, pools) ∷ rest) = if text_eq n name then pools else pools_of name rest

put_pool : PoolStateKey → Text → List FailingPool → List FailingPool
put_pool key error [] = record { key = key; error = error } ∷ []
put_pool key error (p ∷ ps) =
    let rest = put_pool key error ps in
    if key_eq p.key key then record { key = key; error = error } ∷ ps else p ∷ rest

remove_pool : PoolStateKey → List FailingPool → List FailingPool
remove_pool key [] = []
remove_pool key (p ∷ ps) =
    let rest = remove_pool key ps in if key_eq p.key key then rest else p ∷ rest

-- `forget`
unfoldable pub forget : Text → PoolSyncState → PoolSyncState
forget name [] = []
forget name ((n, pools) ∷ rest) =
    let others = forget name rest in if text_eq n name then others else (n, pools) ∷ others

-- The map of a DynamicPrefix is dropped when it is empty.
set_pools : Text → List FailingPool → PoolSyncState → PoolSyncState
set_pools name [] s = forget name s
set_pools name (p ∷ ps) s = (name, p ∷ ps) ∷ forget name s

-- The order of texts, as `sort.Strings` has it.
text_lt : Text → Text → Bool
text_lt [] [] = false
text_lt [] (d ∷ t) = true
text_lt (c ∷ s) [] = false
text_lt (c ∷ s) (d ∷ t) = ltb c d || (c == d && text_lt s t)

insert_sorted : Text → List Text → List Text
insert_sorted s [] = s ∷ []
insert_sorted s (t ∷ ts) =
    let rest = insert_sorted s ts in if text_lt t s then t ∷ rest else s ∷ t ∷ ts

sort : List Text → List Text
unfolding insert_sorted text_lt
sort [] = []
sort (s ∷ ss) = insert_sorted s (sort ss)

key_strings : List FailingPool → List Text
key_strings [] = []
key_strings (p ∷ ps) = key_string p.key ∷ key_strings ps

first_error : Text → List FailingPool → Text
first_error name [] = []
first_error name (p ∷ ps) =
    let rest = first_error name ps in if text_eq (key_string p.key) name then p.error else rest

-- `names[0]`, which is there.
head_or_empty : List Text → Text
head_or_empty [] = []
head_or_empty (s ∷ ss) = s

-- A rendered condition: the names of the failing pools in order, and the error of the first.
pub record PoolsCondition : Type 0 where
  pub holds : Bool
  pub reason : String
  pub names : List Text
  pub first : Text

-- `conditionFor`, of the pools of one DynamicPrefix.
unfoldable pub condition_for : List FailingPool → PoolsCondition
unfolding sort key_strings first_error head_or_empty
condition_for [] = record { holds = true; reason = "PoolsSynced"; names = []; first = [] }
condition_for (p ∷ ps) =
    let names = sort (key_strings (p ∷ ps)) in
    record {
      holds = false;
      reason = "PoolSyncFailed";
      names = names;
      first = first_error (head_or_empty names) (p ∷ ps);
    }

outcome : PoolStateKey → Option Text → List FailingPool → List FailingPool
unfolding put_pool remove_pool
outcome key none pools = remove_pool key pools
outcome key (some error) pools = put_pool key error pools

-- `record`, of a sync's error if it has one.
unfoldable pub record_outcome :
    Text → PoolStateKey → Option Text → PoolSyncState → PoolSyncState × PoolsCondition
unfolding outcome set_pools
record_outcome name key error s =
    let pools = outcome key error (pools_of name s) in (set_pools name pools s, condition_for pools)

without_matches : (PoolStateKey → Bool) → List FailingPool → List FailingPool
without_matches matches [] = []
without_matches matches (p ∷ ps) =
    let rest = without_matches matches ps in if matches p.key then rest else p ∷ rest

any_matches : (PoolStateKey → Bool) → List FailingPool → Bool
any_matches matches [] = false
any_matches matches (p ∷ ps) = matches p.key || any_matches matches ps

drop_entries : (PoolStateKey → Bool) → PoolSyncState → PoolSyncState
unfolding without_matches
drop_entries matches [] = []
drop_entries matches ((n, pools) ∷ rest) =
    (n, without_matches matches pools) ∷ drop_entries matches rest

affected : (PoolStateKey → Bool) → PoolSyncState → List Text
unfolding any_matches
affected matches [] = []
affected matches ((n, pools) ∷ rest) =
    let others = affected matches rest in if any_matches matches pools then n ∷ others else others

-- `forgetEntries`: the state, and the DynamicPrefixes whose condition is to be written again.
unfoldable pub forget_entries : (PoolStateKey → Bool) → PoolSyncState → PoolSyncState × List Text
unfolding drop_entries affected sort
forget_entries matches s = (drop_entries matches s, sort (affected matches s))

-- What the requests of `writePoolsSyncedCondition` meet: a DynamicPrefix with its condition and
-- generation, none, or another failure; and the same for the write.
pub data Fetched : Type 0 where
  fetched : Option Condition → ℕ → Fetched
  gone failing : Fetched

pub data Applied : Type 0 where
  applied gone failing : Applied

after_apply : Text → Condition × Bool → Applied → PoolSyncState → PoolSyncState × Option Condition
after_apply name (entry, false) result s = (s, none)
after_apply name (entry, true) Applied.applied s = (s, some entry)
after_apply name (entry, true) Applied.gone s = (forget name s, none)
after_apply name (entry, true) Applied.failing s = (s, none)

-- The state, and the condition where it is written.
unfoldable pub write_pools_synced_condition :
    Text
    → PoolsCondition
    → ℤ
    → (PoolsCondition → Text)
    → Fetched
    → Applied
    → PoolSyncState
    → PoolSyncState × Option Condition
unfolding after_apply
write_pools_synced_condition name c now say (fetched existing generation) result s =
    after_apply name
      (condition_apply_entry existing generation now pools_synced c.holds c.reason (say c)) result s
write_pools_synced_condition name c now say Fetched.gone result s = (forget name s, none)
write_pools_synced_condition name c now say Fetched.failing result s = (s, none)

unfoldable pub update_pools_synced_condition :
    Text
    → PoolStateKey
    → Option Text
    → ℤ
    → (PoolsCondition → Text)
    → Fetched
    → Applied
    → PoolSyncState
    → PoolSyncState × Option Condition
update_pools_synced_condition name key error now say found result s =
    let noted = record_outcome name key error s in
    write_pools_synced_condition name noted.1 now say found result noted.0
