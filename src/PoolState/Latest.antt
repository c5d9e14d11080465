-- ===== src/PoolState/Latest.antt =====
-- What internal/controller/poolsync_condition.go remembers of the pools, against the course of events.
use dynamic_prefix_operator.Prelude.{
  ◌≡◌, ◌⊎◌, refl, sym, ap, ◌∙◌, Bool, true, false, ◌&&◌, Option, none, some, List, [], ◌∷◌,
  if◌then◌else◌, arith, Bool-cases, inl, inr,
}
use dynamic_prefix_operator.Ownership.Texts.{Text, text_eq, text_eq→eq, text_eq_refl}
use dynamic_prefix_operator.PoolState.{
  PoolStateKey, key_eq, FailingPool, PoolSyncState, pools_of, put_pool, remove_pool, forget,
  set_pools, condition_for, outcome, record_outcome, without_matches, drop_entries, forget_entries,
}

key_eq→eq : (a b : PoolStateKey) → key_eq a b ≡ true → a ≡ b
key_eq→eq a b h =
    let p = text_eq→eq a.backend b.backend (ground arith) in
    let q = text_eq→eq a.pool b.pool (ground arith) in λ i. record { backend = p i; pool = q i }

key_eq_refl : (a : PoolStateKey) → key_eq a a ≡ true
key_eq_refl a = rw (text_eq_refl a.backend, text_eq_refl a.pool) refl

-- The error that a list of pools has for a key.
pub error_in : PoolStateKey → List FailingPool → Option Text
error_in key [] = none
error_in key (p ∷ ps) =
    let rest = error_in key ps in if key_eq p.key key then some p.error else rest

pub error_of : Text → PoolStateKey → PoolSyncState → Option Text
unfolding error_in
error_of name key s = error_in key (pools_of name s)

key_eq-same : (a b c : PoolStateKey) → key_eq a b ≡ true → key_eq a c ≡ key_eq b c
key_eq-same a b c h = ap (λ k. key_eq k c) (key_eq→eq a b h)

key_eq-apart : (a b c : PoolStateKey) → key_eq a b ≡ false → key_eq a c ≡ true → key_eq b c ≡ false
key_eq-apart a b c other h = elim (Bool-cases (key_eq b c)) [
  | inr apart ↦ apart
  | inl same ↦
      let together : key_eq a b ≡ true =
        ap (λ k. key_eq k b) (key_eq→eq a c h ∙ sym (key_eq→eq b c same)) ∙ key_eq_refl b in
      absurd (cc)
]

text_eq-same : (a b c : Text) → text_eq a b ≡ true → text_eq a c ≡ text_eq b c
text_eq-same a b c h = ap (λ t. text_eq t c) (text_eq→eq a b h)

text_eq-apart : (a b c : Text) → text_eq a b ≡ false → text_eq a c ≡ true → text_eq b c ≡ false
text_eq-apart a b c other h = elim (Bool-cases (text_eq b c)) [
  | inr apart ↦ apart
  | inl same ↦
      let together : text_eq a b ≡ true =
        ap (λ k. text_eq k b) (text_eq→eq a c h ∙ sym (text_eq→eq b c same)) ∙ text_eq_refl b in
      absurd (cc)
]

put_pool-lem :
    (k j : PoolStateKey) (e : Text) (ps : List FailingPool)
    → error_in j (put_pool k e ps) ≡ (if key_eq k j then some e else error_in j ps)
unfolding error_in put_pool
put_pool-lem k j e [] = refl
put_pool-lem k j e (p ∷ ps) =
    ground (arith, key_eq-same p.key k j, key_eq-apart p.key k j, put_pool-lem k j e ps)

remove_pool-lem :
    (k j : PoolStateKey) (ps : List FailingPool)
    → error_in j (remove_pool k ps) ≡ (if key_eq k j then none else error_in j ps)
unfolding error_in remove_pool
remove_pool-lem k j [] = ground arith
remove_pool-lem k j (p ∷ ps) =
    ground (arith, key_eq-same p.key k j, key_eq-apart p.key k j, remove_pool-lem k j ps)

outcome-lem :
    (k j : PoolStateKey) (e : Option Text) (ps : List FailingPool)
    → error_in j (outcome k e ps) ≡ (if key_eq k j then e else error_in j ps)
unfolding outcome
outcome-lem k j none ps = remove_pool-lem k j ps
outcome-lem k j (some e) ps = put_pool-lem k j e ps

forget-lem :
    (name n : Text) (s : PoolSyncState)
    → pools_of n (forget name s) ≡ (if text_eq name n then [] else pools_of n s)
unfolding forget pools_of
forget-lem name n [] = ground arith
forget-lem name n ((m, ps) ∷ s) =
    ground (arith, text_eq-same m name n, text_eq-apart m name n, forget-lem name n s)

set_pools-lem :
    (name n : Text) (ps : List FailingPool) (s : PoolSyncState)
    → pools_of n (set_pools name ps s) ≡ (if text_eq name n then ps else pools_of n s)
unfolding set_pools pools_of
set_pools-lem name n [] s = forget-lem name n s
set_pools-lem name n (p ∷ ps) s = ground (arith, forget-lem name n s)

matches-same :
    (matches : PoolStateKey → Bool) (a b : PoolStateKey) → key_eq a b ≡ true → matches a ≡ matches b
matches-same matches a b h = ap matches (key_eq→eq a b h)

without_matches-lem :
    (matches : PoolStateKey → Bool) (j : PoolStateKey) (ps : List FailingPool)
    → error_in j (without_matches matches ps) ≡ (if matches j then none else error_in j ps)
unfolding error_in without_matches
without_matches-lem matches j [] = ground arith
without_matches-lem matches j (p ∷ ps) =
    ground (arith, matches-same matches p.key j, without_matches-lem matches j ps)

drop_entries-lem :
    (matches : PoolStateKey → Bool) (n : Text) (j : PoolStateKey) (s : PoolSyncState)
    → error_in j (pools_of n (drop_entries matches s))
      ≡ (if matches j then none else error_in j (pools_of n s))
unfolding pools_of drop_entries
drop_entries-lem matches n j [] = without_matches-lem matches j []
drop_entries-lem matches n j ((m, ps) ∷ s) =
    ground (arith, without_matches-lem matches j ps, drop_entries-lem matches n j s)

-- What happens: a pool is synced, with an error or without; pools are released; a DynamicPrefix is
-- found to be gone.
pub data Happening : Type 0 where
  synced : Text → PoolStateKey → Option Text → Happening
  released : (PoolStateKey → Bool) → Happening
  went : Text → Happening

-- The state after a course of events, the newest first.
pub remembered : List Happening → PoolSyncState
remembered [] = []
remembered (synced name key e ∷ hs) = (record_outcome name key e (remembered hs)).0
remembered (released matches ∷ hs) = (forget_entries matches (remembered hs)).0
remembered (went name ∷ hs) = forget name (remembered hs)

-- How the last sync of a pool for a DynamicPrefix ended, since the pool was released or the
-- DynamicPrefix went.
pub last_error : Text → PoolStateKey → List Happening → Option Text
last_error n j [] = none
last_error n j (synced name key e ∷ hs) =
    let rest = last_error n j hs in if (text_eq name n && key_eq key j) then e else rest
last_error n j (released matches ∷ hs) =
    let rest = last_error n j hs in if matches j then none else rest
last_error n j (went name ∷ hs) =
    let rest = last_error n j hs in if text_eq name n then none else rest

forgotten :
    (b : Bool) (j : PoolStateKey) (ps : List FailingPool)
    → error_in j (if b then [] else ps) ≡ (if b then none else error_in j ps)
unfolding error_in
forgotten true j ps = refl
forgotten false j ps = refl

noted :
    (name n : Text) (key j : PoolStateKey) (e : Option Text) (s : PoolSyncState)
    → error_in j (pools_of n (set_pools name (outcome key e (pools_of name s)) s))
      ≡ (if (text_eq name n && key_eq key j) then e else error_in j (pools_of n s))
noted name n key j e s =
    ap (error_in j) (set_pools-lem name n (outcome key e (pools_of name s)) s)
    ∙ elim (Bool-cases (text_eq name n)) [
      | inl here ↦ rw here (
          outcome-lem key j e (pools_of name s)
          ∙ ap (λ m. if key_eq key j then e else error_in j (pools_of m s))
              (text_eq→eq name n here))
      | inr away ↦ rw away refl
    ]

-- What the state has for a pool of a DynamicPrefix is how its last sync ended.
pub remembered-last_error :
    (n : Text) (j : PoolStateKey) (hs : List Happening)
    → error_of n j (remembered hs) ≡ last_error n j hs
unfolding error_of remembered last_error record_outcome forget_entries error_in pools_of
remembered-last_error n j [] = refl
remembered-last_error n j (synced name key e ∷ hs) =
    noted name n key j e (remembered hs)
    ∙ ap (λ o. if (text_eq name n && key_eq key j) then e else o) (remembered-last_error n j hs)
remembered-last_error n j (released matches ∷ hs) =
    drop_entries-lem matches n j (remembered hs)
    ∙ ap (λ o. if matches j then none else o) (remembered-last_error n j hs)
remembered-last_error n j (went name ∷ hs) =
    ap (error_in j) (forget-lem name n (remembered hs))
    ∙ forgotten (text_eq name n) j (pools_of n (remembered hs))
    ∙ ap (λ o. if text_eq name n then none else o) (remembered-last_error n j hs)

condition_for-holds :
    (ps : List FailingPool)
    → (((condition_for ps).holds ≡ true) × ((j : PoolStateKey) → error_in j ps ≡ none))
      ⊎ (((condition_for ps).holds ≡ false)
          × ((j : PoolStateKey) × (e : Text) × (error_in j ps ≡ some e)))
unfolding condition_for error_in
condition_for-holds [] = inl (refl, λ j. refl)
condition_for-holds (p ∷ ps) = inr (refl, (p.key, p.error, rw (key_eq_refl p.key) refl))

-- After any course of syncs, releases and DynamicPrefixes that go, either the condition of a
-- DynamicPrefix holds and no pool's last sync for it failed, or it does not hold and there is a pool
-- whose last sync for it failed.
pub condition_for-last_error :
    (n : Text) (hs : List Happening)
    → let c = condition_for (pools_of n (remembered hs)) in
      ((c.holds ≡ true) × ((j : PoolStateKey) → last_error n j hs ≡ none))
      ⊎ ((c.holds ≡ false) × ((j : PoolStateKey) × (e : Text) × (last_error n j hs ≡ some e)))
unfolding error_of
condition_for-last_error n hs = elim (condition_for-holds (pools_of n (remembered hs))) [
  | inl (holds, none_fails) ↦ inl (holds, λ j. sym (remembered-last_error n j hs) ∙ none_fails j)
  | inr (fails, (j, e, is)) ↦ inr (fails, (j, e, sym (remembered-last_error n j hs) ∙ is))
]
