-- ===== src/Ra/Guard.antt =====
-- What the receiver of internal/prefix/ra_receiver.go holds, over any life of it.
use dynamic_prefix_operator.Prelude.{
  ℕ, ◌≤◌, ◌≡◌, ltb, if◌then◌else◌, refl, ap, Bool, true, Option, none, some, List, [], ◌∷◌, length,
  arith, Bool-cases, Option-cases, inl, inr, sym, ◌∙◌, subst,
}
use dynamic_prefix_operator.Prelude.Int.{ℤ, pos, leb_ℤ, ltb_ℤ, ◌+ℤ◌}
use dynamic_prefix_operator.Net.{Addr, masked, prefix_from}
use dynamic_prefix_operator.Types.{
  wrapped, Prefix, router_advertisement, Error, Event, capacity, send-le-capacity, prefix_event,
  failed_event, expired, event_type,
}
use dynamic_prefix_operator.Policy.{is_global_unicast, Policy, RaPolicy}
use dynamic_prefix_operator.Ra.{
  RaReceiver, PrefixInformation, RaOption, prefix_information, other_option, Scan, scan, consider,
  RejectReason, adopt, update_prefix, handle_router_advertisement, expire, expire_lease_if_stale,
  receive, Input, deadline_failed, read_timeout, read_failed, other_message, advertisement,
  take_advertisement, send_error, record_rejection, start, stop, StartEnv,
  reject_router_advertisement, new_ra_receiver, start_on, listen_on,
}
use dynamic_prefix_operator.Ra.Select.{
  handle-selected, first_where, selected, is_usable_global, is_usable_local, scan_counts,
  prefix_after,
}

abbrev taken : ℤ → PrefixInformation → Option Prefix
taken now pi = some (record {
  network = masked (prefix_from pi.prefix (pos pi.prefix_length));
  valid_lifetime = pi.valid_lifetime;
  preferred_lifetime = pi.preferred_lifetime;
  source = router_advertisement;
  received_at = now;
})

-- The prefix, if any, is the network of a global unicast address.
abbrev pub IsGlobal : Option Prefix → Type 0
IsGlobal none = Unit
IsGlobal (some p) =
    (a : Addr) × (n : ℕ) × (p.network ≡ masked (prefix_from a (pos n)))
    × (n ≤ 128)
    × (is_global_unicast a ≡ true)

pub record Guarded (r : RaReceiver) : Type 0 where
  pub strict : r.ra_policy.policy.require_global_unicast ≡ true
  pub only_global : IsGlobal r.current_prefix
  pub bounded : length r.events ≤ capacity

first_where-passes :
    (test : PrefixInformation → Bool) (os : List RaOption) (pi : PrefixInformation)
    → first_where test os ≡ some pi
    → test pi ≡ true
first_where-passes test [] pi e = cc
first_where-passes test (other_option ∷ os) pi e = first_where-passes test os pi e
first_where-passes test (prefix_information x ∷ os) pi e = elim (Bool-cases (test x)) [
  | inl hit ↦ ground arith
  | inr miss ↦ first_where-passes test os pi (ground arith)
]

prefix_after-IsGlobal :
    (now : ℤ) (o : Option PrefixInformation) (p : Option Prefix)
    → ((pi : PrefixInformation) → o ≡ some pi → is_global_unicast pi.prefix ≡ true)
    → IsGlobal p
    → IsGlobal (prefix_after now o p)
prefix_after-IsGlobal now none p h g = g
prefix_after-IsGlobal now (some pi) p h g = elim (Bool-cases (ltb 128 pi.prefix_length)) [
  | inl long ↦ subst (λ (b : Bool). IsGlobal (if b then p else taken now pi)) (sym long) g
  | inr short ↦
      subst (λ (b : Bool). IsGlobal (if b then p else taken now pi)) (sym short)
        (pi.prefix, pi.prefix_length, refl, ground arith, h pi refl)
]

selected-global :
    (p : Policy) (os : List RaOption) (pi : PrefixInformation)
    → p.require_global_unicast ≡ true
    → selected p os ≡ some pi
    → is_global_unicast pi.prefix ≡ true
unfolding selected
selected-global p os pi strict e = elim (Option-cases (first_where (is_usable_global p) os)) [
  | inl missing ↦
      let hit = first_where-passes (is_usable_local p) os pi (ground arith) in ground arith
  | inr (b, found) ↦
      let hit = first_where-passes (is_usable_global p) os pi (ground arith) in ground arith
]

consider-ra_policy :
    (pi : PrefixInformation) (s : Scan) → (consider pi s).receiver.ra_policy ≡ s.receiver.ra_policy
unfolding consider record_rejection
consider-ra_policy pi s = ground arith

scan-ra_policy :
    (os : List RaOption) (s : Scan) → (scan os s).receiver.ra_policy ≡ s.receiver.ra_policy
unfolding scan
scan-ra_policy [] s = refl
scan-ra_policy (other_option ∷ os) s = scan-ra_policy os s
scan-ra_policy (prefix_information pi ∷ os) s =
    scan-ra_policy os (consider pi s) ∙ consider-ra_policy pi s

adopt-ra_policy :
    (now : ℤ) (o : Option PrefixInformation) (r : RaReceiver)
    → (adopt now o r).ra_policy ≡ r.ra_policy
unfolding adopt update_prefix
adopt-ra_policy now none r = refl
adopt-ra_policy now (some pi) r = ground arith

adopt-events :
    (now : ℤ) (o : Option PrefixInformation) (r : RaReceiver)
    → length r.events ≤ capacity
    → length (adopt now o r).events ≤ capacity
unfolding adopt update_prefix
adopt-events now none r h = h
adopt-events now (some pi) r h =
    let p : Prefix = record {
      network = masked (prefix_from pi.prefix (pos pi.prefix_length));
      valid_lifetime = pi.valid_lifetime;
      preferred_lifetime = pi.preferred_lifetime;
      source = router_advertisement;
      received_at = now;
    } in
    let bound =
      send-le-capacity (prefix_event (event_type r.current_prefix p.network) (some p)) r.events h in
    ground arith

handle-Guarded :
    (now : ℤ) (os : List RaOption) (r : RaReceiver)
    → Guarded r
    → Guarded (handle_router_advertisement now os r)
unfolding handle_router_advertisement
handle-Guarded now os r v =
    let start_scan : Scan = record { receiver = r; best = none } in
    let s = scan os start_scan in
    let policy = adopt-ra_policy now s.best s.receiver ∙ scan-ra_policy os start_scan in
    let kept = scan_counts os start_scan r.ra_policy.policy refl in
    record {
      strict = ap (λ p. p.policy.require_global_unicast) policy ∙ v.strict;
      only_global = subst IsGlobal (sym (handle-selected now os r).1) (
          prefix_after-IsGlobal now (selected r.ra_policy.policy os) r.current_prefix
            (λ pi e. selected-global r.ra_policy.policy os pi v.strict e) v.only_global);
      bounded =
          adopt-events now s.best s.receiver
            (subst (λ es. length es ≤ capacity) (sym kept.1) v.bounded);
    }

rejection-Guarded :
    (reason : RejectReason) (r : RaReceiver) → Guarded r → Guarded (record_rejection reason r)
unfolding record_rejection
rejection-Guarded reason r v = record {
  strict = v.strict;
  only_global = v.only_global;
  bounded = v.bounded;
}

send_error-Guarded : (e : Error) (r : RaReceiver) → Guarded r → Guarded (send_error e r)
unfolding send_error
send_error-Guarded e r v = record {
  strict = v.strict;
  only_global = v.only_global;
  bounded = send-le-capacity (failed_event e) r.events v.bounded;
}

receive-Guarded : (now : ℤ) (i : Input) (r : RaReceiver) → Guarded r → Guarded (receive now i r)
unfolding receive take_advertisement
receive-Guarded now (deadline_failed e) r v =
    send_error-Guarded (wrapped "failed to set read deadline" e) r v
receive-Guarded now read_timeout r v = v
receive-Guarded now (read_failed e) r v =
    send_error-Guarded (wrapped "failed to read NDP message" e) r v
receive-Guarded now other_message r v = v
receive-Guarded now (advertisement source hop_limit os) r v =
    elim (Option-cases (reject_router_advertisement r source hop_limit r.verify_hop_limit)) [
      | inl passes ↦ rw passes (handle-Guarded now os r v)
      | inr (reason, e) ↦ rw e (rejection-Guarded reason r v)
    ]

expire_of-Guarded :
    (now : ℤ) (o : Option Prefix) (r : RaReceiver) → Guarded r → Guarded (expire now o r)
unfolding expire
expire_of-Guarded now none r v = v
expire_of-Guarded now (some p) r v = elim (Bool-cases (leb_ℤ p.valid_lifetime (pos 0))) [
  | inl unset ↦ rw unset v
  | inr limited ↦ elim (Bool-cases (ltb_ℤ (p.received_at +ℤ p.valid_lifetime) now)) [
    | inl late ↦
        rw (limited, late)
          (record {
            strict = v.strict;
            only_global = tt;
            bounded = send-le-capacity (prefix_event expired none) r.events v.bounded;
          })
    | inr early ↦ rw (limited, early) v
  ]
]

-- Starting and stopping leave the policy, the prefix and the events as they are.
start_keeps :
    (env : StartEnv) (r : RaReceiver)
    → ((start env r).0.ra_policy ≡ r.ra_policy)
      × ((start env r).0.current_prefix ≡ r.current_prefix)
      × ((start env r).0.events ≡ r.events)
unfolding start start_on listen_on
start_keeps env r = ground arith

stop_keeps :
    (close : Option Error) (r : RaReceiver)
    → ((stop close r).0.ra_policy ≡ r.ra_policy)
      × ((stop close r).0.current_prefix ≡ r.current_prefix)
      × ((stop close r).0.events ≡ r.events)
unfolding stop
stop_keeps close r = ground arith

same-Guarded :
    (r s : RaReceiver)
    → (s.ra_policy ≡ r.ra_policy) × (s.current_prefix ≡ r.current_prefix) × (s.events ≡ r.events)
    → Guarded r
    → Guarded s
same-Guarded r s (policy, held, waiting) v = record {
  strict = ap (λ p. p.policy.require_global_unicast) policy ∙ v.strict;
  only_global = subst IsGlobal (sym held) v.only_global;
  bounded = subst (λ es. length es ≤ capacity) (sym waiting) v.bounded;
}

-- What can happen to a receiver, the loops and the client interleaved in any order: a round of
-- either loop runs under the lock. A subscriber takes the first event waiting.
pub data Step : RaReceiver → RaReceiver → Type 0 where
  starts : (env : StartEnv) (r : RaReceiver) → Step r (start env r).0
  stops : (close : Option Error) (r : RaReceiver) → Step r (stop close r).0
  receives : (now : ℤ) (i : Input) (r : RaReceiver) → Step r (receive now i r)
  ticks : (now : ℤ) (r : RaReceiver) → Step r (expire_lease_if_stale now r)
  consumes :
      (r : RaReceiver) (e : Event) (es : List Event)
      → r.events ≡ e ∷ es
      → Step r (record r { events = es })

pub data Reach (r : RaReceiver) : RaReceiver → Type 0 where
  here : Reach r r
  next : {s t : RaReceiver} → Reach r s → Step s t → Reach r t

Step-Guarded : {r s : RaReceiver} → Step r s → Guarded r → Guarded s
unfolding expire_lease_if_stale
Step-Guarded (starts env r) v = same-Guarded r (start env r).0 (start_keeps env r) v
Step-Guarded (stops close r) v = same-Guarded r (stop close r).0 (stop_keeps close r) v
Step-Guarded (receives now i r) v = receive-Guarded now i r v
Step-Guarded (ticks now r) v = expire_of-Guarded now r.current_prefix r v
Step-Guarded (consumes r e es taken_event) v = record {
  strict = v.strict;
  only_global = v.only_global;
  bounded = omega (arith, ap length taken_event, v.bounded);
}

Reach-Guarded : {r s : RaReceiver} → Guarded r → Reach r s → Guarded s
Reach-Guarded v here = v
Reach-Guarded v (next path last) = Step-Guarded last (Reach-Guarded v path)

-- However a new receiver whose policy requires global unicast is started, stopped, fed, ticked and
-- read, any prefix it holds is the
-- network, of a length of at most 128 bits, of a global unicast address, and at most ten events wait.
pub Reach-new-Guarded :
    (policy : RaPolicy) (s : RaReceiver)
    → policy.policy.require_global_unicast ≡ true
    → Reach (new_ra_receiver policy) s
    → Guarded s
unfolding new_ra_receiver
Reach-new-Guarded policy s strict path =
    Reach-Guarded (record { strict = strict; only_global = tt; bounded = omega arith }) path
