-- ===== src/Reconciler/Examples.antt =====
-- A resource with one receiver, as internal/controller/dynamicprefix_controller.go reconciles it.
use dynamic_prefix_operator.Prelude.{
  map_option, ℕ, ◌+◌, ◌*◌, ◌/◌, ◌^◌, ◌≡◌, refl, Bool, true, false, not, ◌&&◌, Option, none, some,
  [], ◌∷◌, ok, is_ok, if◌then◌else◌,
}
use dynamic_prefix_operator.Prelude.Int.{ℤ, pos, negsuc, ◌+ℤ◌}
use dynamic_prefix_operator.Net.{ipv6_prefix}
use dynamic_prefix_operator.Ownership.Texts.{text_eq, text_eq_refl}
use dynamic_prefix_operator.Types.{Prefix, Error, message, static}
use dynamic_prefix_operator.Receiver.{Receiver}
use dynamic_prefix_operator.Conditions.{
  ConditionType, degraded, prefix_acquired, Condition, ConditionList, type_eq, transition_time,
  retimed,
}
use dynamic_prefix_operator.Reconciler.Given.{World}
use dynamic_prefix_operator.Reconciler.Held.{Entry}
use dynamic_prefix_operator.Reconciler.Held.Running.{Tidy, CreatesIdle}
use dynamic_prefix_operator.Reconciler.Derived.{calculate_subnets, calculate_address_ranges}
use dynamic_prefix_operator.Reconciler.Stored.{
  Cluster, Status, Resource, OwnedStatus, as_stored, find_condition, publish,
}
use dynamic_prefix_operator.Reconciler.{
  found, not_found, reconcile, if_calculated, accepted_status, lease_expiry,
}
use dynamic_prefix_operator.Reconciler.Passes.{
  Reach, passes, here, next, Reach-Tidy, Soon, reconcile-Soon,
}
use dynamic_prefix_operator.Reconciler.Health.{Says, is_none, accepted_status_lem}
use dynamic_prefix_operator.Reconciler.Settled.{after_accept, same_lease, publish-accepted_again}
use dynamic_prefix_operator.Reconciler.Stamps.{
  Since, accept_all, accept_all-Since, failing-restamped,
}
use dynamic_prefix_operator.Reconciler.Changes.{Justified, AsRead, reconcile-Justified}
use dynamic_prefix_operator.Reconciler.Deletion.{retry, retry-deleted}

record Line : Type 0 where
  on : Bool
  prefix : Option Prefix
  failure : Option Error

never_fails : (s : Line) (e : Error) → ◌≡◌ {A = Option Error} none (some e) → true ≡ s.on
never_fails s e h = cc

abbrev line_receiver : Receiver
line_receiver = record {
  State = Line;
  start = λ s. (record s { on = true }, none);
  stop = λ s. (record s { on = false }, none);
  current_prefix = λ s. s.prefix;
  source = λ s. static;
  last_error = λ s. s.failure;
  running = λ s. s.on;
  start_failed = never_fails;
  start_done = λ s h. refl;
  stop_done = λ s. refl;
}

abbrev by_type : ConditionList
by_type = record {
  State = ConditionType → Option Condition;
  find = λ t s. s t;
  set = λ c s t.
      if type_eq t c.type
      then some
          (record c { last_transition_time = transition_time (s t) c.holds c.last_transition_time })
      else s t;
  find-set = λ t c s. refl;
  with_times = λ f s t. map_option (retimed f) (s t);
  find-with_times = λ f t s. refl;
}

-- A global prefix of 56 bits, valid for an hour.
abbrev first_prefix : Prefix
first_prefix = record {
  network = ipv6_prefix (0x2001 * 2 ^ 112) 56;
  valid_lifetime = pos 3_600_000_000_000;
  preferred_lifetime = pos 3_600_000_000_000;
  source = static;
  received_at = pos 5;
}

abbrev second_prefix : Prefix
second_prefix = record first_prefix { network = ipv6_prefix (0x2001 * 2 ^ 112 + 2 ^ 80) 56 }

-- Without the fraction of a second.
abbrev whole_seconds : ℤ → ℤ
whole_seconds (pos n) = pos (n / 1_000_000_000 * 1_000_000_000)
whole_seconds (negsuc n) = negsuc (n / 1_000_000_000 * 1_000_000_000 + 999_999_999)

abbrev world : World
world = record {
  lib = record {
    parse_addr = λ t. none;
    addr_string = λ a. a.value ∷ [];
    parse_prefix = λ t. none;
    prefix_string = λ p. p.addr.value ∷ [];
  };
  receiver = line_receiver;
  conditions = by_type;
  Factory = ℕ;
  create = some (λ spec made.
      (made + 1, ok (record { on = false; prefix = some first_prefix; failure = none })));
  listening = true;
  same_spec = λ s t. true;
  rejections = λ s. none;
  scaled = λ t. t;
  stored_time = whole_seconds;
  say = λ m. [];
}

abbrev start : Entry world
start = record {
  receiver = none;
  spec = none;
  forwarding = false;
  report = none;
  factory = 0;
  let_go = [];
}

abbrev io : Cluster
io = record { now = pos 7; update_works = true; apply_works = true; same_status = λ s t. false }

abbrev new_status : Status world
new_status = record {
  current_prefix = [];
  prefix_source = none;
  lease_expires_at = none;
  address_ranges = [];
  subnets = [];
  history = [];
  conditions = λ t. none;
}

abbrev resource : Resource world
resource = record {
  name = b'h' ∷ [];
  generation = 1;
  creation_time = pos 1;
  deleting = false;
  has_finalizer = true;
  acquisition = record { dhcpv6_pd = none; router_advertisement = none; prefix_filter = none };
  transition = none;
  address_ranges = [];
  subnets = [];
  status = new_status;
}

world-CreatesIdle : CreatesIdle world
world-CreatesIdle = λ spec f r h. cc

start-Tidy : Tidy world start
start-Tidy = record { held = tt; stopped = tt; recorded = refl; forwarded = refl }

-- A pass that makes and starts a receiver, and one that finds the resource gone.
twice :
    Reach world start
      (reconcile world io (reconcile world io start (found resource)).entry not_found).entry
twice =
    next (next here (passes io (found resource) start))
      (passes io not_found (reconcile world io start (found resource)).entry)

Reach-Tidy_example :
    Tidy world
      (reconcile world io (reconcile world io start (found resource)).entry not_found).entry
Reach-Tidy_example = Reach-Tidy world world-CreatesIdle start-Tidy twice

reconcile-Soon_example : Soon world (reconcile world io start (found resource)).answer
reconcile-Soon_example = reconcile-Soon world io start resource refl

resource-AsRead : AsRead world resource
unfolding as_stored
resource-AsRead = record {
  current_prefix = refl;
  prefix_source = refl;
  lease_expires_at = refl;
  address_ranges = refl;
  subnets = refl;
  history = refl;
}

reconcile-Justified_example :
    Justified world io start resource (reconcile world io start (found resource)).stored
reconcile-Justified_example = reconcile-Justified world io start resource resource-AsRead

accepted_status_lem_example :
    let s = accepted_status world (pos 7) resource none static first_prefix in
    let subnets =
      calculate_subnets (World.lib world) resource.name first_prefix.network resource.subnets in
    let ranges =
      calculate_address_ranges (World.lib world) first_prefix.network resource.address_ranges in
    (s.current_prefix ≡ (World.lib world).prefix_string first_prefix.network)
    × (s.subnets ≡ if_calculated subnets resource.status.subnets)
    × (s.address_ranges ≡ if_calculated ranges resource.status.address_ranges)
    × Says world (not (is_ok subnets && is_ok ranges && is_none {A = Error} none)) s
accepted_status_lem_example = accepted_status_lem world (pos 7) resource none static first_prefix

-- A prefix whose lease expires at a whole second, and a later pass over the resource that has it.
abbrev whole_lease : Prefix
whole_lease = record first_prefix { received_at = pos 0 }

abbrev later : Cluster
later = record io {
  now = pos 9;
  same_status = λ s t.
      text_eq s.current_prefix t.current_prefix && same_lease s.lease_expires_at t.lease_expires_at;
}

exact :
    (s : OwnedStatus) (lease : Option ℤ)
    → (Cluster.same_status later) s (record s { lease_expires_at = lease })
      ≡ same_lease s.lease_expires_at lease
exact s lease = rw (text_eq_refl s.current_prefix) refl

publish-accepted_again_example :
    let dp1 = after_accept world (pos 7) resource none static first_prefix in
    (publish world later start dp1
      (accepted_status world (pos 9) dp1 none static first_prefix)
      []
      none).wrote
    ≡ not (
        same_lease
          (map_option whole_seconds (lease_expiry world first_prefix))
          (lease_expiry world first_prefix))
publish-accepted_again_example =
    publish-accepted_again world (pos 7) later start resource static first_prefix [] none exact refl

-- The lease of the first prefix is written every time, and that of the second one is not.
written_again :
    same_lease
      (map_option whole_seconds (lease_expiry world first_prefix))
      (lease_expiry world first_prefix)
    ≡ false
unfolding lease_expiry ◌+ℤ◌
written_again = refl

settled :
    same_lease
      (map_option whole_seconds (lease_expiry world whole_lease))
      (lease_expiry world whole_lease)
    ≡ true
unfolding lease_expiry ◌+ℤ◌
settled = refl

-- The condition of an earlier failure.
abbrev failed_before : Condition
failed_before = record {
  type = degraded;
  holds = true;
  observed_generation = 1;
  last_transition_time = pos 3_000_000_000;
  reason = "RenewalFailing";
  message = [];
}

abbrev failing : Resource world
failing = record resource { status = record new_status { conditions = λ t. some failed_before } }

carved : calculate_subnets (World.lib world) failing.name first_prefix.network [] ≡ ok []
unfolding calculate_subnets
carved = refl

ranged : calculate_address_ranges (World.lib world) first_prefix.network [] ≡ ok []
unfolding calculate_address_ranges
ranged = refl

failed : find_condition world degraded failing.status ≡ some failed_before
unfolding find_condition
failed = refl

failing-restamped_example :
    let s = accepted_status world (pos 7) failing (some (message "no reply")) static first_prefix in
    ((c : Condition) × (find_condition world degraded s ≡ some c)
      × (c.holds ≡ true)
      × (c.last_transition_time ≡ pos 7))
    × ((publish world io start failing s [] none).wrote ≡ true)
failing-restamped_example =
    failing-restamped world io start failing (message "no reply") static first_prefix [] none [] []
      failed_before carved ranged (λ s t h. cc) refl failed (λ h. cc)

-- A prefix is held since the third second.
abbrev held : Condition
held = record failed_before { type = prefix_acquired; reason = "PrefixAcquired" }

abbrev holding : Resource world
holding = record resource {
  status = record new_status { current_prefix = 1 ∷ []; conditions = λ t. some held };
}

holding-Since : Since world (pos 3_000_000_000) holding
unfolding find_condition
holding-Since = record { entry = held; found = refl; holds = refl; time = refl; stamped = tt }

accept_all-Since_example : Since world (pos 3_000_000_000) (
    accept_all world
      ((pos 7, none, static, first_prefix) ∷ (pos 9, none, static, second_prefix) ∷ [])
      holding)
accept_all-Since_example =
    accept_all-Since world (pos 3_000_000_000)
      ((pos 7, none, static, first_prefix) ∷ (pos 9, none, static, second_prefix) ∷ []) holding refl
      refl holding-Since

-- The first update fails, the second succeeds.
retry-deleted_example :
    let (f, stored, done) =
      retry world
        (record io { update_works = false } ∷ io ∷ [])
        start
        (record resource { deleting = true }) in
    (done ≡ true) × (stored.has_finalizer ≡ false) × (f.receiver ≡ none)
retry-deleted_example =
    retry-deleted world (record io { update_works = false } ∷ io ∷ []) start
      (record resource { deleting = true }) refl refl refl
