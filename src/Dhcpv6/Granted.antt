-- ===== src/Dhcpv6/Granted.antt =====
-- What a REPLY has to say for `processIAPDReply` of dhcpv6pd_receiver.go to grant a lease.
use dynamic_prefix_operator.Prelude.{
  ℕ, ◌*◌, ◌/◌, ◌≤◌, ◌<◌, ◌^◌, ◌≡◌, none, some, ok, arith, inl, inr, Option-cases,
}
use dynamic_prefix_operator.Prelude.Int.{ℤ, pos, negsuc, ◌≤ℤ◌, ◌+ℤ◌}
use dynamic_prefix_operator.Policy.{Policy, validate}
use dynamic_prefix_operator.Dhcpv6.Message.{OptIaPrefix, OptIaPd, Message, Lease, status_error}
use dynamic_prefix_operator.Dhcpv6.Reply.{
  lease_from_reply, matching_ia_pd, best_prefix, t1_of, t2_of,
}

-- What a granted lease is: it has our IAID, the server it is recorded under and the time of the reply; neither the
-- message nor the first association with our IAID was refused; the lifetimes and T1 and T2 come from
-- that association and its first usable prefix; and the policy accepts the prefix.
pub record Granted (policy : Policy) (reply : Message) (iaid server : ℕ) (now : ℤ) (l : Lease)
    : Type 0 where
  pub pd : OptIaPd
  pub best : OptIaPrefix
  pub not_refused : status_error reply.status ≡ none
  pub association : matching_ia_pd iaid reply.ia_options ≡ some pd
  pub pd_not_refused : status_error pd.status ≡ none
  pub valid : l.valid_lifetime ≡ best.valid_lifetime
  pub preferred : l.preferred_lifetime ≡ best.preferred_lifetime
  pub renewal : l.t1 ≡ t1_of pd best
  pub rebinding : l.t2 ≡ t2_of pd best
  pub ours : l.iaid ≡ iaid
  pub from_server : l.server_id ≡ server
  pub at_time : l.received_at ≡ now
  pub accepted : validate policy l.prefix ≡ ok tt

-- A lease is granted only by a REPLY that refuses neither as a whole nor in its first association with
-- our IAID: the lifetimes, T1 and T2 come from that association and its first usable prefix, and the
-- policy accepts the prefix.
pub lease_from_reply-Granted :
    (policy : Policy) (reply : Message) (iaid server : ℕ) (now : ℤ) (l : Lease)
    → lease_from_reply policy reply iaid server now ≡ ok l
    → Granted policy reply iaid server now l
unfolding lease_from_reply
lease_from_reply-Granted policy reply iaid server now l e =
    elim (Option-cases (matching_ia_pd iaid reply.ia_options)) [
      | inl missing ↦ ground arith
      | inr (pd, found) ↦ elim (Option-cases (best_prefix pd.prefixes)) [
        | inl missing ↦ ground arith
        | inr ((best, network), chosen) ↦ record {
          pd = pd;
          best = best;
          not_refused = ground arith;
          association = found;
          pd_not_refused = ground arith;
          valid = ground arith;
          preferred = ground arith;
          renewal = ground arith;
          rebinding = ground arith;
          ours = ground arith;
          from_server = ground arith;
          at_time = ground arith;
          accepted = ground arith;
        }
      ]
    ]

-- Defaulted from a valid lifetime of at most a quarter of the largest int64 (about 73 years), T1 and
-- T2 are half and four fifths of it.
pub default_times :
    (pd : OptIaPd) (p : OptIaPrefix) (n : ℕ)
    → pd.t1 ≡ pos 0
    → pd.t2 ≡ pos 0
    → p.valid_lifetime ≡ pos n
    → 4 * n < 2 ^ 63
    → (t1_of pd p ≡ pos (n / 2)) × (t2_of pd p ≡ pos (4 * n / 5))
unfolding t1_of t2_of ◌+ℤ◌
default_times pd p n a b c h = ground arith

-- Where the association leaves T2 at zero, and the valid lifetime is at least 2 ^ 61 nanoseconds (about
-- 73 years) and less than 2 ^ 32 seconds, as every one of a message is, the product wraps and the T2
-- that is computed is negative.
pub default_t2-wraps :
    (pd : OptIaPd) (p : OptIaPrefix) (n : ℕ)
    → pd.t2 ≡ pos 0
    → p.valid_lifetime ≡ pos n
    → 2 ^ 63 ≤ 4 * n
    → n < 4294967296000000000
    → t2_of pd p ≤ℤ negsuc 0
unfolding t2_of ◌+ℤ◌
default_t2-wraps pd p n a b lo hi = ground arith
