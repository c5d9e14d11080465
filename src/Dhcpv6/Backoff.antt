-- ===== src/Dhcpv6/Backoff.antt =====
-- The pacing of acquisition attempts in dhcpv6pd_receiver.go. Durations are int64.
use native.Mathlib.Nat.{pow-suc}
use dynamic_prefix_operator.Prelude.{
  ℕ, zero, suc, ◌+◌, ◌-◌, ◌*◌, ◌/◌, ◌^◌, ◌≤◌, ◌<◌, ◌≡◌, ◌||◌, ◌&&◌, leb, if◌then◌else◌, arith, ap,
  ◌∙◌,
}
use dynamic_prefix_operator.Prelude.Int.{ℤ, pos, leb_ℤ, ltb_ℤ, ◌≤ℤ◌, ◌+ℤ◌, ◌-ℤ◌, quot_ℤ, wrap64}

unfoldable pub next_backoff : ℤ → ℤ → ℤ
unfolding ◌+ℤ◌
next_backoff cur ceiling =
    if (leb_ℤ ceiling cur || ltb_ℤ (quot_ℤ ceiling 2) cur) then ceiling else wrap64 (cur +ℤ cur)

-- `rand.Int64N(2*spread+1)` is the argument `draw`.
unfoldable pub jittered : ℤ → (ℤ → ℤ) → ℤ
unfolding ◌+ℤ◌ ◌-ℤ◌
jittered d draw =
    if leb_ℤ d (pos 0)
    then d
    else (let spread = quot_ℤ d 5 in
        if (leb_ℤ spread (pos 0) && leb_ℤ (pos 0) spread)
        then d
        else wrap64 (d +ℤ (draw (wrap64 (spread +ℤ spread +ℤ pos 1)) -ℤ spread)))

pub record AcquireBackoff : Type 0 where
  pub min : ℤ
  pub max : ℤ
  pub cur : ℤ

unfoldable pub new_acquire_backoff : ℤ → ℤ → AcquireBackoff
new_acquire_backoff lo hi = record { min = lo; max = hi; cur = lo }

unfoldable pub backoff_failed : AcquireBackoff → AcquireBackoff
backoff_failed b = record b { cur = next_backoff b.cur b.max }

unfoldable pub backoff_succeeded : AcquireBackoff → AcquireBackoff
backoff_succeeded b = record b { cur = b.min }

unfoldable pub backoff_wait : AcquireBackoff → (ℤ → ℤ) → ℤ
unfolding jittered
backoff_wait b draw = jittered b.cur draw

-- For a delay and a ceiling from 0 to the largest int64, doubling never wraps: the result is the
-- smaller of the ceiling and twice the delay.
pub next_backoff-min :
    (cur ceiling : ℕ)
    → ceiling < 2 ^ 63
    → next_backoff (pos cur) (pos ceiling)
      ≡ pos (if leb (cur + cur) ceiling then cur + cur else ceiling)
unfolding next_backoff ◌+ℤ◌
next_backoff-min cur ceiling h = ground arith

draw_range : (s : ℕ) → s < 2 ^ 61 → wrap64 (pos s +ℤ pos s +ℤ pos 1) ≡ pos (s + s + 1)
unfolding ◌+ℤ◌
draw_range s h = ground arith

jitter_within :
    (d s : ℕ) (x : ℤ)
    → d < 2 ^ 62
    → s ≤ d
    → pos 0 ≤ℤ x
    → x ≤ℤ pos (s + s)
    → (pos (d - s) ≤ℤ wrap64 (pos d +ℤ (x -ℤ pos s)))
      × (wrap64 (pos d +ℤ (x -ℤ pos s)) ≤ℤ pos (d + s))
unfolding ◌+ℤ◌ ◌-ℤ◌
jitter_within d s x hd hs lo hi = ground arith

-- A jittered delay of at most 2 ^ 62 stays within a fifth of the delay, whatever is drawn, as long as
-- a draw below a positive bound lies from 0 up to it, as that of `rand.Int64N` does.
pub jittered_bounds :
    (d : ℕ) (draw : ℤ → ℤ)
    → d < 2 ^ 62
    → ((n : ℕ) → (pos 0 ≤ℤ draw (pos (n + 1))) × (draw (pos (n + 1)) ≤ℤ pos n))
    → (pos (d - d / 5) ≤ℤ jittered (pos d) draw) × (jittered (pos d) draw ≤ℤ pos (d + d / 5))
unfolding jittered
jittered_bounds d draw h k =
    let within =
      jitter_within d (d / 5) (draw (pos (d / 5 + d / 5 + 1))) h (omega arith) (k (d / 5 + d / 5)).0
        (k (d / 5 + d / 5)).1 in
    let range = draw_range (d / 5) (omega arith) in ground arith

unfoldable pub after_failures : ℕ → AcquireBackoff → AcquireBackoff
after_failures zero b = b
after_failures (suc k) b = backoff_failed (after_failures k b)

abbrev capped : ℕ → ℕ → ℕ
capped m hi = if leb m hi then m else hi

capped_double : (m hi : ℕ) → capped (capped m hi + capped m hi) hi ≡ capped (m * 2) hi
capped_double m hi = ground arith

doubles :
    (k lo hi : ℕ)
    → lo ≤ hi
    → hi < 2 ^ 63
    → after_failures k (new_acquire_backoff (pos lo) (pos hi))
      ≡ record { min = pos lo; max = pos hi; cur = pos (capped (lo * 2 ^ k) hi) }
unfolding after_failures new_acquire_backoff backoff_failed
doubles zero lo hi h b = ap (λ c. record { min = pos lo; max = pos hi; cur = c }) (ground arith)
doubles (suc k) lo hi h b = rw (doubles k lo hi h b) (
    ap (λ c. record { min = pos lo; max = pos hi; cur = c })
      (next_backoff-min (capped (lo * 2 ^ k) hi) hi b
        ∙ ap pos (capped_double (lo * 2 ^ k) hi)
        ∙ ap (λ (t : ℕ). pos (capped t hi)) (rw pow-suc (omega arith))))

-- After `k` failures in a row the pause is the initial one doubled `k` times, up to the ceiling.
pub after_failures-doubles :
    (k lo hi : ℕ)
    → lo ≤ hi
    → hi < 2 ^ 63
    → (after_failures k (new_acquire_backoff (pos lo) (pos hi))).cur
      ≡ pos (if leb (lo * 2 ^ k) hi then lo * 2 ^ k else hi)
after_failures-doubles k lo hi h b = ap (λ s. s.cur) (doubles k lo hi h b)
