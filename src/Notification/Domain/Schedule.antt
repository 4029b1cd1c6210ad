-- ===== src/Notification/Domain/Schedule.antt =====
-- The retry schedule of modules/notification/domain/notification.go against the formula of its
-- comments, over unbounded numbers.
use kopiochi.Prelude.{
  ℕ, ℤ, pos, negsuc, pos_part, ◌+◌, ◌-◌, ◌*◌, ◌/◌, ◌^◌, ◌≤◌, ◌<◌, ◌≡◌, refl, ◌⊎◌, ◌≤ℤ◌, ◌<ℤ◌, false,
  none, some, arith, leb_ℤ, wrap64, wrap64_id, max_int64, if◌then◌else◌,
}
use Prim.Native.Nat.{min}
use native.Mathlib.Nat.{one-le-pow, pow-le-pow_right}
use kopiochi.Notification.Domain.Types.{Duration}
use kopiochi.Notification.Domain.Backoff.{Floats, clamp, scale_base, backoff, backoff_with_jitter}

-- min(base * 2^attempt, ceiling), with a negative argument read as 0.
abbrev pub delay : ℤ → Duration → Duration → ℕ
delay attempt base ceiling = min (pos_part base * 2 ^ pos_part attempt) (pos_part ceiling)

quotient_below : (x k base : ℕ) → x / 2 ^ k < base → x < base * 2 ^ k
quotient_below x k base h = let p = one-le-pow k 2 (omega arith) in grind arith

quotient_above : (x k base : ℕ) → base ≤ x / 2 ^ k → base * 2 ^ k ≤ x
quotient_above x k base h = let p = one-le-pow k 2 (omega arith) in grind arith

past_63 : (k base : ℕ) → 63 ≤ k → 1 ≤ base → max_int64 < base * 2 ^ k
past_63 k base h b =
    let p = pow-le-pow_right {n = 2} (omega arith) {i = 63} {j = k} h in grind arith

-- The shift saturates exactly where the product leaves int64.
scale_base_lem :
    (attempt : ℤ) (base : Duration)
    → base ≤ℤ pos max_int64
    → scale_base attempt base ≡ pos (min (pos_part base * 2 ^ pos_part attempt) max_int64)
unfolding scale_base
scale_base_lem attempt (negsuc b) h = ground arith
scale_base_lem (negsuc k) (pos b) h = ground arith
scale_base_lem (pos k) (pos b) h = ground (
  arith,
  past_63 k b,
  quotient_below max_int64 k b,
  quotient_above max_int64 k b,
  wrap64_id (pos (b * 2 ^ k)),
)

-- Backoff is min(base * 2^attempt, cap), computed without overflow: for every attempt, base and
-- cap that an int and two Durations can hold, negative ones read as 0, the saturating int64
-- arithmetic gives the value of the formula over unbounded numbers.
pub backoff_lem :
    (attempt : ℤ) (base ceiling : Duration)
    → base ≤ℤ pos max_int64
    → ceiling ≤ℤ pos max_int64
    → backoff attempt base ceiling ≡ pos (delay attempt base ceiling)
unfolding backoff
backoff_lem attempt base ceiling b c = ground (arith, scale_base_lem attempt base)

delay-le :
    (attempt : ℤ) (base ceiling : Duration)
    → ceiling ≤ℤ pos max_int64
    → delay attempt base ceiling ≤ max_int64
delay-le attempt base (pos c) h = omega arith
delay-le attempt base (negsuc c) h = omega arith

-- The schedule never shrinks as failures accumulate, is never negative and never passes the cap.
pub backoff_mono :
    (k l : ℕ) (base ceiling : Duration)
    → k ≤ l
    → base ≤ℤ pos max_int64
    → ceiling ≤ℤ pos max_int64
    → (backoff (pos k) base ceiling ≤ℤ backoff (pos l) base ceiling)
      × (pos 0 ≤ℤ backoff (pos k) base ceiling)
      × (backoff (pos l) base ceiling ≤ℤ pos (pos_part ceiling))
backoff_mono k l base ceiling h b c =
    let grow = pow-le-pow_right {n = 2} (omega arith) {i = k} {j = l} h in
    rw (backoff_lem (pos k) base ceiling b c, backoff_lem (pos l) base ceiling b c)
      (grind arith, omega arith, omega arith)

module _ (fl : Floats) where
  clamp_in :
      (f : fl.Float)
      → (fl.is_negative (clamp fl f) ≡ false) × (fl.is_one_or_more (clamp fl f) ≡ false)
  clamp_in f = ground (arith, fl.zero_in, fl.below_one_in)

  scale-clamp-lt : (f : fl.Float) (n : ℕ) → 0 < n → n ≤ max_int64 → fl.scale (clamp fl f) n < n
  scale-clamp-lt f n p h = fl.scale_lt (clamp fl f) n (clamp_in f).0 (clamp_in f).1 p h

  -- The body of the jitter, at a delay that is already known.
  abbrev spread_out : ℕ → fl.Float → Duration
  spread_out d f =
      if leb_ℤ (pos d) (pos 0)
      then pos d
      else wrap64 (pos (d / 2 + fl.scale (clamp fl f) (d - d / 2)))

  spread :
      (d : ℕ) (f : fl.Float)
      → d ≤ max_int64
      → ((d ≡ 0) × (spread_out d f ≡ pos 0))
        ⊎ ((0 < d) × (pos (d / 2) ≤ℤ spread_out d f) × (spread_out d f <ℤ pos d))
  spread d f h = ground (
    arith,
    scale-clamp-lt f (d - d / 2),
    wrap64_id (pos (d / 2 + fl.scale (clamp fl f) (d - d / 2))),
  )

  -- With a source, the delay is in [d/2, d) for d = min(base * 2^attempt, cap), whatever float the
  -- source yields, or is 0 with d; without a source it is d.
  backoff_with_jitter_bounds :
      (attempt : ℤ) (base ceiling : Duration) (f : fl.Float)
      → base ≤ℤ pos max_int64
      → ceiling ≤ℤ pos max_int64
      → let d = delay attempt base ceiling in
        let jittered = backoff_with_jitter fl attempt base ceiling (some f) in
        (backoff_with_jitter fl attempt base ceiling none ≡ pos d)
        × (((d ≡ 0) × (jittered ≡ pos 0))
            ⊎ ((0 < d) × (pos (d / 2) ≤ℤ jittered) × (jittered <ℤ pos d)))
  unfolding backoff_with_jitter
  backoff_with_jitter_bounds attempt base ceiling f b c =
      rw (backoff_lem attempt base ceiling b c)
        (refl, spread (delay attempt base ceiling) f (delay-le attempt base ceiling c))
