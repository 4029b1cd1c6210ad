-- ===== src/Platform/RateLimit/Limits.antt =====
-- The bounds that the limiter of internal/httpx/ratelimit.go keeps, whatever requests come.
use kopiochi.Prelude.{
  ℕ, suc, ℤ, pos, negsuc, ◌≤◌, ◌≤ℤ◌, ◌<ℤ◌, leb_ℤ, ◌≡◌, inl, inr, true, false, Bool-cases,
  Option-cases, List, [], ◌∷◌, length, All, Text, arith, text_eq,
}
use kopiochi.Notification.Domain.Types.{Time, ok}
use kopiochi.Platform.RateLimit.{
  Floats, Bucket, Table, Config, RateLimiter, find_bucket, put_bucket, time_sub, new_rate_limiter,
  close, is_idle, evict, evict_expired, refill, spend, serve, allow,
}
use kopiochi.Platform.RateLimit.Tables.{
  KeysUnique, length-put_found, length-put, put-KeysUnique, put-All, find-All,
}

-- What happens to a limiter: a request of a key, a tick of the sweep, and Close.
pub data Event : Type 0 where
  asks : Time → Text → Event
  sweeps : Time → Event
  closes : Event

module _ {F : Type 0} (fl : Floats F) where
  -- A bucket holds between no tokens and `burst` of them.
  abbrev pub InBurst : F → Bucket F → Type 0
  InBurst burst b = (fl.leb fl.zero b.tokens ≡ true) × (fl.leb b.tokens burst ≡ true)

  -- The settings are positive, the table has at most `max_keys` keys, each once, and its buckets
  -- hold what they may.
  pub record IsSound (l : RateLimiter F) : Type 0 where
    pub rate : fl.leb fl.zero l.rate ≡ true
    pub burst : fl.leb l.burst fl.zero ≡ false
    pub ttl : pos 0 <ℤ l.ttl
    pub max_keys : pos 0 <ℤ l.max_keys
    pub few : pos (length l.buckets) ≤ℤ l.max_keys
    pub unique : KeysUnique l.buckets
    pub filled : All (λ (p : Text × Bucket F). InBurst l.burst p.1) l.buckets

  refill-InBurst :
      (l : RateLimiter F) (now : Time) (b : Bucket F)
      → IsSound l
      → InBurst l.burst b
      → InBurst l.burst (refill fl l now b)
  refill-InBurst l now b s h =
      elim (Bool-cases (fl.leb (fl.seconds (time_sub now b.last)) fl.zero)) [
        | inl idle ↦ rw idle h
        | inr passed ↦
            let e = fl.seconds (time_sub now b.last) in
            let more =
              fl.add_nonneg b.tokens (fl.mul e l.rate) h.0 (fl.mul_nonneg e l.rate passed s.rate) in
            rw passed (
              fl.min_nonneg l.burst (fl.add b.tokens (fl.mul e l.rate))
                  (fl.positive l.burst s.burst).0 more,
              fl.min-le_left l.burst (fl.add b.tokens (fl.mul e l.rate)),
            )
      ]

  spend-InBurst :
      (l : RateLimiter F) (b : Bucket F) → InBurst l.burst b → InBurst l.burst (spend fl l b).0
  spend-InBurst l b h = elim (Bool-cases (fl.leb fl.one b.tokens)) [
    | inl some_left ↦
        let (low, less) = fl.sub_one b.tokens some_left in
        rw some_left (low, fl.leb_trans (fl.sub b.tokens fl.one) b.tokens l.burst less h.1)
    | inr empty ↦ rw empty h
  ]

  serve-IsSound :
      (l : RateLimiter F) (now : Time) (key : Text) (b : Bucket F)
      → IsSound l
      → InBurst l.burst b
      → pos (length (put_bucket key (spend fl l (refill fl l now b)).0 l.buckets)) ≤ℤ l.max_keys
      → IsSound (serve fl l now key b).0
  serve-IsSound l now key b s h few =
      let b' = (spend fl l (refill fl l now b)).0 in
      record {
        rate = s.rate;
        burst = s.burst;
        ttl = s.ttl;
        max_keys = s.max_keys;
        few = few;
        unique = put-KeysUnique key b' l.buckets s.unique;
        filled =
            put-All (InBurst l.burst) key b' l.buckets
              (spend-InBurst l (refill fl l now b) (refill-InBurst l now b s h)) s.filled;
      }

  fewer : (m n : ℕ) (k : ℤ) → m ≤ n → pos n ≤ℤ k → pos m ≤ℤ k
  fewer m n k le h = omega arith

  room : (max_keys : ℤ) (n m : ℕ) → leb_ℤ max_keys (pos n) ≡ false → m ≤ suc n → pos m ≤ℤ max_keys
  room (pos k) n m h le = ground arith
  room (negsuc k) n m h le = ground arith

  allow-IsSound :
      (l : RateLimiter F) (now : Time) (key : Text) → IsSound l → IsSound (allow fl l now key).0
  unfolding allow
  allow-IsSound l now key s = elim (Option-cases (find_bucket key l.buckets)) [
    | inr (b, e) ↦
        let b' = (spend fl l (refill fl l now b)).0 in
        let few : pos (length (put_bucket key b' l.buckets)) ≤ℤ l.max_keys =
          rw (length-put_found key b' b l.buckets e) s.few in
        rw e
          (serve-IsSound l now key b s (find-All (InBurst l.burst) key b l.buckets e s.filled) few)
    | inl e ↦ rw e (elim (Bool-cases (leb_ℤ l.max_keys (pos (length l.buckets)))) [
      | inl full ↦ rw full s
      | inr space ↦
          let fresh : Bucket F = record { tokens = l.burst; last = now } in
          let b' = (spend fl l (refill fl l now fresh)).0 in
          rw space (
            serve-IsSound l now key fresh s (fl.positive l.burst s.burst) (
              room l.max_keys (length l.buckets) (length (put_bucket key b' l.buckets)) space
                (length-put key b' l.buckets)))
    ])
  ]

  length-evict :
      (l : RateLimiter F) (now : Time) (t : Table F) → length (evict fl l now t) ≤ length t
  unfolding evict
  length-evict l now [] = ground arith
  length-evict l now (p ∷ t) = elim (Bool-cases (is_idle fl l now p.1)) [
    | inl idle ↦ rw idle (omega (arith, length-evict l now t))
    | inr live ↦ rw live (omega (arith, length-evict l now t))
  ]

  evict-All {κ} :
      (P : Text × Bucket F → Type κ) (l : RateLimiter F) (now : Time) (t : Table F)
      → All P t
      → All P (evict fl l now t)
  unfolding evict
  evict-All P l now [] a = tt
  evict-All P l now (p ∷ t) a = elim (Bool-cases (is_idle fl l now p.1)) [
    | inl idle ↦ rw idle (evict-All P l now t a.1)
    | inr live ↦ rw live (a.0, evict-All P l now t a.1)
  ]

  evict-KeysUnique :
      (l : RateLimiter F) (now : Time) (t : Table F) → KeysUnique t → KeysUnique (evict fl l now t)
  unfolding evict
  evict-KeysUnique l now [] u = tt
  evict-KeysUnique l now (p ∷ t) u = elim (Bool-cases (is_idle fl l now p.1)) [
    | inl idle ↦ rw idle (evict-KeysUnique l now t u.1)
    | inr live ↦
        rw live (evict-All (λ q. text_eq q.0 p.0 ≡ false) l now t u.0, evict-KeysUnique l now t u.1)
  ]

  evict_expired-IsSound :
      (l : RateLimiter F) (now : Time) → IsSound l → IsSound (evict_expired fl l now)
  unfolding evict_expired
  evict_expired-IsSound l now s = record {
    rate = s.rate;
    burst = s.burst;
    ttl = s.ttl;
    max_keys = s.max_keys;
    few =
        fewer (length (evict fl l now l.buckets)) (length l.buckets) l.max_keys
          (length-evict l now l.buckets) s.few;
    unique = evict-KeysUnique l now l.buckets s.unique;
    filled = evict-All (λ p. InBurst l.burst p.1) l now l.buckets s.filled;
  }

  abbrev pub step : RateLimiter F → Event → RateLimiter F
  step l (asks now key) = (allow fl l now key).0
  step l (sweeps now) = evict_expired fl l now
  step l closes = close fl l

  unfoldable pub run : RateLimiter F → List Event → RateLimiter F
  run l [] = l
  run l (e ∷ es) = run (step l e) es

  step-IsSound : (l : RateLimiter F) (e : Event) → IsSound l → IsSound (step l e)
  step-IsSound l (asks now key) s = allow-IsSound l now key s
  step-IsSound l (sweeps now) s = evict_expired-IsSound l now s
  step-IsSound l closes s = record {
    rate = s.rate;
    burst = s.burst;
    ttl = s.ttl;
    max_keys = s.max_keys;
    few = ground (arith, s.max_keys);
    unique = tt;
    filled = tt;
  }

  pub run-IsSound_from : (l : RateLimiter F) (es : List Event) → IsSound l → IsSound (run l es)
  unfolding run
  run-IsSound_from l [] s = s
  run-IsSound_from l (e ∷ es) s = run-IsSound_from (step l e) es (step-IsSound l e s)

  pub built-IsSound :
      (cfg : Config F) (l : RateLimiter F) → new_rate_limiter fl cfg ≡ ok l → IsSound l
  unfolding new_rate_limiter
  built-IsSound cfg l e = ground (arith, fl.div_sixty cfg.rate)
