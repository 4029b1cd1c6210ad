-- ===== src/Platform/RateLimit/Configured.antt =====
-- The limiter of internal/httpx/ratelimit.go keeps to the configuration that it was built of.
use mathlib.Core.Path.{subst}
use kopiochi.Prelude.{
  pos, ◌≤ℤ◌, leb_ℤ, ◌≡◌, refl, ◌∙◌, inl, inr, Bool-cases, Option-cases, List, [], ◌∷◌, length, All,
  Text, arith,
}
use kopiochi.Notification.Domain.Types.{Time, ok}
use kopiochi.Platform.RateLimit.{
  Floats, Bucket, Config, RateLimiter, find_bucket, new_rate_limiter, evict_expired, allow,
}
use kopiochi.Platform.RateLimit.Tables.{KeysUnique}
use kopiochi.Platform.RateLimit.Limits.{
  Event, asks, sweeps, closes, InBurst, step, run, run-IsSound_from, built-IsSound,
}

module _ {F : Type 0} (fl : Floats F) where
  -- The settings of two limiters are the same.
  abbrev SameSettings : RateLimiter F → RateLimiter F → Type 0
  SameSettings l m =
      (m.rate ≡ l.rate) × (m.burst ≡ l.burst) × (m.ttl ≡ l.ttl) × (m.max_keys ≡ l.max_keys)

  allow-SameSettings :
      (l : RateLimiter F) (now : Time) (key : Text) → SameSettings l (allow fl l now key).0
  unfolding allow
  allow-SameSettings l now key = elim (Option-cases (find_bucket key l.buckets)) [
    | inr (b, e) ↦ rw e (refl, refl, refl, refl)
    | inl e ↦ rw e (elim (Bool-cases (leb_ℤ l.max_keys (pos (length l.buckets)))) [
      | inl full ↦ rw full (refl, refl, refl, refl)
      | inr space ↦ rw space (refl, refl, refl, refl)
    ])
  ]

  step-SameSettings : (l : RateLimiter F) (e : Event) → SameSettings l (step fl l e)
  unfolding evict_expired
  step-SameSettings l (asks now key) = allow-SameSettings l now key
  step-SameSettings l (sweeps now) = (refl, refl, refl, refl)
  step-SameSettings l closes = (refl, refl, refl, refl)

  run-SameSettings : (l : RateLimiter F) (es : List Event) → SameSettings l (run fl l es)
  unfolding run
  run-SameSettings l [] = (refl, refl, refl, refl)
  run-SameSettings l (e ∷ es) =
      let (r, b, t, m) = step-SameSettings l e in
      let (r', b', t', m') = run-SameSettings (step fl l e) es in (r' ∙ r, b' ∙ b, t' ∙ t, m' ∙ m)

  -- What a configuration promises of its limiter: the table has at most MaxKeys keys, each once, no
  -- bucket holds less than no tokens or more than Burst, and the rate and the TTL are those asked for.
  pub record IsWithin (cfg : Config F) (l : RateLimiter F) : Type 0 where
    pub few : pos (length l.buckets) ≤ℤ cfg.max_keys
    pub unique : KeysUnique l.buckets
    pub filled : All (λ (p : Text × Bucket F). InBurst fl cfg.burst p.1) l.buckets
    pub rate : l.rate ≡ fl.div cfg.rate fl.sixty
    pub ttl : l.ttl ≡ cfg.ttl

  built_settings :
      (cfg : Config F) (l : RateLimiter F)
      → new_rate_limiter fl cfg ≡ ok l
      → (l.rate ≡ fl.div cfg.rate fl.sixty)
        × (l.burst ≡ cfg.burst)
        × (l.ttl ≡ cfg.ttl)
        × (l.max_keys ≡ cfg.max_keys)
  unfolding new_rate_limiter
  built_settings cfg l e = ground arith

  -- Whatever requests come, whenever the sweep runs and Close is called: a limiter that
  -- NewRateLimiter built of a configuration never tracks more than its MaxKeys keys, has one bucket for
  -- each, no bucket holds less than no tokens or more than its Burst, and the rate per second and the
  -- TTL stay those that were asked for.
  pub run-IsWithin :
      (cfg : Config F) (l : RateLimiter F) (es : List Event)
      → new_rate_limiter fl cfg ≡ ok l
      → IsWithin cfg (run fl l es)
  run-IsWithin cfg l es e =
      let s = run-IsSound_from fl l es (built-IsSound fl cfg l e) in
      let (rate, burst, ttl, max_keys) = built_settings cfg l e in
      let (rate', burst', ttl', max_keys') = run-SameSettings l es in
      record {
        few = subst (λ k. pos (length (run fl l es).buckets) ≤ℤ k) (max_keys' ∙ max_keys) s.few;
        unique = s.unique;
        filled =
            subst (λ b. All (λ (p : Text × Bucket F). InBurst fl b p.1) (run fl l es).buckets)
              (burst' ∙ burst) s.filled;
        rate = rate' ∙ rate;
        ttl = ttl' ∙ ttl;
      }
