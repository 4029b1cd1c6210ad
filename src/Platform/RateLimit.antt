-- ===== src/Platform/RateLimit.antt =====
-- internal/httpx/ratelimit.go: the token bucket of each key, and the sweep that evicts idle ones. The
-- lock makes allow, evictExpired and Close atomic, so each is a function on the limiter. `Floats` has
-- what the code uses of float64, over a type `F` of its values other than NaN.
pub mod Tables
pub mod Limits
pub mod Configured
pub mod Eviction
use kopiochi.Prelude.{
  ℕ, suc, ℤ, pos, negsuc, ◌+ℤ◌, ◌-ℤ◌, ◌≤ℤ◌, ◌<ℤ◌, leb_ℤ, ltb_ℤ, wrap64, ◌≡◌, Bool, true, false, not,
  ◌&&◌, ◌||◌, Option, none, some, List, [], ◌∷◌, length, Text, text_eq, if◌then◌else◌, max_int64,
}
use kopiochi.Notification.Domain.Types.{Time, Duration, Result, ok, err}
use kopiochi.Platform.ClientIp.{Net, Request, client_key}

-- `seconds` is Duration.Seconds, `to_int` a conversion to int, `to_nanos` the conversion to a Duration
-- of a number of seconds, and `ceil_seconds` is int(math.Ceil(d.Seconds())). The laws hold of
-- rounding, which is monotone; no product of zero and an infinity is met.
pub record Floats (F : Type 0) : Type 0 where
  pub leb : F → F → Bool
  pub zero : F
  pub one : F
  pub sixty : F
  pub min : F → F → F
  pub add : F → F → F
  pub sub : F → F → F
  pub mul : F → F → F
  pub div : F → F → F
  pub seconds : Duration → F
  pub to_int : F → ℤ
  pub to_nanos : F → ℤ
  pub ceil_seconds : Duration → ℤ
  pub leb_trans : (a b c : F) → leb a b ≡ true → leb b c ≡ true → leb a c ≡ true
  pub min-le_left : (a b : F) → leb (min a b) a ≡ true
  pub min-le_right : (a b : F) → leb (min a b) b ≡ true
  pub min_nonneg : (a b : F) → leb zero a ≡ true → leb zero b ≡ true → leb zero (min a b) ≡ true
  pub min_id : (a b : F) → leb a zero ≡ false → leb a b ≡ true → min a b ≡ a
  pub add_nonneg : (a b : F) → leb zero a ≡ true → leb zero b ≡ true → leb zero (add a b) ≡ true
  pub add_mono : (a b c : F) → leb b c ≡ true → leb (add a b) (add a c) ≡ true
  pub mul_nonneg : (a b : F) → leb a zero ≡ false → leb zero b ≡ true → leb zero (mul a b) ≡ true
  pub mul_mono :
      (a b c : F)
      → leb a zero ≡ false
      → leb a b ≡ true
      → leb zero c ≡ true
      → leb (mul a c) (mul b c) ≡ true
  pub sub_one :
      (a : F) → leb one a ≡ true → (leb zero (sub a one) ≡ true) × (leb (sub a one) a ≡ true)
  pub div_sixty : (a : F) → leb a zero ≡ false → leb zero (div a sixty) ≡ true
  pub positive : (a : F) → leb a zero ≡ false → (leb zero a ≡ true) × (leb a a ≡ true)
  pub seconds_zero : leb (seconds (pos 0)) zero ≡ true
  pub seconds_positive : (d : Duration) → pos 0 <ℤ d → leb (seconds d) zero ≡ false
  pub seconds_mono : (a b : Duration) → a ≤ℤ b → leb (seconds a) (seconds b) ≡ true

-- bucket
pub record Bucket (F : Type 0) : Type 0 where
  pub tokens : F
  pub last : Time

-- The table of buckets: a map, as a list with one entry for each key.
abbrev pub Table : Type 0 → Type 0
Table F = List (Text × Bucket F)

-- config.RateLimit, as far as it is read here.
pub record Config (F : Type 0) : Type 0 where
  pub rate : F
  pub burst : F
  pub ttl : Duration
  pub max_keys : ℤ

-- RateLimiter, less the clock and the channel that stops the sweep.
pub record RateLimiter (F : Type 0) : Type 0 where
  pub rate : F
  pub burst : F
  pub ttl : Duration
  pub max_keys : ℤ
  pub buckets : Table F

pub data SetupError : Type 0 where
  bad_rate bad_burst bad_ttl bad_max_keys : SetupError

-- What allow answers.
pub record Answer : Type 0 where
  pub ok : Bool
  pub remaining : ℤ
  pub retry_after : Duration

-- What the middleware does: it passes the request on, or answers 429. Both have the values of
-- RateLimit-Limit and RateLimit-Remaining, and the second that of Retry-After.
pub data Reply : Type 0 where
  passed : ℤ → ℤ → Reply
  too_many : ℤ → ℤ → ℤ → Reply

module _ {F : Type 0} where
  unfoldable pub find_bucket : Text → Table F → Option (Bucket F)
  find_bucket key [] = none
  find_bucket key (p ∷ t) =
      let rest = find_bucket key t in if text_eq p.0 key then some p.1 else rest

  -- `m[key] = b`
  unfoldable pub put_bucket : Text → Bucket F → Table F → Table F
  put_bucket key b [] = (key, b) ∷ []
  put_bucket key b (p ∷ t) =
      let rest = put_bucket key b t in if text_eq p.0 key then (key, b) ∷ t else p ∷ rest

abbrev pub saturate : ℤ → Duration
saturate d =
    if ltb_ℤ (pos max_int64) d
    then pos max_int64
    else if ltb_ℤ d (negsuc max_int64)
    then negsuc max_int64
    else d

-- Time.Sub
abbrev pub time_sub : Time → Time → Duration
time_sub a b = saturate (a -ℤ b)

-- The answer with maxKeysRetryAfter.
abbrev pub turned_away : Answer
turned_away = record { ok = false; remaining = pos 0; retry_after = pos 1000000000 }

module _ {F : Type 0} (fl : Floats F) where
  abbrev not_positive : F → Bool
  not_positive a = fl.leb a (fl.zero)

  -- NewRateLimiter
  unfoldable pub new_rate_limiter : Config F → Result (RateLimiter F) SetupError
  new_rate_limiter cfg =
      if not_positive cfg.rate
      then err bad_rate
      else if not_positive cfg.burst
      then err bad_burst
      else if leb_ℤ cfg.ttl (pos 0)
      then err bad_ttl
      else if leb_ℤ cfg.max_keys (pos 0)
      then err bad_max_keys
      else Result.ok (record {
        rate = fl.div cfg.rate (fl.sixty);
        burst = cfg.burst;
        ttl = cfg.ttl;
        max_keys = cfg.max_keys;
        buckets = [];
      })

  -- Close
  abbrev pub close : RateLimiter F → RateLimiter F
  close l = record l { buckets = [] }

  -- `math.Min(l.burst, b.tokens + now.Sub(b.last).Seconds() * l.rate)`
  abbrev pub projected : RateLimiter F → Time → Bucket F → F
  projected l now b =
      fl.min l.burst (fl.add b.tokens (fl.mul (fl.seconds (time_sub now b.last)) l.rate))

  -- Does the sweep delete the bucket?
  abbrev pub is_idle : RateLimiter F → Time → Bucket F → Bool
  is_idle l now b = ltb_ℤ b.last (now -ℤ l.ttl) && fl.leb l.burst (projected l now b)

  unfoldable pub evict : RateLimiter F → Time → Table F → Table F
  evict l now [] = []
  evict l now (p ∷ t) = let rest = evict l now t in if is_idle l now p.1 then rest else p ∷ rest

  -- evictExpired
  unfoldable pub evict_expired : RateLimiter F → Time → RateLimiter F
  unfolding evict
  evict_expired l now = record l { buckets = evict l now l.buckets }

  abbrev pub refill : RateLimiter F → Time → Bucket F → Bucket F
  refill l now b =
      if fl.leb (fl.seconds (time_sub now b.last)) (fl.zero)
      then b
      else record { tokens = projected l now b; last = now }

  -- The token that a request takes, if there is one.
  abbrev pub spend : RateLimiter F → Bucket F → Bucket F × Answer
  spend l b =
      if fl.leb (fl.one) b.tokens
      then (let left = fl.sub b.tokens (fl.one) in
          (
            record b { tokens = left },
            record { ok = true; remaining = fl.to_int left; retry_after = pos 0 },
          ))
      else (
        b,
        record {
          ok = false;
          remaining = pos 0;
          retry_after =
              wrap64 (fl.to_nanos (fl.div (fl.sub (fl.one) b.tokens) l.rate) +ℤ pos 1000000);
        },
      )

  abbrev pub serve : RateLimiter F → Time → Text → Bucket F → RateLimiter F × Answer
  serve l now key b =
      let (b', answer) = spend l (refill l now b) in
      (record l { buckets = put_bucket key b' l.buckets }, answer)

  abbrev pub allow_found : RateLimiter F → Time → Text → Option (Bucket F) → RateLimiter F × Answer
  allow_found l now key (some b) = serve l now key b
  allow_found l now key none =
      if leb_ℤ l.max_keys (pos (length l.buckets))
      then (l, turned_away)
      else serve l now key (record { tokens = l.burst; last = now })

  -- allow
  unfoldable pub allow : RateLimiter F → Time → Text → RateLimiter F × Answer
  unfolding find_bucket put_bucket
  allow l now key = allow_found l now key (find_bucket key l.buckets)

  abbrev pub reply_of : ℤ → Answer → Reply
  reply_of limit a =
      if a.ok
      then passed limit a.remaining
      else too_many limit a.remaining (fl.ceil_seconds a.retry_after)

  -- Middleware
  unfoldable pub middleware :
      {A P : Type 0} → Net A P → RateLimiter F → Time → Request → RateLimiter F × Reply
  unfolding allow client_key
  middleware net l now r =
      let (l', answer) = allow l now (client_key net r) in (l', reply_of (fl.to_int l.burst) answer)
