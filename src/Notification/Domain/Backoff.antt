-- ===== src/Notification/Domain/Backoff.antt =====
-- modules/notification/domain/notification.go: `Backoff`, `scaleBase` and `BackoffWithJitter`.
-- Durations are int64 nanoseconds. Floats are a parameter: `Floats` names the operations that the
-- jitter uses and what IEEE 754 gives of them.
use kopiochi.Prelude.{
  ℕ, ℤ, pos, pos_part, ◌+◌, ◌-◌, ◌*◌, ◌/◌, ◌^◌, ◌≤◌, ◌<◌, ◌≡◌, Bool, false, Option, none, some,
  leb_ℤ, ltb_ℤ, wrap64, max_int64, if◌then◌else◌,
}
use kopiochi.Notification.Domain.Types.{Duration}

-- `base << uint(attempt)` on an int64.
abbrev shift_left : ℤ → ℕ → ℤ
shift_left base k = wrap64 (pos (pos_part base * 2 ^ k))

-- scaleBase. Past the first two guards base and attempt are positive.
unfoldable pub scale_base : ℤ → Duration → Duration
scale_base attempt base =
    if leb_ℤ base (pos 0)
    then pos 0
    else if leb_ℤ attempt (pos 0)
    then base
    else if leb_ℤ (pos 63) attempt
    then pos max_int64
    else if ltb_ℤ (pos (max_int64 / 2 ^ pos_part attempt)) base
    then pos max_int64
    else shift_left base (pos_part attempt)

-- Backoff
unfoldable pub backoff : ℤ → Duration → Duration → Duration
unfolding scale_base
backoff attempt base ceiling =
    let d = scale_base attempt base in
    let d' = if ltb_ℤ ceiling d then ceiling else d in if ltb_ℤ d' (pos 0) then pos 0 else d'

-- float64 as `BackoffWithJitter` uses it. `scale f n` is time.Duration(f * float64(n)).
pub record Floats : Type 1 where
  pub Float : Type 0
  pub is_negative : Float → Bool
  pub is_one_or_more : Float → Bool
  pub zero_float : Float
  pub below_one : Float
  pub scale : Float → ℕ → ℕ
  pub below_one_in : (is_negative below_one ≡ false) × (is_one_or_more below_one ≡ false)
  pub zero_in : (is_negative zero_float ≡ false) × (is_one_or_more zero_float ≡ false)
  pub scale_lt :
      (f : Float) (n : ℕ)
      → is_negative f ≡ false
      → is_one_or_more f ≡ false
      → 0 < n
      → n ≤ max_int64
      → scale f n < n

module _ (fl : Floats) where
  open fl use {Float, is_negative, is_one_or_more, zero_float, below_one, scale}

  -- `if f < 0 { f = 0 }; if f >= 1 { f = math.Nextafter(1, 0) }`
  abbrev pub clamp : Float → Float
  clamp f =
      let g = if is_negative f then zero_float else f in if is_one_or_more g then below_one else g

  -- BackoffWithJitter; the source is nil, or yields this float.
  unfoldable pub backoff_with_jitter : ℤ → Duration → Duration → Option Float → Duration
  unfolding backoff
  backoff_with_jitter attempt base ceiling none = backoff attempt base ceiling
  backoff_with_jitter attempt base ceiling (some f) =
      let d = backoff attempt base ceiling in
      if leb_ℤ d (pos 0)
      then d
      else let half : ℕ = pos_part d / 2 in
        wrap64 (pos (half + scale (clamp f) (pos_part d - half)))
