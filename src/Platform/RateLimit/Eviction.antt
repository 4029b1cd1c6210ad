-- ===== src/Platform/RateLimit/Eviction.antt =====
-- What the sweep of internal/httpx/ratelimit.go takes from a key, and what a request takes from
-- another key.
use kopiochi.Prelude.{
  ℤ, pos, negsuc, ◌-ℤ◌, ◌≤ℤ◌, ◌<ℤ◌, leb_ℤ, ltb_ℤ, int_laws, -ℤ_parts, ◌≡◌, refl, ap, sym, ◌∙◌, ◌⊎◌,
  inl, inr, Bool, true, false, ◌&&◌, Bool-cases, Option, none, some, Option-cases, [], ◌∷◌, length,
  Text, arith, text_eq, text_eq→eq, if◌then◌else◌,
}
use kopiochi.Notification.Domain.Types.{Time}
use kopiochi.Platform.RateLimit.{
  Floats, Bucket, Table, RateLimiter, Answer, find_bucket, saturate, time_sub, projected, is_idle,
  evict, evict_expired, refill, spend, serve, allow, turned_away,
}
use kopiochi.Platform.RateLimit.Tables.{Absent, KeysUnique, find-put}
use kopiochi.Platform.RateLimit.Limits.{IsSound}

saturate_mono : (x y : ℤ) → x ≤ℤ y → saturate x ≤ℤ saturate y
saturate_mono (pos m) (pos n) h = ground arith
saturate_mono (pos m) (negsuc n) h = ground arith
saturate_mono (negsuc m) (pos n) h = ground arith
saturate_mono (negsuc m) (negsuc n) h = ground arith

saturate_positive : (x : ℤ) → pos 0 <ℤ x → pos 0 <ℤ saturate x
saturate_positive (pos m) h = ground arith
saturate_positive (negsuc m) h = ground arith

time_sub_mono : (a b c : Time) → a ≤ℤ b → time_sub a c ≤ℤ time_sub b c
time_sub_mono a b c h = saturate_mono (a -ℤ c) (b -ℤ c) (omega int_laws)

ltb_ℤ→lt : (a b : ℤ) → ltb_ℤ a b ≡ true → a <ℤ b
ltb_ℤ→lt a b h = ground arith

lt→leb_ℤ : (a b : ℤ) → a <ℤ b → leb_ℤ b a ≡ false
lt→leb_ℤ a b h = ground arith

time_sub_positive :
    (a b : Time) (d : ℤ) → pos 0 <ℤ d → ltb_ℤ b (a -ℤ d) ≡ true → pos 0 <ℤ time_sub a b
time_sub_positive a b d p h =
    let less = ltb_ℤ→lt b (a -ℤ d) h in
    saturate_positive (a -ℤ b) (omega (arith, -ℤ_parts a b, -ℤ_parts a d))

time_sub_self : (a : Time) → time_sub a a ≡ pos 0
unfolding ◌-ℤ◌
time_sub_self a = ground arith

module _ {F : Type 0} where
  find-Absent : (key : Text) (t : Table F) → Absent key t → find_bucket key t ≡ none
  unfolding find_bucket
  find-Absent key [] a = refl
  find-Absent key (p ∷ t) a = rw a.0 (find-Absent key t a.1)

module _ {F : Type 0} (fl : Floats F) where
  abbrev if_kept : RateLimiter F → Time → Option (Bucket F) → Option (Bucket F)
  if_kept l now none = none
  if_kept l now (some b) = if is_idle fl l now b then none else some b

  evict-Absent :
      (key : Text) (l : RateLimiter F) (now : Time) (t : Table F)
      → Absent key t
      → Absent key (evict fl l now t)
  unfolding evict
  evict-Absent key l now [] a = tt
  evict-Absent key l now (p ∷ t) a = elim (Bool-cases (is_idle fl l now p.1)) [
    | inl idle ↦ rw idle (evict-Absent key l now t a.1)
    | inr live ↦ rw live (a.0, evict-Absent key l now t a.1)
  ]

  find-evict :
      (key : Text) (l : RateLimiter F) (now : Time) (t : Table F)
      → KeysUnique t
      → find_bucket key (evict fl l now t) ≡ if_kept l now (find_bucket key t)
  unfolding find_bucket evict
  find-evict key l now [] u = refl
  find-evict key l now (p ∷ t) u = elim (Bool-cases (text_eq p.0 key)) [
    | inl hit ↦ elim (Bool-cases (is_idle fl l now p.1)) [
      | inl idle ↦
          let gone : Absent key t = rw (← text_eq→eq p.0 key hit) u.0 in
          rw hit (rw (idle) (find-Absent key (evict fl l now t) (evict-Absent key l now t gone)))
      | inr live ↦ rw hit (rw live (rw hit refl))
    ]
    | inr miss ↦ elim (Bool-cases (is_idle fl l now p.1)) [
      | inl idle ↦ rw miss (rw idle (find-evict key l now t u.1))
      | inr live ↦ rw miss (rw live (rw miss (find-evict key l now t u.1)))
    ]
  ]

  -- What the answer to a request of a key depends on.
  abbrev pub answer_of : RateLimiter F → Time → Bucket F → Answer
  answer_of l now b = (spend fl l (refill fl l now b)).1

  abbrev at_tokens : RateLimiter F → F → Answer
  at_tokens l x = (spend fl l (record { tokens = x; last = pos 0 })).1

  answer_of_tokens : (l : RateLimiter F) (b : Bucket F) → (spend fl l b).1 ≡ at_tokens l b.tokens
  answer_of_tokens l b = ground arith

  answer_full :
      (l : RateLimiter F) (now : Time) (b c : Bucket F)
      → (refill fl l now b).tokens ≡ (refill fl l now c).tokens
      → answer_of l now b ≡ answer_of l now c
  answer_full l now b c e =
      answer_of_tokens l (refill fl l now b)
      ∙ (ap (at_tokens l) e ∙ sym (answer_of_tokens l (refill fl l now c)))

  fresh_tokens :
      (l : RateLimiter F) (now : Time)
      → (refill fl l now (record { tokens = l.burst; last = now })).tokens ≡ l.burst
  fresh_tokens l now = rw (time_sub_self now) (rw fl.seconds_zero refl)

  both : (a b : Bool) → (a && b) ≡ true → (a ≡ true) × (b ≡ true)
  both a b h = ground arith

  -- A bucket that the sweep may delete is full at any later request.
  idle_tokens :
      (l : RateLimiter F) (swept now : Time) (b : Bucket F)
      → IsSound fl l
      → swept ≤ℤ now
      → is_idle fl l swept b ≡ true
      → (refill fl l now b).tokens ≡ l.burst
  idle_tokens l swept now b s le idle =
      let (old, full) =
        both (ltb_ℤ b.last (swept -ℤ l.ttl)) (fl.leb l.burst (projected fl l swept b)) idle in
      let early = fl.seconds (time_sub swept b.last) in
      let late = fl.seconds (time_sub now b.last) in
      let before = time_sub_positive swept b.last l.ttl s.ttl old in
      let later = time_sub_mono swept now b.last le in
      let early_positive = fl.seconds_positive (time_sub swept b.last) before in
      let late_positive = fl.seconds_positive (time_sub now b.last) (omega arith) in
      let longer = fl.seconds_mono (time_sub swept b.last) (time_sub now b.last) later in
      let more =
        fl.add_mono b.tokens (fl.mul early l.rate) (fl.mul late l.rate)
          (fl.mul_mono early late l.rate early_positive longer s.rate) in
      let enough =
        fl.leb_trans l.burst (fl.add b.tokens (fl.mul early l.rate))
          (fl.add b.tokens (fl.mul late l.rate))
          (fl.leb_trans l.burst (projected fl l swept b) (fl.add b.tokens (fl.mul early l.rate))
            full (fl.min-le_right l.burst (fl.add b.tokens (fl.mul early l.rate))))
          more in
      rw late_positive (fl.min_id l.burst (fl.add b.tokens (fl.mul late l.rate)) s.burst enough)

  -- The sweep takes nothing from a key that is tracked: at any request after it, the answer is the
  -- one that would have come without it, if the bucket was kept, or if the table has room for the key.
  pub evict_expired-answer :
      (l : RateLimiter F) (swept now : Time) (key : Text) (b : Bucket F)
      → IsSound fl l
      → swept ≤ℤ now
      → find_bucket key l.buckets ≡ some b
      → (is_idle fl l swept b ≡ false)
        ⊎ (pos (length (evict_expired fl l swept).buckets) <ℤ l.max_keys)
      → (allow fl (evict_expired fl l swept) now key).1 ≡ (allow fl l now key).1
  unfolding allow evict_expired
  evict_expired-answer l swept now key b s le found room =
      elim (Bool-cases (is_idle fl l swept b)) [
        | inr live ↦
            let kept : find_bucket key (evict fl l swept l.buckets) ≡ some b =
              find-evict key l swept l.buckets s.unique
              ∙ (ap (if_kept l swept) found ∙ rw live refl) in
            rw kept (rw found refl)
        | inl idle ↦
            let gone : find_bucket key (evict fl l swept l.buckets) ≡ none =
              find-evict key l swept l.buckets s.unique
              ∙ (ap (if_kept l swept) found ∙ rw idle refl) in
            let space : leb_ℤ l.max_keys (pos (length (evict fl l swept l.buckets))) ≡ false =
              elim room [
                | inl kept ↦ cc
                | inr less ↦ lt→leb_ℤ (pos (length (evict fl l swept l.buckets))) l.max_keys less
              ] in
            rw gone (
              rw space (
                rw found (
                  answer_full l now (record { tokens = l.burst; last = now }) b
                    (fresh_tokens l now ∙ sym (idle_tokens l swept now b s le idle)))))
      ]

  leb_ℤ→le : (a b : ℤ) → leb_ℤ a b ≡ true → a ≤ℤ b
  leb_ℤ→le a b h = ground arith

  leb_ℤ→lt : (a b : ℤ) → leb_ℤ a b ≡ false → b <ℤ a
  leb_ℤ→lt a b h = ground arith

  untouched :
      (l : RateLimiter F) (now : Time) (key other : Text) (b : Bucket F)
      → text_eq key other ≡ false
      → find_bucket other (serve fl l now key b).0.buckets ≡ find_bucket other l.buckets
  untouched l now key other b apart =
      find-put key other (spend fl l (refill fl l now b)).0 l.buckets ∙ rw apart refl

  -- A request of one key leaves the buckets of the others. The answer to a key that is tracked depends
  -- on its bucket alone. A key that is not tracked is turned away, and the table stays as it is, if the
  -- table is full, and is answered as one with a full bucket otherwise.
  allow_lem :
      (l : RateLimiter F) (now : Time) (key other : Text)
      → text_eq key other ≡ false
      → (find_bucket other (allow fl l now key).0.buckets ≡ find_bucket other l.buckets)
        × (((b : Bucket F) × (find_bucket key l.buckets ≡ some b)
              × ((allow fl l now key).1 ≡ answer_of l now b))
            ⊎ (((find_bucket key l.buckets ≡ none)
                  × (l.max_keys ≤ℤ pos (length l.buckets))
                  × (allow fl l now key ≡ (l, turned_away)))
                ⊎ ((find_bucket key l.buckets ≡ none)
                    × (pos (length l.buckets) <ℤ l.max_keys)
                    × ((allow fl l now key).1
                        ≡ answer_of l now (record { tokens = l.burst; last = now })))))
  unfolding allow
  allow_lem l now key other apart = elim (Option-cases (find_bucket key l.buckets)) [
    | inr (b, e) ↦ rw e (untouched l now key other b apart, inl (b, refl, refl))
    | inl e ↦ rw e (elim (Bool-cases (leb_ℤ l.max_keys (pos (length l.buckets)))) [
      | inl full ↦
          rw full (refl, inr (inl (refl, leb_ℤ→le l.max_keys (pos (length l.buckets)) full, refl)))
      | inr space ↦ rw space (
        untouched l now key other (record { tokens = l.burst; last = now }) apart,
        inr (inr (refl, leb_ℤ→lt l.max_keys (pos (length l.buckets)) space, refl)),
      )
    ])
  ]
