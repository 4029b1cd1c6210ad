-- ===== src/Identity/Domain/Lockout.antt =====
-- The lockout of modules/identity/domain/user.go over a run of failed logins.
use kopiochi.Prelude.{
  ℕ, suc, wrap64, ◌<ℤ◌, ℤ, pos, ◌+◌, ◌≤◌, ◌≡◌, refl, ap, ◌∙◌, inl, inr, Bool-cases, ◌+ℤ◌, ◌≤ℤ◌,
  true, false, none, some, List, [], ◌∷◌, length, arith, inc, leb_ℤ, max_int64, if◌then◌else◌,
}
use kopiochi.Identity.Domain.{
  User, Time, Duration, is_locked, record_failed_login, reset_failed_logins,
}

-- Failed logins at these times.
unfoldable pub fail_all : ℤ → Duration → User → List Time → User
fail_all max lock u [] = u
fail_all max lock u (t ∷ ts) = fail_all max lock (record_failed_login u max lock t) ts

abbrev pub last : Time → List Time → Time
last t [] = t
last t (s ∷ ts) = last s ts

inc-pos : (k : ℕ) → k + 1 ≤ max_int64 → inc (pos k) ≡ pos (k + 1)
unfolding ◌+ℤ◌ wrap64
inc-pos k h = ground arith

-- The user after `k` failures in all, of which the last was at `t`: locked if `k` is the limit or
-- more.
abbrev pub after : ℤ → Duration → User → ℕ → Time → User
after max lock u k t = record u {
  failed_login_attempts = pos k;
  locked_until = if leb_ℤ max (pos k) then some (t +ℤ lock) else u.locked_until;
}

one_more :
    (max : ℤ) (lock : Duration) (u : User) (k : ℕ) (t : Time)
    → u.failed_login_attempts ≡ pos k
    → k + 1 ≤ max_int64
    → record_failed_login u max lock t ≡ after max lock u (k + 1) t
unfolding record_failed_login
one_more max lock u k t e h =
    let next = ap inc e ∙ inc-pos k h in
    rw next
      (elim (Bool-cases (leb_ℤ max (pos (k + 1)))) [ inl over ↦ rw over | inr under ↦ rw under ])

-- A later failure overwrites an earlier one, and locks if the earlier one did.
after-after :
    (max : ℤ) (lock : Duration) (u : User) (k l : ℕ) (t s : Time)
    → k ≤ l
    → after max lock (after max lock u k t) l s ≡ after max lock u l s
after-after max lock u k l t s h = elim (Bool-cases (leb_ℤ max (pos l))) [
  | inl over ↦ rw over
  | inr under ↦ let early : leb_ℤ max (pos k) ≡ false = ground arith in rw (under, early)
]

fail_all_lem :
    (max : ℤ) (lock : Duration) (u : User) (k : ℕ) (t : Time) (ts : List Time)
    → u.failed_login_attempts ≡ pos k
    → k + suc (length ts) ≤ max_int64
    → fail_all max lock u (t ∷ ts) ≡ after max lock u (k + suc (length ts)) (last t ts)
unfolding fail_all
fail_all_lem max lock u k t [] e h = one_more max lock u k t e h
fail_all_lem max lock u k t (s ∷ ts) e h =
    let k_plus : k + 1 + suc (length ts) ≡ k + suc (length (s ∷ ts)) = omega arith in
    ap (λ v. fail_all max lock v (s ∷ ts)) (one_more max lock u k t e (omega arith))
    ∙ (fail_all_lem max lock (after max lock u (k + 1) t) (k + 1) s ts refl (omega arith)
        ∙ (after-after max lock u (k + 1) (k + 1 + suc (length ts)) t (last s ts) (omega arith)
            ∙ ap (λ n. after max lock u n (last s ts)) k_plus))

-- The lockout starts exactly at the threshold: after a reset and a run of failed logins, the counter
-- is the length of the run, and the account has a lock if and only if the run is as long as the
-- limit, from the last failure on and for the lock duration. Nothing else of the user changes.
pub lockout_threshold :
    (max : ℤ) (lock : Duration) (u : User) (t : Time) (ts : List Time)
    → suc (length ts) ≤ max_int64
    → fail_all max lock (reset_failed_logins u) (t ∷ ts) ≡ record u {
      failed_login_attempts = pos (suc (length ts));
      locked_until = if leb_ℤ max (pos (suc (length ts))) then some (last t ts +ℤ lock) else none;
    }
unfolding reset_failed_logins
lockout_threshold max lock u t ts h =
    let plain : 0 + suc (length ts) ≡ suc (length ts) = omega arith in
    fail_all_lem max lock (reset_failed_logins u) 0 t ts refl (omega arith)
    ∙ ap (λ n. after max lock (reset_failed_logins u) n (last t ts)) plain

-- An expired lock leaves the counter where it was: the next failure alone locks the account again,
-- for as long as a run of failures did.
pub lockout_again :
    (max : ℤ) (lock : Duration) (u : User) (k : ℕ) (t now : Time)
    → u.failed_login_attempts ≡ pos k
    → max ≤ℤ pos k
    → k + 1 ≤ max_int64
    → now <ℤ t +ℤ lock
    → is_locked (record_failed_login u max lock t) now ≡ true
unfolding is_locked
lockout_again max lock u k t now e over fits before =
    rw (one_more max lock u k t e fits)
      (let hit : leb_ℤ max (pos (k + 1)) ≡ true = ground arith in rw hit (ground arith))
