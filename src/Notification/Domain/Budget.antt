-- ===== src/Notification/Domain/Budget.antt =====
-- The retry budget of modules/notification/domain/notification.go over any history of one row:
-- RecordFailure and RecoverStalled both spend an attempt, and nothing else does.
use kopiochi.Prelude.{
  ℕ, ℤ, pos, pos_part, ◌+◌, ◌≡◌, refl, ◌≢◌, ◌⊎◌, inl, inr, ◌≤ℤ◌, ◌<ℤ◌, +ℤ_parts, Bool, true, false,
  Option, none, List, [], ◌∷◌, arith, inc_lem, max_int64, All,
}
use kopiochi.Notification.Domain.Types.{
  Status, pending, sending, sent, failed, dead, DomainError, Notification,
}
use kopiochi.Notification.Domain.Outcome.{mark_sent, mark_dead, record_failure, recover_stalled}
use kopiochi.Notification.Domain.Lifecycle.{Call, fails, recovers, apply}

unfoldable pub run : Notification → List Call → Notification
run n [] = n
run n (c ∷ cs) = run (apply n c).0 cs

abbrev pub IsTerminal : Notification → Type 0
IsTerminal n = (n.status ≡ sent) ⊎ (n.status ≡ dead)

apply-IsTerminal : (n : Notification) (c : Call) → IsTerminal n → (apply n c).0 ≡ n
unfolding apply mark_sent mark_dead record_failure recover_stalled
apply-IsTerminal n c h = ground arith

-- A sent or dead row is final: no sequence of calls changes anything of it.
run-IsTerminal : (n : Notification) (cs : List Call) → IsTerminal n → run n cs ≡ n
unfolding run
run-IsTerminal n [] h = refl
run-IsTerminal n (c ∷ cs) h = ground (arith, apply-IsTerminal n c, run-IsTerminal n cs h)

-- The calls that settle a failure are made with this budget.
abbrev pub Spends : ℤ → Call → Type 0
Spends max (fails now after m reason) = m ≡ max
Spends max (recovers now after m) = m ≡ max
Spends max _ = Unit {0}

abbrev is_failure : Call → Bool
is_failure (fails now after m reason) = true
is_failure (recovers now after m) = true
is_failure _ = false

abbrev charge : Bool → Option DomainError → ℕ
charge true none = 1
charge _ _ = 0

-- How many failed deliveries and recoveries the row accepts along the calls.
unfoldable pub failures : Notification → List Call → ℕ
failures n [] = 0
failures n (c ∷ cs) = charge (is_failure c) (apply n c).1 + failures (apply n c).0 cs

-- What holds of a row whose failures are settled with the budget `max`.
pub record IsWithin (max : ℤ) (n : Notification) : Type 0 where
  pub nonneg : pos 0 ≤ℤ n.attempts
  pub capped : n.attempts ≤ℤ max
  pub live : (n.status ≡ pending) ⊎ (n.status ≡ sending) → n.attempts <ℤ max
  pub not_failed : n.status ≢ failed

Status-cases :
    (s : Status) → ((s ≡ pending) ⊎ (s ≡ sending)) ⊎ ((s ≡ failed) ⊎ ((s ≡ sent) ⊎ (s ≡ dead)))
Status-cases s = ground arith

module _ (max : ℤ) (at_least_one : pos 1 ≤ℤ max) (fits : max ≤ℤ pos max_int64) where
  apply-IsWithin :
      (n : Notification) (c : Call) → Spends max c → IsWithin max n → IsWithin max (apply n c).0
  unfolding apply mark_sent mark_dead record_failure recover_stalled
  apply-IsWithin n c s v = ground (arith, inc_lem n.attempts, +ℤ_parts n.attempts (pos 1))

  apply-charge :
      (n : Notification) (c : Call)
      → Spends max c
      → IsWithin max n
      → pos_part (apply n c).0.attempts ≡ pos_part n.attempts + charge (is_failure c) (apply n c).1
  unfolding apply mark_sent mark_dead record_failure recover_stalled
  apply-charge n c s v = ground (arith, inc_lem n.attempts, +ℤ_parts n.attempts (pos 1))

  run-IsWithin :
      (n : Notification) (cs : List Call)
      → All (Spends max) cs
      → IsWithin max n
      → IsWithin max (run n cs)
        × (pos_part (run n cs).attempts ≡ pos_part n.attempts + failures n cs)
  unfolding run failures
  run-IsWithin n [] h v = (v, omega arith)
  run-IsWithin n (c ∷ cs) h v =
      let rest = run-IsWithin (apply n c).0 cs h.1 (apply-IsWithin n c h.0 v) in
      (rest.0, omega (arith, rest.1, apply-charge n c h.0 v))

  within_spent :
      (n : Notification) (k : ℕ)
      → IsWithin max n
      → pos_part n.attempts ≡ k
      → IsTerminal n ⊎ (pos k <ℤ max)
  within_spent n k v e = elim (Status-cases n.status) [
    | inl open_ ↦ inr (ground (arith, v.live open_))
    | inr other ↦ elim other [ inl f ↦ absurd (v.not_failed f) | inr t ↦ inl t ]
  ]

  -- A new row, whatever is done to it, fails at most `max` times in all: `attempts` counts exactly
  -- the accepted failures, they are at most the budget, and once they reach it the row is sent or
  -- dead, so nothing retries it again.
  pub failures_bounded :
      (n : Notification) (cs : List Call)
      → n.status ≡ pending
      → n.attempts ≡ pos 0
      → All (Spends max) cs
      → (pos_part (run n cs).attempts ≡ failures n cs)
        × (pos (failures n cs) ≤ℤ max)
        × (IsTerminal (run n cs) ⊎ (pos (failures n cs) <ℤ max))
  failures_bounded n cs p a h =
      let start : IsWithin max n = ground arith in
      let (v, e) = run-IsWithin n cs h start in
      let spent : IsTerminal (run n cs) ⊎ (pos (failures n cs) <ℤ max) =
        within_spent (run n cs) (failures n cs) v (ground arith) in
      (ground arith, ground arith, spent)
