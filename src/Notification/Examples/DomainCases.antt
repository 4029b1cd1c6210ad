-- ===== src/Notification/Examples/DomainCases.antt =====
-- The theorems on the entity of modules/notification/domain at concrete rows, and tests.
use kopiochi.Prelude.{
  ℕ, zero, suc, pos, pos_part, ◌≤◌, ◌≡◌, refl, ◌⊎◌, inr, ◌+ℤ◌, ◌≤ℤ◌, ◌<ℤ◌, true, List, [], ◌∷◌,
  ◌++◌, Text, codes, take, length, arith, wrap64,
}
use kopiochi.Notification.Domain.Types.{dead}
use kopiochi.Notification.Domain.Transition.{transition_to}
use kopiochi.Notification.Domain.Truncate.{truncate_reason, valid_string, valid_from}
use kopiochi.Notification.Domain.Reason.{truncate_reason_invalid}
use kopiochi.Notification.Domain.Outcome.{record_failure, recover_stalled}
use kopiochi.Notification.Domain.Lifecycle.{Call, claims, fails, recovers, apply}
use kopiochi.Notification.Domain.Budget.{run, failures, failures_bounded, IsTerminal}
use kopiochi.Notification.Domain.Backoff.{backoff}
use kopiochi.Notification.Domain.Schedule.{delay, backoff_lem}
use kopiochi.Notification.Examples.World.{first_row}

-- Two failures and a stall with a budget of three.
abbrev three_failures : List Call
three_failures =
    claims
    ∷ fails (pos 10) (pos 5) (pos 3) (codes "451")
    ∷ claims
    ∷ recovers (pos 30) (pos 10) (pos 3)
    ∷ claims
    ∷ fails (pos 50) (pos 20) (pos 3) (codes "451")
    ∷ []

three_failures_die : (run first_row three_failures).status ≡ dead
unfolding run apply record_failure recover_stalled transition_to ◌+ℤ◌ wrap64
three_failures_die = refl

failures_bounded_example :
    (pos_part (run first_row three_failures).attempts ≡ failures first_row three_failures)
    × (pos (failures first_row three_failures) ≤ℤ pos 3)
    × (IsTerminal (run first_row three_failures)
        ⊎ (pos (failures first_row three_failures) <ℤ pos 3))
failures_bounded_example =
    failures_bounded (pos 3) (omega arith) (omega arith) first_row three_failures refl refl
      (tt, (refl, (tt, (refl, (tt, (refl, tt))))))

-- A second after the first failure, two after the next; an hour at most.
backoff_lem_example :
    backoff (pos 3) (pos 1000000000) (pos 3600000000000)
    ≡ pos (delay (pos 3) (pos 1000000000) (pos 3600000000000))
backoff_lem_example =
    backoff_lem (pos 3) (pos 1000000000) (pos 3600000000000) (omega arith) (omega arith)

-- "a", then the two bytes of U+00E9.
abbrev accented : Text
accented = 97 ∷ 0xC3 ∷ 0xA9 ∷ []

accented_valid : valid_string accented ≡ true
unfolding valid_string valid_from
accented_valid = refl

-- 600 times the letter "a".
abbrev long_text : ℕ → Text
long_text zero = []
long_text (suc n) = 97 ∷ long_text n

long_text-length : (n : ℕ) → length (long_text n) ≡ n
long_text-length zero = refl
long_text-length (suc n) = let h = long_text-length n in omega arith

truncate_reason_invalid_example :
    (k : ℕ) × (k ≤ 1)
    × (truncate_reason ((97 ∷ []) ++ 0xFF ∷ long_text 600)
        ≡ take k ((97 ∷ []) ++ 0xFF ∷ long_text 600))
truncate_reason_invalid_example =
    truncate_reason_invalid (97 ∷ []) (long_text 600) 0xFF (inr (inr (omega arith)))
      (let h = long_text-length 600 in omega arith)
