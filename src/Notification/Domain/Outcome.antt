-- ===== src/Notification/Domain/Outcome.antt =====
-- modules/notification/domain/notification.go: the four exported state changes. A method that
-- writes through its receiver returns the row as the call leaves it, and the error.
use kopiochi.Prelude.{ℤ, ◌+ℤ◌, not, Option, none, some, [], Text, codes, inc, leb_ℤ, if◌then◌else◌}
use kopiochi.Notification.Domain.Types.{
  Time, Duration, Status, pending, sending, sent, failed, dead, same_status, DomainError,
  invalid_transition, Notification,
}
use kopiochi.Notification.Domain.Transition.{transition_to}
use kopiochi.Notification.Domain.Truncate.{truncate_reason}

-- `if err := n.transitionTo(...); err != nil { return err }`, and then the rest of the method.
abbrev then_ :
    Notification × Option DomainError
    → (Notification → Notification × Option DomainError)
    → Notification × Option DomainError
then_ (n, some e) rest = (n, some e)
then_ (n, none) rest = rest n

-- `_ = n.transitionTo(...)`: the error is dropped.
abbrev moved_to : Notification → Status → Notification
moved_to n next = (transition_to n next).0

-- MarkSent
unfoldable pub mark_sent : Notification → Time → Notification × Option DomainError
unfolding transition_to
mark_sent n now =
    then_ (transition_to n sent) (λ m. (record m { sent_at = some now; last_error = [] }, none))

-- MarkDead
unfoldable pub mark_dead : Notification → Text → Notification × Option DomainError
unfolding transition_to
mark_dead n reason =
    then_ (transition_to n dead) (λ m. (record m { last_error = truncate_reason reason }, none))

-- The end that RecordFailure and RecoverStalled share: out of budget, or another attempt.
unfoldable pub reschedule : Notification → Time → Duration → ℤ → Notification
unfolding transition_to
reschedule n now retry_after max_attempts =
    if leb_ℤ max_attempts n.attempts
    then moved_to n dead
    else record (moved_to n pending) { next_attempt_at = now +ℤ retry_after }

-- RecordFailure
unfoldable pub record_failure :
    Notification → Time → Duration → ℤ → Text → Notification × Option DomainError
unfolding transition_to reschedule
record_failure n now retry_after max_attempts reason = then_ (transition_to n failed) (λ m.
    let charged : Notification = record m {
      attempts = inc m.attempts;
      last_error = truncate_reason reason;
    } in
    (reschedule charged now retry_after max_attempts, none))

-- The reason that RecoverStalled writes.
abbrev pub stalled_reason : Text
stalled_reason = codes "delivery stalled: claimed but never settled"

-- RecoverStalled
unfoldable pub recover_stalled :
    Notification → Time → Duration → ℤ → Notification × Option DomainError
unfolding reschedule
recover_stalled n now retry_after max_attempts =
    if not (same_status n.status sending)
    then (n, some invalid_transition)
    else let charged : Notification = record n {
      attempts = inc n.attempts;
      last_error = stalled_reason;
    } in
      (reschedule charged now retry_after max_attempts, none)
