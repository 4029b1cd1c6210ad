-- ===== src/Notification/Domain/Lifecycle.antt =====
-- What the state changes of modules/notification/domain/notification.go do to a row: branch by
-- branch, along the diagram, and over any sequence of them.
use kopiochi.Prelude.{ℤ, ◌≡◌, Option, some, Text, arith}
use kopiochi.Notification.Domain.Types.{Time, Duration, Status, sending, DomainError, Notification}
use kopiochi.Notification.Domain.Transition.{
  ◌⟶◌, claim, deliver, fail, give_up, recover, retry, exhaust, transition_to,
}
use kopiochi.Notification.Domain.Outcome.{mark_sent, mark_dead, record_failure, recover_stalled}

-- The calls that the package exports, and the claim, which the repository makes.
pub data Call : Type 0 where
  claims : Call
  sends : Time → Call
  kills : Text → Call
  fails : Time → Duration → ℤ → Text → Call
  recovers : Time → Duration → ℤ → Call

unfoldable pub apply : Notification → Call → Notification × Option DomainError
unfolding transition_to
apply n claims = transition_to n sending
apply n (sends now) = mark_sent n now
apply n (kills reason) = mark_dead n reason
apply n (fails now after max reason) = record_failure n now after max reason
apply n (recovers now after max) = recover_stalled n now after max

infix 40 ◌⟶*◌
pub data ◌⟶*◌ : Status → Status → Type 0 where
  here : {s : Status} → s ⟶* s
  then : {s t u : Status} → s ⟶ t → t ⟶* u → s ⟶* u

-- A call that is refused, by whatever method and in whatever status, leaves the row as it was.
pub apply_refused_unchanged :
    (n : Notification) (c : Call) {e : DomainError} → (apply n c).1 ≡ some e → (apply n c).0 ≡ n
unfolding apply mark_sent mark_dead record_failure recover_stalled
apply_refused_unchanged n c h = ground arith

one : {s t : Status} → s ⟶ t → s ⟶* t
one a = then a here

-- Every call moves the row along arrows of the diagram, or not at all.
pub apply-⟶* : (n : Notification) (c : Call) → n.status ⟶* (apply n c).0.status
unfolding apply mark_sent mark_dead record_failure recover_stalled
apply-⟶* n c = ground (
  arith,
  one claim,
  one deliver,
  one give_up,
  one exhaust,
  one recover,
  then fail (one retry),
  then fail (one exhaust),
  here {s = n.status},
)
