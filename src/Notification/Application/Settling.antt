-- ===== src/Notification/Application/Settling.antt =====
-- The end of a delivery in modules/notification/application/dispatch.go: which outcome a claimed row
-- gets, and when it is tried again.
use kopiochi.Prelude.{
  pos, ◌≡◌, ◌≢◌, ◌⊎◌, ◌+ℤ◌, ◌≤ℤ◌, ◌<ℤ◌, Bool, true, false, Option, none, some, inc, max_int64,
  arith,
}
use kopiochi.Notification.Domain.Types.{Time, pending, sending, sent, dead, Notification}
use kopiochi.Notification.Domain.Outcome.{mark_sent, mark_dead, record_failure}
use kopiochi.Notification.Domain.Backoff.{Floats, backoff_with_jitter}
use kopiochi.Notification.Domain.Schedule.{delay, backoff_lem}
use kopiochi.Notification.Application.Ports.{Failure, DispatchConfig, Ports}
use kopiochi.Notification.Application.Dispatch.{settle_outcome}

module _ {W : Type 0} {fl : Floats} (ports : Ports W fl) (cfg : DispatchConfig) where
  -- The three ends of a delivery of a claimed row: sent if it did not fail, dead at once if no
  -- retry can help, and otherwise charged one attempt and then dead or pending again.
  pub settle_outcome_lem :
      (w : W) (n : Notification) (now : Time) (worth : Bool) (failure : Option Failure)
      → n.status ≡ sending
      → let m = (settle_outcome ports cfg w n now worth failure).1.0 in
        ((settle_outcome ports cfg w n now worth failure).1.1 ≡ none)
        × (m.id ≡ n.id)
        × (((failure ≡ none)
              × (m.status ≡ sent)
              × (m.sent_at ≡ some now)
              × (m.attempts ≡ n.attempts))
            ⊎ ((worth ≡ false)
                × (m.status ≡ dead)
                × (m.sent_at ≡ n.sent_at)
                × (m.attempts ≡ n.attempts))
            ⊎ ((worth ≡ true)
                × (m.status ≡ dead)
                × (m.attempts ≡ inc n.attempts)
                × (cfg.max_attempts ≤ℤ m.attempts))
            ⊎ ((worth ≡ true)
                × (m.status ≡ pending)
                × (m.attempts ≡ inc n.attempts)
                × (m.attempts <ℤ cfg.max_attempts)))
  unfolding settle_outcome mark_sent mark_dead record_failure
  settle_outcome_lem w n now worth none h = ground arith
  settle_outcome_lem w n now false (some e) h = ground arith
  settle_outcome_lem w n now true (some e) h = ground arith

  pub settle_outcome-ne-sending :
      (w : W) (n : Notification) (now : Time) (worth : Bool) (failure : Option Failure)
      → n.status ≡ sending
      → (settle_outcome ports cfg w n now worth failure).1.0.status ≢ sending
  settle_outcome-ne-sending w n now worth failure h e =
      ground (arith, settle_outcome_lem w n now worth failure h)

  -- Without a jitter source, a row that goes back to pending waits for the delay of its failures so
  -- far, so the first failure waits the base and not twice the base.
  pub settle_outcome-delay :
      (w : W) (n : Notification) (now : Time) (e : Failure)
      → n.status ≡ sending
      → ports.jitter ≡ none
      → cfg.backoff_base ≤ℤ pos max_int64
      → cfg.backoff_cap ≤ℤ pos max_int64
      → inc n.attempts <ℤ cfg.max_attempts
      → (settle_outcome ports cfg w n now true (some e)).1.0.next_attempt_at
        ≡ now +ℤ pos (delay n.attempts cfg.backoff_base cfg.backoff_cap)
  unfolding settle_outcome record_failure backoff_with_jitter
  settle_outcome-delay w n now e h j b c more =
      ground (arith, backoff_lem n.attempts cfg.backoff_base cfg.backoff_cap)
