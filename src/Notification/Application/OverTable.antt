-- ===== src/Notification/Application/OverTable.antt =====
-- Ports that stand on the outbox table, and what of a cycle of modules/notification/application/
-- dispatch.go leaves that table alone.
use kopiochi.Prelude.{◌≡◌, refl, Bool, true, false, Option, none, some, arith}
use kopiochi.Notification.Domain.Types.{
  Time, Duration, Channel, Status, Notification, RenderedMessage, ok, err,
}
use kopiochi.Notification.Domain.Backoff.{Floats}
use kopiochi.Notification.Repository.Outbox.{Table, save}
use kopiochi.Notification.Application.Ports.{
  returns, panics, Failure, DispatchConfig, Sender, Observer, Ports,
}
use kopiochi.Notification.Application.Dispatch.{
  routed, deliver_by, send_rendered, attempt_delivery, draw, settle_outcome, observe,
}

-- The ports stand on a table that Save writes, as the repository does when the database answers,
-- and that the clock, the senders, the jitter and the observer leave alone.
pub record OverTable {W : Type 0} {fl : Floats} (ports : Ports W fl) (table : W → Table)
    : Type 0 where
  pub now_keeps : (w : W) → table (ports.now w).0 ≡ table w
  pub send_keeps :
      (ch : Channel) (s : Sender W)
      → ports.senders ch ≡ some s
      → (w : W) (msg : RenderedMessage) → table (s w msg).0 ≡ table w
  pub jitter_keeps :
      (src : W → W × Floats.Float fl)
      → ports.jitter ≡ some src
      → (w : W) → table (src w).0 ≡ table w
  pub observer_keeps :
      (o : Observer W)
      → ports.observer ≡ some o
      → (w : W) (n : Notification) (s : Status) (took : Duration) (e : Option Failure)
      → table (o w n s took e).0 ≡ table w
  pub save_writes :
      (w : W) (n : Notification) → table (ports.save w n).0 ≡ (save none (some n) (table w)).0

-- The observer keeps its contract: it does not panic.
abbrev pub IsQuiet : {W : Type 0} → Option (Observer W) → Type 0
IsQuiet none = Unit {0}
IsQuiet {W} (some o) =
    (w : W) (n : Notification) (s : Status) (took : Duration) (e : Option Failure)
    → (o w n s took e).1 ≡ returns tt

module _ {W : Type 0} {fl : Floats} (ports : Ports W fl) (cfg : DispatchConfig) (table : W → Table)
    (over : OverTable ports table) where
  pub sender_keeps :
      (n : Notification) (s : Option (Sender W)) (w : W)
      → ports.senders n.channel ≡ s
      → table (deliver_by ports cfg s w n).0 ≡ table w
  sender_keeps n none w e = refl
  sender_keeps n (some s) w e =
      elim (ports.render n.template_key n.channel n.payload)
        as (λ r. table (send_rendered ports cfg s w n r).0 ≡ table w) [
          | panics v ↦ refl
          | returns (err f) ↦ refl
          | returns (ok msg) ↦ over.send_keeps n.channel s e w (routed n msg)
        ]

  pub attempt_delivery_keeps :
      (w : W) (n : Notification) → table (attempt_delivery ports cfg w n).0 ≡ table w
  unfolding attempt_delivery
  attempt_delivery_keeps w n = sender_keeps n (ports.senders n.channel) w refl

  pub draw_keeps :
      (src : Option (W → W × Floats.Float fl)) (w : W)
      → ports.jitter ≡ src
      → table (draw ports cfg src w).0 ≡ table w
  draw_keeps none w e = refl
  draw_keeps (some src) w e = over.jitter_keeps src e w

  pub settle_outcome_keeps :
      (w : W) (n : Notification) (now : Time) (worth : Bool) (failure : Option Failure)
      → table (settle_outcome ports cfg w n now worth failure).0 ≡ table w
  unfolding settle_outcome
  settle_outcome_keeps w n now worth none = refl
  settle_outcome_keeps w n now false (some e) = refl
  settle_outcome_keeps w n now true (some e) = ground (arith, draw_keeps ports.jitter w refl)

  pub observe_keeps :
      (w : W) (n : Notification) (took : Duration) (e : Option Failure)
      → table (observe ports cfg w n took e).0 ≡ table w
  unfolding observe
  observe_keeps w n took e = go ports.observer refl
    where
      go :
          (o : Option (Observer W))
          → ports.observer ≡ o
          → table (observe ports cfg w n took e).0 ≡ table w
      go none h = rw (h, observe)
      go (some o) h = rw (h, observe) (over.observer_keeps o h w n n.status took e)
