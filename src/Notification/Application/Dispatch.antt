-- ===== src/Notification/Application/Dispatch.antt =====
-- modules/notification/application/dispatch.go: one dispatch cycle. The entity that a cycle works
-- on is a pointer, so a function that writes it returns it as it stands, also when it panics.
use kopiochi.Prelude.{
  ℕ, pos, ◌-ℤ◌, Bool, true, false, not, Option, none, some, List, [], ◌∷◌, Text, leb_ℤ,
  if◌then◌else◌, length,
}
use kopiochi.Notification.Domain.Types.{
  Uuid, Time, Duration, Channel, DomainError, Notification, RenderedMessage, Result, ok, err,
}
use kopiochi.Notification.Domain.Outcome.{mark_sent, mark_dead, record_failure}
use kopiochi.Notification.Domain.Backoff.{Floats, backoff, backoff_with_jitter}
use kopiochi.Notification.Application.Ports.{
  Outcome, returns, panics, Fault, Failure, delivery_panicked, no_sender, render_failed,
  send_failed, settling_panicked, DispatchConfig, Sender, Ports,
}

-- What a cycle reports of one row, or of the claim.
pub data CycleError : Type 0 where
  claim_failed : Fault → CycleError
  nil_claimed : CycleError
  refused : Uuid → DomainError → CycleError
  save_failed : Uuid → Fault → CycleError
  row_panicked : Uuid → Text → CycleError

-- retryable
abbrev pub retryable : Fault → Bool
retryable f = not f.non_retryable

-- `msg.NotificationID = n.ID` and the two lines after it.
abbrev pub routed : Notification → RenderedMessage → RenderedMessage
routed n msg = record msg {
  notification_id = n.id;
  recipient_id = n.recipient_id;
  channel = n.channel;
}

module _ {W : Type 0} {fl : Floats} (ports : Ports W fl) (cfg : DispatchConfig) where
  -- The end of attemptDelivery, from the sender's answer.
  abbrev pub sent_outcome : Channel → Outcome (Option Fault) → Bool × Option Failure
  sent_outcome ch (panics v) = (true, some (delivery_panicked v))
  sent_outcome ch (returns (some f)) = (retryable f, some (send_failed ch f))
  sent_outcome ch (returns none) = (false, none)

  abbrev pub send_rendered :
      Sender W
      → W
      → Notification
      → Outcome (Result RenderedMessage Fault)
      → W × Bool × Option Failure
  send_rendered sender w n (panics v) = (w, true, some (delivery_panicked v))
  send_rendered sender w n (returns (err f)) =
      (w, false, some (render_failed n.template_key n.channel f))
  send_rendered sender w n (returns (ok msg)) =
      let (w', answer) = sender w (routed n msg) in
      (w', (sent_outcome n.channel answer).0, (sent_outcome n.channel answer).1)

  abbrev pub deliver_by : Option (Sender W) → W → Notification → W × Bool × Option Failure
  deliver_by none w n = (w, false, some (no_sender n.channel))
  deliver_by (some sender) w n =
      send_rendered sender w n (ports.render n.template_key n.channel n.payload)

  -- attemptDelivery, its recover included: the world, whether a retry can help, and the failure.
  unfoldable pub attempt_delivery : W → Notification → W × Bool × Option Failure
  attempt_delivery w n = deliver_by (ports.senders n.channel) w n

  -- The source's next float. BackoffWithJitter asks for none if there is no source or no delay.
  abbrev pub draw : Option (W → W × Floats.Float fl) → W → W × Option (Floats.Float fl)
  draw none w = (w, none)
  draw (some source) w = let (w', f) = source w in (w', some f)

  -- The switch of settle.
  unfoldable pub settle_outcome :
      W → Notification → Time → Bool → Option Failure → W × (Notification × Option DomainError)
  settle_outcome w n now worth none = (w, mark_sent n now)
  settle_outcome w n now false (some e) = (w, mark_dead n (ports.error_text e))
  settle_outcome w n now true (some e) =
      let d = backoff n.attempts cfg.backoff_base cfg.backoff_cap in
      let (w', f) = if leb_ℤ d (pos 0) then (w, none) else draw ports.jitter w in
      let retry_after = backoff_with_jitter fl n.attempts cfg.backoff_base cfg.backoff_cap f in
      (w', record_failure n now retry_after cfg.max_attempts (ports.error_text e))

  -- observe
  unfoldable pub observe : W → Notification → Duration → Option Failure → W × Outcome (Unit {0})
  observe w n took e = elim ports.observer [
    | none ↦ (w, returns tt)
    | some settled ↦ settled w n n.status took e
  ]

  abbrev pub Settling : Type 0
  Settling = W × Notification × Outcome (Option CycleError)

  abbrev pub after_observe : Outcome (Unit {0}) → Outcome (Option CycleError)
  after_observe (panics v) = panics v
  after_observe (returns seen) = returns none

  -- settle after its Save.
  abbrev pub after_save :
      W × Outcome (Result (Unit {0}) Fault) → Notification → Duration → Option Failure → Settling
  after_save (w, panics v) n took failure = (w, n, panics v)
  after_save (w, returns (err f)) n took failure = (w, n, returns (some (save_failed n.id f)))
  after_save (w, returns (ok done)) n took failure =
      let (w', seen) = observe w n took failure in (w', n, after_observe seen)

  abbrev pub after_outcome :
      W × (Notification × Option DomainError) → Duration → Option Failure → Settling
  after_outcome (w, (n, some e)) took failure = (w, n, returns (some (refused n.id e)))
  after_outcome (w, (n, none)) took failure = after_save (ports.save w n) n took failure

  -- settle: the world, the row as it stands, and the error, or the panic of a port.
  unfoldable pub settle : W → Notification → W × Notification × Outcome (Option CycleError)
  unfolding attempt_delivery settle_outcome observe
  settle w n =
      let (w₁, started) = ports.now w in
      let (w₂, worth, failure) = attempt_delivery w₁ n in
      let (w₃, now) = ports.now w₂ in
      after_outcome (settle_outcome w₃ n now worth failure) (now -ℤ started) failure

  -- The deferred function of settleSafely: a panic is reported to the observer. A panic of the
  -- observer in there is not recovered.
  abbrev pub after_panic : Uuid → Text → W × Outcome (Unit {0}) → W × Outcome (Option CycleError)
  after_panic id v (w, panics u) = (w, panics u)
  after_panic id v (w, returns seen) = (w, returns (some (row_panicked id v)))

  abbrev pub recovering :
      W × Notification × Outcome (Option CycleError) → W × Outcome (Option CycleError)
  recovering (w, n, returns e) = (w, returns e)
  recovering (w, n, panics v) =
      after_panic n.id v (observe w n (pos 0) (some (settling_panicked v)))

  -- settleSafely
  unfoldable pub settle_safely : W → Notification → W × Outcome (Option CycleError)
  unfolding settle observe
  settle_safely w n = recovering (settle w n)

  abbrev pub with_error : Option CycleError → Outcome (List CycleError) → Outcome (List CycleError)
  with_error none rest = rest
  with_error (some e) (returns es) = returns (e ∷ es)
  with_error (some e) (panics v) = panics v

  -- The loop of DispatchBatch; a panic that gets out of settleSafely ends it.
  unfoldable pub settle_all : W → List (Option Notification) → W × Outcome (List CycleError)
  unfolding settle_safely
  settle_all w [] = (w, returns [])
  settle_all w (none ∷ ns) =
      let (w', es) = settle_all w ns in (w', with_error (some nil_claimed) es)
  settle_all w (some n ∷ ns) =
      let (w', answer) = settle_safely w n in
      let rest = settle_all w' ns in
      elim answer [ panics v ↦ (w', panics v) | returns e ↦ (rest.0, with_error e rest.1) ]

  abbrev pub counted : ℕ → Outcome (List CycleError) → Outcome (ℕ × List CycleError)
  counted k (panics v) = panics v
  counted k (returns es) = returns (k, es)

  abbrev pub after_claim :
      W × Result (List (Option Notification)) Fault → W × Outcome (ℕ × List CycleError)
  after_claim (w, err f) = (w, returns (0, claim_failed f ∷ []))
  after_claim (w, ok ns) = let (w', es) = settle_all w ns in (w', counted (length ns) es)

  -- DispatchBatch: how many rows it claimed, and the errors that it joins.
  unfoldable pub dispatch_batch : W → W × Outcome (ℕ × List CycleError)
  unfolding settle_all
  dispatch_batch w =
      let (w', now) = ports.now w in after_claim (ports.claim_batch w' cfg.batch_size now)
