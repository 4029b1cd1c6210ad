-- ===== src/Notification/Application/Ports.antt =====
-- modules/notification/application/ports.go and dto.go, and the repository ports of
-- domain/repository.go: what the use cases call and do not implement. `W` is the state of the
-- world that the calls change. A call of a port that may run foreign code can panic.
use kopiochi.Prelude.{ℕ, ℤ, Bool, Option, List, Text}
use kopiochi.Notification.Domain.Types.{
  Uuid, Time, Duration, Channel, Category, Status, Payload, Notification, RenderedMessage, Result,
}
use kopiochi.Notification.Repository.Mailbox.{ListFilter}
use kopiochi.Notification.Domain.Preference.{Preference}
use kopiochi.Notification.Domain.Backoff.{Floats}

-- A call that returns, or that panics with a value.
pub data Outcome {ℓ} (A : Type ℓ) : Type ℓ where
  returns : A → Outcome A
  panics : Text → Outcome A

-- The error of a port: whether errors.Is finds ErrNonRetryable, ErrDuplicateIdempotencyKey or
-- ErrNotFound in it.
pub record Fault : Type 0 where
  pub missing : Bool
  pub non_retryable : Bool
  pub duplicate : Bool
  pub text : Text

-- The failure of a delivery, a constructor for each place that makes one; the last is the error
-- that settleSafely wraps in ErrPanicked.
pub data Failure : Type 0 where
  delivery_panicked : Text → Failure
  no_sender : Channel → Failure
  render_failed : Text → Channel → Fault → Failure
  send_failed : Channel → Fault → Failure
  settling_panicked : Text → Failure

-- EnqueueRequest
pub record EnqueueRequest : Type 0 where
  pub recipient_id : Uuid
  pub channel : Channel
  pub category : Category
  pub template_key : Text
  pub payload : Option Payload
  pub idempotency_key : Text

-- PreferenceView and PreferenceUpdate, which have the same fields.
pub record PreferenceView : Type 0 where
  pub channel : Channel
  pub category : Category
  pub enabled : Bool

-- NotificationView
pub record NotificationView : Type 0 where
  pub id : Uuid
  pub category : Category
  pub template_key : Text
  pub payload : Option Payload
  pub created_at : Time
  pub read_at : Option Time

-- DispatchConfig
pub record DispatchConfig : Type 0 where
  pub batch_size : ℤ
  pub max_attempts : ℤ
  pub backoff_base : Duration
  pub backoff_cap : Duration

abbrev pub Sender : Type 0 → Type 0
Sender W = W → RenderedMessage → W × Outcome (Option Fault)

abbrev pub Observer : Type 0 → Type 0
Observer W = W → Notification → Status → Duration → Option Failure → W × Outcome (Unit {0})

-- The ports, and `error_text` for the text that fmt makes of an error. A nil sender table entry,
-- observer or jitter source is `none`.
pub record Ports (W : Type 0) (fl : Floats) : Type 0 where
  pub now : W → W × Time
  pub new_uuid : W → W × Uuid
  pub enqueue : W → Notification → W × Result (Unit {0}) Fault
  pub claim_batch : W → ℤ → Time → W × Result (List (Option Notification)) Fault
  pub claim_stalled : W → ℤ → Time → Time → W × Result (List (Option Notification)) Fault
  pub save : W → Notification → W × Outcome (Result (Unit {0}) Fault)
  pub list_for_recipient : W → Uuid → ListFilter → W × Result (List Notification) Fault
  pub mark_read : W → Uuid → Uuid → Time → W × Result (Unit {0}) Fault
  pub mark_all_read : W → Uuid → Time → W × Result ℕ Fault
  pub list_preferences : W → Uuid → W × Result (List Preference) Fault
  pub upsert : W → List Preference → W × Result (Unit {0}) Fault
  pub render : Text → Channel → Option Payload → Outcome (Result RenderedMessage Fault)
  pub senders : Channel → Option (Sender W)
  pub observer : Option (Observer W)
  pub jitter : Option (W → W × Floats.Float fl)
  pub error_text : Failure → Text
