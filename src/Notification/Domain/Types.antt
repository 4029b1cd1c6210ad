-- ===== src/Notification/Domain/Types.antt =====
-- modules/notification/domain/notification.go, errors.go and message.go: channels, categories,
-- statuses, the sentinel errors, the outbox row and its constructor.
--
-- A Go `Channel` or `Category` is any string; `unknown_channel s` is a string that is none of the
-- three constants. A status has the five values that the table's CHECK constraint admits. A uuid
-- is a number, and uuid.Nil is 0. Instants and durations are nanoseconds, instants from the epoch.
-- A payload value is never looked into by the module, and is carried as its encoded text.
use kopiochi.Prelude.{
  ℕ, ℤ, pos, ◌≡◌, Bool, true, false, not, Option, none, some, List, [], ◌∷◌, Text, is_empty, ◌==◌,
  if◌then◌else◌, text_eq, text_eq_refl, text_eq→eq, ap, refl,
}

abbrev pub Uuid : Type 0
Uuid = ℕ

abbrev pub Time : Type 0
Time = ℤ

abbrev pub Duration : Type 0
Duration = ℤ

pub data Channel : Type 0 where
  email inapp webhook : Channel
  unknown_channel : Text → Channel

pub data Category : Type 0 where
  security account system : Category
  unknown_category : Text → Category

pub data Status : Type 0 where
  pending sending sent failed dead : Status

-- `==` on the three string types.
abbrev pub same_channel : Channel → Channel → Bool
same_channel email email = true
same_channel inapp inapp = true
same_channel webhook webhook = true
same_channel (unknown_channel s) (unknown_channel t) = text_eq s t
same_channel _ _ = false

abbrev pub same_category : Category → Category → Bool
same_category security security = true
same_category account account = true
same_category system system = true
same_category (unknown_category s) (unknown_category t) = text_eq s t
same_category _ _ = false

abbrev pub same_status : Status → Status → Bool
same_status pending pending = true
same_status sending sending = true
same_status sent sent = true
same_status failed failed = true
same_status dead dead = true
same_status _ _ = false

pub same_channel_refl : (c : Channel) → same_channel c c ≡ true
same_channel_refl (unknown_channel s) = text_eq_refl s
same_channel_refl _ = refl

pub same_category_refl : (c : Category) → same_category c c ≡ true
same_category_refl (unknown_category s) = text_eq_refl s
same_category_refl _ = refl

pub same_channel→eq : (c d : Channel) → same_channel c d ≡ true → c ≡ d
same_channel→eq email email h = refl
same_channel→eq inapp inapp h = refl
same_channel→eq webhook webhook h = refl
same_channel→eq (unknown_channel s) (unknown_channel t) h = ap unknown_channel (text_eq→eq s t h)
same_channel→eq _ _ h = cc

pub same_category→eq : (c d : Category) → same_category c d ≡ true → c ≡ d
same_category→eq security security h = refl
same_category→eq account account h = refl
same_category→eq system system h = refl
same_category→eq (unknown_category s) (unknown_category t) h =
    ap unknown_category (text_eq→eq s t h)
same_category→eq _ _ h = cc

-- Channels()
abbrev pub channels : List Channel
channels = email ∷ inapp ∷ webhook ∷ []

-- Channel.Valid()
abbrev pub valid_channel : Channel → Bool
valid_channel (unknown_channel s) = false
valid_channel _ = true

-- Categories()
abbrev pub categories : List Category
categories = security ∷ account ∷ system ∷ []

-- Category.Valid()
abbrev pub valid_category : Category → Bool
valid_category (unknown_category s) = false
valid_category _ = true

-- The sentinels of errors.go, less ErrNonRetryable, which marks a delivery failure.
pub data DomainError : Type 0 where
  not_found invalid_transition duplicate_idempotency_key : DomainError
  invalid_notification invalid_preference preference_protected : DomainError

abbrev pub Payload : Type 0
Payload = List (Text × Text)

-- A nil map is `none`. `read_at` and `sent_at` are pointers.
pub record Notification : Type 0 where
  pub id : Uuid
  pub recipient_id : Uuid
  pub channel : Channel
  pub category : Category
  pub template_key : Text
  pub payload : Option Payload
  pub status : Status
  pub attempts : ℤ  -- int
  pub next_attempt_at : Time
  pub idempotency_key : Text
  pub read_at : Option Time
  pub last_error : Text
  pub created_at : Time
  pub sent_at : Option Time

pub record NewNotificationParams : Type 0 where
  pub id : Uuid
  pub recipient_id : Uuid
  pub channel : Channel
  pub category : Category
  pub template_key : Text
  pub payload : Option Payload
  pub idempotency_key : Text

-- A pointer result with an error: one of the two.
pub data Result {ℓ} (A : Type ℓ) (E : Type 0) : Type ℓ where
  ok : A → Result A E
  err : E → Result A E

-- `if payload == nil { payload = map[string]any{} }`
abbrev pub or_empty_map : Option Payload → Option Payload
or_empty_map none = some []
or_empty_map (some m) = some m

abbrev pub pending_row : NewNotificationParams → Time → Notification
pending_row p now = record {
  id = p.id;
  recipient_id = p.recipient_id;
  channel = p.channel;
  category = p.category;
  template_key = p.template_key;
  payload = or_empty_map p.payload;
  status = pending;
  attempts = pos 0;
  next_attempt_at = now;
  idempotency_key = p.idempotency_key;
  read_at = none;
  last_error = [];
  created_at = now;
  sent_at = none;
}

-- NewNotification, its guards in the source's order.
unfoldable pub new_notification : NewNotificationParams → Time → Result Notification DomainError
new_notification p now =
    if p.id == 0
    then err invalid_notification
    else if p.recipient_id == 0
    then err invalid_notification
    else if not (valid_channel p.channel)
    then err invalid_notification
    else if not (valid_category p.category)
    then err invalid_notification
    else if is_empty p.template_key
    then err invalid_notification
    else ok (pending_row p now)

-- message.go
pub record RenderedMessage : Type 0 where
  pub notification_id : Uuid
  pub recipient_id : Uuid
  pub channel : Channel
  pub subject : Text
  pub body : Text
  pub html_body : Text
