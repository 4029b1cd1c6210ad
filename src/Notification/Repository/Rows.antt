-- ===== src/Notification/Repository/Rows.antt =====
-- modules/notification/infrastructure/persistence: the row structs of models/notification.go, and
-- the mapping between entity and row of repository/notification_repo.go.
use kopiochi.Prelude.{ℤ, ◌≡◌, refl, Option, none, some, [], ◌∷◌, Text, arith}
use kopiochi.Notification.Domain.Types.{
  Uuid, Time, Channel, Category, Status, Payload, Notification, or_empty_map,
}

-- NotificationRow: a nullable column is an `Option`.
pub record NotificationRow : Type 0 where
  pub id : Uuid
  pub recipient_id : Uuid
  pub channel : Channel
  pub category : Category
  pub template_key : Text
  pub payload : Option Payload
  pub status : Status
  pub attempts : ℤ
  pub next_attempt_at : Time
  pub idempotency_key : Option Text
  pub read_at : Option Time
  pub last_error : Option Text
  pub created_at : Time
  pub claimed_at : Option Time
  pub sent_at : Option Time

-- nullString
abbrev pub null_string : Text → Option Text
null_string [] = none
null_string (b ∷ s) = some (b ∷ s)

-- stringValue
abbrev pub string_value : Option Text → Text
string_value none = []
string_value (some s) = s

-- toNotificationRow
unfoldable pub to_notification_row : Notification → NotificationRow
to_notification_row n = record {
  id = n.id;
  recipient_id = n.recipient_id;
  channel = n.channel;
  category = n.category;
  template_key = n.template_key;
  payload = or_empty_map n.payload;
  status = n.status;
  attempts = n.attempts;
  next_attempt_at = n.next_attempt_at;
  idempotency_key = null_string n.idempotency_key;
  read_at = n.read_at;
  last_error = null_string n.last_error;
  created_at = n.created_at;
  claimed_at = none;
  sent_at = n.sent_at;
}

-- fromNotificationRow
unfoldable pub from_notification_row : NotificationRow → Notification
from_notification_row r = record {
  id = r.id;
  recipient_id = r.recipient_id;
  channel = r.channel;
  category = r.category;
  template_key = r.template_key;
  payload = or_empty_map r.payload;
  status = r.status;
  attempts = r.attempts;
  next_attempt_at = r.next_attempt_at;
  idempotency_key = string_value r.idempotency_key;
  read_at = r.read_at;
  last_error = string_value r.last_error;
  created_at = r.created_at;
  sent_at = r.sent_at;
}

string_value-null_string : (s : Text) → string_value (null_string s) ≡ s
string_value-null_string [] = refl
string_value-null_string (b ∷ s) = refl

-- Storing an entity and reading it back gives the entity, with a nil payload made an empty map; and
-- a stored key is NULL exactly when the entity has none.
pub from_notification_row-to_notification_row :
    (n : Notification)
    → (from_notification_row (to_notification_row n)
        ≡ record n { payload = or_empty_map n.payload })
      × ((to_notification_row n).idempotency_key ≡ null_string n.idempotency_key)
unfolding from_notification_row to_notification_row
from_notification_row-to_notification_row n =
    ground
      (arith, string_value-null_string n.idempotency_key, string_value-null_string n.last_error)
