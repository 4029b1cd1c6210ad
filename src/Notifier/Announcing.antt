-- ===== src/Notifier/Announcing.antt =====
-- The mail of an event that cmd/api/notifier_adapter.go announces reaches the outbox.
use kopiochi.Prelude.{◌≡◌, true, none, some, List, Text}
use kopiochi.Notification.Domain.Types.{Uuid, Notification}
use kopiochi.Notification.Domain.Preference.{Preference}
use kopiochi.Notification.Domain.Backoff.{Floats}
use kopiochi.Notification.Repository.Outbox
use kopiochi.Notification.Repository.Outbox.{Table, has_key}
use kopiochi.Notification.Application.Ports.{Ports}
use kopiochi.Notification.Application.Service.{enqueue}

-- The ports stand on an outbox that answers, and that the clock, the uuids and the preferences leave
-- alone.
pub record OverOutbox {W : Type 0} {fl : Floats} (ports : Ports W fl) (table : W → Table)
    (conflict : Text) : Type 0 where
  pub now_keeps : (w : W) → table (ports.now w).0 ≡ table w
  pub uuid_keeps : (w : W) → table (ports.new_uuid w).0 ≡ table w
  pub read_keeps : (w : W) (user : Uuid) → table (ports.list_preferences w user).0 ≡ table w
  pub writes :
      (w : W) (n : Notification)
      → table (ports.enqueue w n).0 ≡ (Outbox.enqueue none conflict (some n) (table w)).0

module _ {W : Type 0} {fl : Floats} (ports : Ports W fl) (table : W → Table) (conflict : Text)
    (over : OverOutbox ports table conflict) where
  abbrev Keeps : Text → W → W → Type 0
  Keeps k before after =
      has_key (some k) (table before) ≡ true → has_key (some k) (table after) ≡ true
