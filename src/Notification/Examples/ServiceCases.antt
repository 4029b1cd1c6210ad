-- ===== src/Notification/Examples/ServiceCases.antt =====
-- The theorems on modules/notification/application and the dispatcher over a concrete world.
use kopiochi.Prelude.{pos, ◌≡◌, refl, false, none, some, List, [], ◌∷◌, map, codes, length}
use kopiochi.Notification.Domain.Types.{email, security, sending, Notification, pending_row}
use kopiochi.Notification.Domain.Preference.{Preference}
use kopiochi.Notification.Repository.Rows.{to_notification_row, from_notification_row}
use kopiochi.Notification.Repository.Outbox.{claim_batch, claim_stalled, update_where, returning}
use kopiochi.Notification.Repository.Updates.{find_row}
use kopiochi.Notification.Repository.Preferences.{list_for_user}
use kopiochi.Notification.Application.Ports.{
  returns, panics, delivery_panicked, Failure, DispatchConfig, Observer, EnqueueRequest, Ports,
}
use kopiochi.Notification.Application.Dispatch.{
  CycleError, settle_all, settle_safely, dispatch_batch,
}
use kopiochi.Notification.Application.Settled.{IsSettled, dispatch_batch-IsSettled}
use kopiochi.Notification.Application.Observing.{settle_all_observer_panic}
use kopiochi.Notification.Application.Service.{params_of, enqueue}
use kopiochi.Notification.Application.Enqueueing.{Passes, enqueue_protected}
use kopiochi.Notification.Dispatcher.{Config}
use kopiochi.Notification.Examples.World.{
  World, percents, ports, ports-OverTable, first_row, second_row, two_rows, stuck_rows, world,
}

abbrev dispatching : DispatchConfig
dispatching = record {
  batch_size = pos 2;
  max_attempts = pos 3;
  backoff_base = pos 1000;
  backoff_cap = pos 60000;
}

abbrev claimed_row : Notification
claimed_row = record first_row { status = sending }

abbrev refused : Failure
refused = delivery_panicked (codes "451")

-- The world after the claim of a cycle.
abbrev claimed_world : World
claimed_world =
    (ports.claim_batch (ports.now (world two_rows)).0 (pos 2) (ports.now (world two_rows)).1).0

abbrev claimed_rows : List Notification
claimed_rows = record first_row { status = sending } ∷ record second_row { status = sending } ∷ []

-- The mail of row 7 is delivered, and that of row 8 bounces.
dispatch_batch-IsSettled_example :
    IsSettled (find_row 8 (dispatch_batch ports dispatching (world two_rows)).0.table)
    × ((es : List CycleError) × ((dispatch_batch ports dispatching (world two_rows)).1
          ≡ returns (length (map some claimed_rows), es)))
dispatch_batch-IsSettled_example =
    dispatch_batch-IsSettled ports dispatching (λ w. w.table) ports-OverTable (world two_rows)
      claimed_world claimed_rows 8 tt
      (unfold claim_batch update_where returning from_notification_row to_notification_row in refl)
      (refl, (refl, tt)) refl

abbrev bad_observer : Observer World
bad_observer w n s took e = (w, panics (codes "observer"))

abbrev observed_ports : Ports World percents
observed_ports = record ports { observer = some bad_observer }

settle_all_observer_panic_example :
    settle_all observed_ports dispatching (world stuck_rows) (map some claimed_rows) ≡ (
      (settle_safely observed_ports dispatching (world stuck_rows) claimed_row).0,
      panics (codes "observer"),
    )
settle_all_observer_panic_example =
    settle_all_observer_panic observed_ports dispatching bad_observer (codes "observer") refl
      (λ w n s took e. refl) (λ w n. refl) (world stuck_rows) claimed_row
      (some (record second_row { status = sending }) ∷ []) refl

abbrev sweeping : Config
sweeping = record {
  poll_interval = pos 10;
  workers = pos 1;
  batch_size = pos 5;
  stalled_after = pos 100;
  max_attempts = pos 3;
  backoff_base = pos 10;
  backoff_cap = pos 100;
  drain_timeout = pos 10;
}

abbrev swept_world : World
swept_world = (ports.claim_stalled (ports.now (world stuck_rows)).0 (pos 5) (pos 4900) (pos 5000)).0

abbrev request : EnqueueRequest
request = record {
  recipient_id = 42;
  channel = email;
  category = security;
  template_key = codes "security.password_changed";
  payload = none;
  idempotency_key = codes "k2";
}

abbrev mail_off : Preference
mail_off = record {
  user_id = 42;
  channel = email;
  category = security;
  enabled = false;
  updated_at = pos 1;
}

-- A stored row says that security mail is off.
abbrev opted_out : World
opted_out = record (world []) { prefs = mail_off ∷ [] }

enqueue_protected_example :
    Passes ports
      (ports.enqueue
        (ports.now (ports.new_uuid opted_out).0).0
        (pending_row (params_of 9 request) (pos 5000)))
      (enqueue ports opted_out request)
enqueue_protected_example =
    enqueue_protected ports opted_out request _ (ports.now (ports.new_uuid opted_out).0).0
      (mail_off ∷ []) refl refl (λ e. cc) (λ e. cc) (λ e. cc) refl (unfold list_for_user in refl)
