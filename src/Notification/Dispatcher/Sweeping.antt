-- ===== src/Notification/Dispatcher/Sweeping.antt =====
-- The sweep of modules/notification/infrastructure/dispatcher/dispatcher.go over ports that stand on
-- the outbox table.
use mathlib.Core.List.{Memᴰ}
use kopiochi.Prelude.{ℤ, ◌≡◌, ◌⊎◌, true, false, Option, none, some, List, inc, leb_ℤ}
use kopiochi.Notification.Domain.Types.{Uuid, Status, pending, dead, Notification}
use kopiochi.Notification.Application.Ports.{Outcome, Ports}
use kopiochi.Notification.Application.OverTable.{OverTable}
use kopiochi.Notification.Repository.Rows.{NotificationRow}

-- The status and the counter of a row that was recovered: one attempt more than the entity had, pending
-- if that leaves some of the budget, dead if not.
abbrev pub IsCharged : ℤ → Notification → Status → ℤ → Type 0
IsCharged max n status attempts =
    (attempts ≡ inc n.attempts)
    × (((leb_ℤ max (inc n.attempts) ≡ false) × (status ≡ pending))
        ⊎ ((leb_ℤ max (inc n.attempts) ≡ true) × (status ≡ dead)))

-- The row of an id is recovered from an entity of the list with that id, if the table has it.
abbrev pub IsRecovered : ℤ → List Notification → Uuid → Option NotificationRow → Type 0
IsRecovered max ns id none = Unit {0}
IsRecovered max ns id (some r) =
    (n : Notification) × Memᴰ n ns × (n.id ≡ id) × IsCharged max n r.status r.attempts
