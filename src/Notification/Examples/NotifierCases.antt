-- ===== src/Notification/Examples/NotifierCases.antt =====
-- The theorem on cmd/api/notifier_adapter.go at the lock of one account.
use kopiochi.Prelude.{Option, none, some, [], ◌∷◌, Text, codes}
use kopiochi.Notification.Domain.Types.{Uuid}
use kopiochi.Notifier.{Layouts}

abbrev by_first : Text → Option Uuid
by_first [] = none
by_first (b ∷ s) = some b

abbrev layouts : Layouts
layouts = record { parse_uuid = by_first; rfc3339 = λ t. codes "t"; event_time = λ t. codes "t" }
