-- ===== src/Notification/Domain.antt =====
-- modules/notification/domain: the outbox row, its state machine, the retry schedule and the
-- preferences. The children use one another, and `Types` is the one that all of them use.
pub mod Types
pub mod Construction
pub mod Transition
pub mod Truncate
pub mod Outcome
pub mod Lifecycle
pub mod Budget
pub mod Reason
pub mod Preference
pub mod Filter
pub mod Backoff
pub mod Schedule
