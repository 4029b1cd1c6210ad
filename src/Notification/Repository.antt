-- ===== src/Notification/Repository.antt =====
-- modules/notification/infrastructure/persistence: the two tables and the queries over them.
pub mod Rows
pub mod Outbox
pub mod Updates
pub mod Claims
pub mod Writes
pub mod Mailbox
pub mod Ordering
pub mod Pages
pub mod Preferences
pub mod Upserts
pub mod Reads
