-- ===== src/Notification.antt =====
-- modules/notification: the outbox, its delivery cycle and the delivery preferences.
pub mod Domain
pub mod Repository
pub mod Application
pub mod Senders
pub mod Dispatcher
pub mod Config
pub mod Module
pub mod Transport
mod Examples
