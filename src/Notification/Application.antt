-- ===== src/Notification/Application.antt =====
-- modules/notification/application: the use cases over the ports.
pub mod Ports
pub mod Dispatch
pub mod OverTable
pub mod Settling
pub mod Settled
pub mod Observing
pub mod Service
pub mod Setup
pub mod Enqueueing
pub mod Matrix
