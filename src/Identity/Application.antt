-- ===== src/Identity/Application.antt =====
-- modules/identity/application: the use cases.
pub mod Ports
pub mod Login
pub mod Refresh
pub mod Mfa
pub mod Granting
pub mod Authenticating
pub mod SecondFactor
pub mod Replaying
pub mod Enrolling
pub mod Rotating
