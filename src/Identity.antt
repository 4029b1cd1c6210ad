-- ===== src/Identity.antt =====
-- modules/identity: authentication.
pub mod Domain
pub mod Tokens
pub mod Users
pub mod Jwt
pub mod BackupCodes
pub mod Application
pub mod Transport
mod Examples
