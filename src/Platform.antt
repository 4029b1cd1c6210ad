-- ===== src/Platform.antt =====
-- internal: what the modules stand on.
pub mod ClientIp
pub mod RateLimit
pub mod Lifecycle
pub mod DbErrors
pub mod Problem
pub mod Authn
mod Examples
