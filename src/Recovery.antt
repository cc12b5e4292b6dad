-- ===== src/Recovery.antt =====
-- recovery_guard.go, by its parts and by what is proved of them.
pub mod Retry
pub mod Guard
pub mod Lifecycle
pub mod Permit
pub mod Evidence
mod Examples
