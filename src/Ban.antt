-- ===== src/Ban.antt =====
-- main.go: banState, the quarantine of credentials, by its parts and by what is proved of them.
pub mod Entry
pub mod Store
pub mod Completion
pub mod Calls
pub mod Quarantine
pub mod Ownership
pub mod Cooldown
mod Examples
