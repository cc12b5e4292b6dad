-- ===== src/Sessions.antt =====
-- balanced_session.go: the table that binds conversations to credentials, by its parts and by what is
-- proved of them.
pub mod Table
pub mod Bounds
pub mod Saved
mod Examples
