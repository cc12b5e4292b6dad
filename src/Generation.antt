-- ===== src/Generation.antt =====
-- generation_owner.go: which loaded instance may write the shared state, by its parts and by what
-- is proved of them.
pub mod Journal
pub mod Owner
pub mod Fence
pub mod Results
pub mod Runs
pub mod Safety
pub mod Register
pub mod Refined
pub mod Unconfirmed
mod Examples
