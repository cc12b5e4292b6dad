-- ===== src/Concurrency.antt =====
-- concurrency.go: the ledger of running requests, by its parts and by what is proved of them.
pub mod Ledger
pub mod Queue
pub mod Elements
pub mod Ring
pub mod Slots
pub mod Waiting
pub mod Turns
pub mod Calls
pub mod Rejected
pub mod Slot
pub mod After
pub mod Permits
pub mod Admission
pub mod Complete
pub mod Released
mod Examples
