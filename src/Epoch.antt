-- ===== src/Epoch.antt =====
-- quota_epoch.go: the epoch of the weekly quota, which a provider starts when it resets the quotas of
-- all accounts, and the sweep of quota probes that confirms it.
pub mod State
pub mod Evidence
pub mod Sweep
pub mod Rounds
pub mod Confirm
pub mod Observe
pub mod Apply
pub mod Calls
mod Inventory
mod Fresh
mod Warmed
mod Bounded
mod Backed
mod Cleared
mod Examples
