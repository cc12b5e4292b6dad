-- ===== src/Reconcile.antt =====
-- ban_reconcile.go: how fresh quota snapshots end a quarantine whose quota cycle is over.
pub mod Evidence
pub mod Confirmations
pub mod Proven
pub mod Twice
pub mod Cleared
pub mod Ambiguous
mod Examples
