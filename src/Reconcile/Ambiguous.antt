-- ===== src/Reconcile/Ambiguous.antt =====
-- ban_reconcile.go: a quarantine that may be a real one of five hours.
