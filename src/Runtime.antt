-- ===== src/Runtime.antt =====
-- runtime.go, adq_runtime.go: how the runtime names a credential.
pub mod Identity
