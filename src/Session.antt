-- ===== src/Session.antt =====
-- internal/session/session.go and memory.go: the usage counter of each token hash.
pub mod Store
pub mod Memory
