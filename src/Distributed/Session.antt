-- ===== src/Distributed/Session.antt =====
-- internal/distributed/session.go: the interface SessionStore, and MemorySessionStore.
pub mod Interface
pub mod Memory
