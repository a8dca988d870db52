-- ===== src/Distributed.antt =====
-- internal/distributed: locks, the retry loop that acquires them, and session stores.
mod Tests
pub mod Errors
pub mod Lock
pub mod Acquire
pub mod Session
