-- ===== src/Transfer.antt =====
-- internal/service/transfer.
mod Tests
pub mod Coverage
pub mod Types
pub mod File
pub mod Exec
pub mod Complete
pub mod Upload
pub mod Multipart
pub mod Slots
pub mod Cleanup
pub mod Download
