-- ===== src/Database.antt =====
-- internal/database: the tables, the statements on them and the services of metadata.go.
mod Tests
pub mod Like
pub mod Table
pub mod Db
pub mod Files
pub mod Directories
pub mod Batch
pub mod Keys
