-- ===== src/Messages.antt =====
-- internal/message and its table.
pub mod Sql
pub mod Repository
pub mod Service
pub mod Pages
pub mod Writing
