-- ===== src/Users.antt =====
-- internal/user and its table.
pub mod Sql
pub mod Repository
pub mod Service
pub mod Login
