-- ===== src/Jobs.antt =====
-- internal/chatjob: the asynchronous chat jobs, their statements, repository and service.
pub mod Sql
pub mod Outcome
pub mod Rows
pub mod Machine
pub mod Effects
pub mod History
pub mod Success
pub mod Held
pub mod Redelivery
pub mod Liveness
pub mod Repository
pub mod Service
pub mod Consumer
pub mod Publisher
