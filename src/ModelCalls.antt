-- ===== src/ModelCalls.antt =====
-- internal/modelcall and its table: the record of one call of the language model.
pub mod Sql
pub mod Repository
pub mod Service
pub mod Ended
