-- ===== src/Conversations.antt =====
-- internal/conversation and its tables: who owns a conversation.
pub mod Sql
pub mod Repository
pub mod Service
pub mod Deletion
