-- ===== src/Chat.antt =====
-- internal/chat: one turn of a conversation.
pub mod Model
pub mod Context
pub mod Service
pub mod Jobs
pub mod Turns
