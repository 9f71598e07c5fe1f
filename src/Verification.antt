-- ===== src/Verification.antt =====
-- internal/emailverification: one-time codes that are sent by mail, over the store in Redis.
pub mod Store
pub mod Tries
pub mod Guesses
pub mod Service
pub mod Sending
