-- ===== src/Http.antt =====
-- internal/httpapi: requests, the answers to them and the routes.
pub mod Request
pub mod Handlers
pub mod Accounts
pub mod Router
pub mod Access
pub mod Limited
pub mod Registration
pub mod Documents
pub mod Chat
