-- ===== src/Openai.antt =====
-- internal/platform/openai, over the SDK as a parameter.
pub mod Client
pub mod Stream
pub mod Progress
pub mod Calls
pub mod Embedding
pub mod Vectors
pub mod Uniform
