-- ===== src/Rag.antt =====
-- internal/rag: documents split into chunks, and the chunks that are most like a query.
pub mod Chunker
pub mod Coverage
pub mod Retriever
pub mod Sorting
pub mod Ranking
pub mod Store
pub mod Published
pub mod Service
pub mod Retrieval
pub mod Activation
pub mod Files
pub mod Stored
