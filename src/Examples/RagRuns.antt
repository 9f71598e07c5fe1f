-- ===== src/Examples/RagRuns.antt =====
-- The theorems about internal/rag at small documents.
use gopher_agent_platform.Prelude.{ℕ, ◌≡◌, ◌<◌, ◌≤◌, length, All}
use gopher_agent_platform.Text.{text}
use gopher_agent_platform.Rag.Chunker.{Chunk, overlap, split_text}
use gopher_agent_platform.Rag.Coverage.{
  reassemble, Numbered, reassemble-split_text, split_text_chunks,
}

reassemble-split_text_example :
    reassemble overlap (split_text {F = ℕ} (text "gopher")) ≡ text "gopher"
reassemble-split_text_example = reassemble-split_text ℕ (text "gopher")

split_text_chunks_example :
    All
      (λ (c : Chunk ℕ). (0 < length c.content) × (length c.content ≤ 1000))
      (split_text (text "gopher"))
    × Numbered 0 (split_text {F = ℕ} (text "gopher"))
split_text_chunks_example = split_text_chunks ℕ (text "gopher")
