-- ===== src/Rag/Chunker.antt =====
-- internal/rag/chunker.go and model.go. The loop runs on fuel; Rag.Coverage shows that one step for
-- each rune is enough.
use gopher_agent_platform.Prelude.{
  ℕ, zero, suc, ◌+◌, ◌-◌, ◌==◌, List, [], ◌∷◌, if◌then◌else◌, ltb, length, take, drop, min,
}
use gopher_agent_platform.Text.{Text, is_empty}

-- The vectors are of `float32`, which is the parameter `F`.
pub record Chunk (F : Type 0) : Type 0 where
  pub index : ℕ
  pub content : Text
  pub vector : List F

abbrev pub chunk_size : ℕ
chunk_size = 1000

abbrev pub overlap : ℕ
overlap = 150

-- `runes[start:end]`
abbrev pub slice : Text → ℕ → ℕ → Text
slice runes start end = take (end - start) (drop start runes)

module _ {F : Type 0} where
  abbrev pub chunk_at : ℕ → Text → ℕ → ℕ → Chunk F
  chunk_at size runes start index = record {
    index = index;
    content = slice runes start (min (length runes) (start + size));
    vector = [];
  }

  -- The `for start < total` loop, for any chunk size and overlap.
  unfoldable pub split_from : ℕ → ℕ → ℕ → Text → ℕ → ℕ → List (Chunk F)
  split_from size shared zero runes start index = []
  split_from size shared (suc fuel) runes start index =
      let chunk = chunk_at size runes start index in
      let rest = split_from size shared fuel runes (start + (size - shared)) (index + 1) in
      if ltb start (length runes)
      then if length runes == min (length runes) (start + size) then chunk ∷ [] else chunk ∷ rest
      else []

  -- SplitText
  unfoldable pub split_text : Text → List (Chunk F)
  split_text text =
      if is_empty text then [] else split_from chunk_size overlap (suc (length text)) text 0 0
