-- ===== src/Rag/Retriever.antt =====
-- internal/rag/retriever.go. The numbers of IEEE 754 are a parameter.
use gopher_agent_platform.Prelude.{
  ℕ, Bool, not, ◌||◌, List, [], ◌∷◌, map, if◌then◌else◌, length, take, ltb, ◌==◌,
}
use gopher_agent_platform.Errors.{
  sentinel, invalid_top_k, invalid_vector_size, invalid_vector_element,
}
use gopher_agent_platform.Exec.{Result, ok, err}
use gopher_agent_platform.Rag.Chunker.{Chunk}

-- `float32` and `float64`: the conversions, the operations that the code uses, `== 0` on float64 and
-- `>` on float32.
pub record Floats : Type 1 where
  pub F32 : Type 0
  pub F64 : Type 0
  pub widen : F32 → F64
  pub narrow : F64 → F32
  pub zero64 : F64
  pub add : F64 → F64 → F64
  pub mul : F64 → F64 → F64
  pub div : F64 → F64 → F64
  pub sqrt : F64 → F64
  pub is_zero : F64 → Bool
  pub greater : F32 → F32 → Bool

module _ (floats : Floats) where
  open floats use {F32, F64, widen, narrow, zero64, add, mul, div, sqrt, is_zero, greater}

  -- The three sums of the loop in calcSimilarity; the vectors have one length.
  pub record Sums : Type 0 where
    pub dot_product : F64
    pub norm_a : F64
    pub norm_b : F64

  abbrev pub sums : Sums → List F32 → List F32 → Sums
  sums s [] vector = s
  sums s (a ∷ query) [] = s
  sums s (a ∷ query) (b ∷ vector) =
      sums
        record {
          dot_product = add s.dot_product (mul (widen a) (widen b));
          norm_a = add s.norm_a (mul (widen a) (widen a));
          norm_b = add s.norm_b (mul (widen b) (widen b));
        }
        query vector

  abbrev pub no_sums : Sums
  no_sums = record { dot_product = zero64; norm_a = zero64; norm_b = zero64 }

  unfoldable pub calc_similarity : List F32 → List F32 → Result F32
  calc_similarity query vector =
      let s = sums no_sums query vector in
      if is_zero s.norm_a || is_zero s.norm_b
      then err (sentinel invalid_vector_element)
      else ok (narrow (div s.dot_product (mul (sqrt s.norm_a) (sqrt s.norm_b))))

  -- A chunk and its similarity; the source keeps the two in slices under one index.
  pub record Scored : Type 0 where
    pub chunk : Chunk F32
    pub similarity : F32

  abbrev pub scored : Chunk F32 → Result F32 → Result (List Scored) → Result (List Scored)
  scored chunk (err e) rest = err e
  scored chunk (ok x) (err e) = err e
  scored chunk (ok x) (ok rest) = ok (record { chunk = chunk; similarity = x } ∷ rest)

  -- The loop over the chunks.
  unfoldable pub score : List F32 → List (Chunk F32) → Result (List Scored)
  unfolding calc_similarity
  score query [] = ok []
  score query (chunk ∷ chunks) =
      let rest = score query chunks in
      if not (length chunk.vector == length query)
      then err (sentinel invalid_vector_size)
      else scored chunk (calc_similarity query chunk.vector) rest

  abbrev pub insert_stable : Scored → List Scored → List Scored
  insert_stable x [] = x ∷ []
  insert_stable x (y ∷ ys) =
      let rest = insert_stable x ys in
      if greater y.similarity x.similarity then y ∷ rest else x ∷ y ∷ ys

  -- `sort.SliceStable` by falling similarity: what is equally similar keeps its order.
  unfoldable pub sort_stable : List Scored → List Scored
  sort_stable [] = []
  sort_stable (x ∷ xs) = insert_stable x (sort_stable xs)

  -- The `top_k` most similar, which are all where there are fewer.
  abbrev pub best : ℕ → Result (List Scored) → Result (List (Chunk F32))
  best top_k (err e) = err e
  best top_k (ok all) = ok (map (λ s. s.chunk) (take top_k (sort_stable all)))

  -- SearchSimilar; a `topK` below 0 is refused as 0 is.
  unfoldable pub search_similar : List (Chunk F32) → List F32 → ℕ → Result (List (Chunk F32))
  unfolding score sort_stable
  search_similar chunks query top_k =
      if top_k == 0
      then err (sentinel invalid_top_k)
      else if length query == 0
      then err (sentinel invalid_vector_size)
      else if length chunks == 0
      then ok []
      else best (if ltb (length chunks) top_k then length chunks else top_k) (score query chunks)
