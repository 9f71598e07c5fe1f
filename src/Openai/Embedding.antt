-- ===== src/Openai/Embedding.antt =====
-- internal/platform/openai/embedding.go. The SDK's call for a batch of texts, and the conversion of a
-- float64 to a float32, are parameters.
use gopher_agent_platform.Prelude.{
  ℕ, zero, suc, Bool, true, false, Option, none, some, List, [], ◌∷◌, ◌++◌, map, if◌then◌else◌, leb,
  ◌==◌, ◌&&◌, ◌||◌, length, take, drop, set, get_elem?,
}
use gopher_agent_platform.Errors.{
  sentinel, wrap, missing_api_key, missing_model, empty_embedding_input, embedding_failed,
  embedding_response_invalid,
}
use gopher_agent_platform.Exec.{Result, ok, err}
use gopher_agent_platform.Text.{Text, is_empty, trim_space}

abbrev pub max_embedding_batch_size : ℕ
max_embedding_batch_size = 64

pub record EmbeddingConfig : Type 0 where
  pub api_key : Text
  pub model : Text
  pub base_url : Text
  pub requires_auth : Bool

-- NewEmbedderWithConfig, down to the model that requests name.
unfoldable pub new_embedder_with_config : EmbeddingConfig → Result Text
new_embedder_with_config config =
    if is_empty (trim_space config.model)
    then err (sentinel missing_model)
    else if config.requires_auth && is_empty (trim_space config.api_key)
    then err (sentinel missing_api_key)
    else ok (trim_space config.model)

unfoldable pub new_embedder : Text → Text → Result Text
unfolding new_embedder_with_config
new_embedder api_key model =
    if is_empty (trim_space api_key)
    then err (sentinel missing_api_key)
    else if is_empty (trim_space model)
    then err (sentinel missing_model)
    else new_embedder_with_config record {
      api_key = trim_space api_key;
      model = trim_space model;
      base_url = [];
      requires_auth = true;
    }

-- The index of a vector in an answer, an `int64`.
pub data Index : Type 0 where
  pos negsuc : ℕ → Index

-- One item of `response.Data`.
pub record Datum (D : Type 0) : Type 0 where
  pub index : Index
  pub embedding : List D

-- `make([]T, n)`
abbrev pub replicate : {A : Type 0} → ℕ → A → List A
replicate zero a = []
replicate (suc n) a = a ∷ replicate n a

abbrev pub is_true : Option Bool → Bool
is_true none = false
is_true (some b) = b

abbrev pub failed_embedding : {A : Type 0} → Result A → Result A
failed_embedding (ok a) = ok a
failed_embedding (err e) = err (wrap embedding_failed e)

module _ {D F : Type 0} (narrow : D → F) where
  -- Whether the index of an item is one that is still to be filled.
  abbrev pub refused : Index → List Bool → Bool
  refused (negsuc n) seen = true
  refused (pos i) seen = leb (length seen) i || is_true (get_elem? seen i)

  abbrev pub position : Index → ℕ
  position (pos i) = i
  position (negsuc n) = 0

  -- The loop over the items, with `result` and `seen`.
  unfoldable pub fill : List (Datum D) → List (List F) → List Bool → Result (List (List F))
  fill [] result seen = ok result
  fill (d ∷ ds) result seen =
      let i = position d.index in
      let rest = fill ds (set result i (map narrow d.embedding)) (set seen i true) in
      if refused d.index seen
      then err (sentinel embedding_response_invalid)
      else if length d.embedding == 0
      then err (sentinel embedding_response_invalid)
      else rest

  -- The loop that compares each vector with the one before.
  unfoldable pub same_dimension : List (List F) → Result (Unit {0})
  same_dimension [] = ok tt
  same_dimension (v ∷ []) = ok tt
  same_dimension (v ∷ w ∷ vs) =
      let rest = same_dimension (w ∷ vs) in
      if length w == length v then rest else err (sentinel embedding_response_invalid)

  abbrev pub kept_if : List (List F) → Result (Unit {0}) → Result (List (List F))
  kept_if vs (ok _) = ok vs
  kept_if vs (err e) = err e

  abbrev pub compared : Result (List (List F)) → Result (List (List F))
  compared (err e) = err e
  compared (ok vs) = kept_if vs (same_dimension vs)

  abbrev pub batch_of : ℕ → Result (List (Datum D)) → Result (List (List F))
  batch_of n (err e) = err e
  batch_of n (ok items) =
      if n == length items
      then compared (fill items (replicate n []) (replicate n false))
      else err (sentinel embedding_response_invalid)

  module _ (create : List Text → Result (List (Datum D))) where
    -- embedBatch
    unfoldable pub embed_batch : List Text → Result (List (List F))
    unfolding fill same_dimension
    embed_batch input = batch_of (length input) (failed_embedding (create input))

    -- The loop over the vectors of a batch, with `expectedDimension`, 0 where there is none yet.
    unfoldable pub check_dimension : ℕ → List (List F) → Result ℕ
    check_dimension expected [] = ok expected
    check_dimension expected (v ∷ vs) =
        let first = check_dimension (length v) vs in
        let next = check_dimension expected vs in
        if expected == 0
        then first
        else if length v == expected
        then next
        else err (sentinel embedding_response_invalid)

    abbrev pub joined : List (List F) → Result (List (List F)) → Result (List (List F))
    joined batch (ok rest) = ok (batch ++ rest)
    joined batch (err e) = err e

    abbrev pub checked :
        List (List F) → Result ℕ → (ℕ → Result (List (List F))) → Result (List (List F))
    checked batch (err e) next = err e
    checked batch (ok expected) next = joined batch (next expected)

    abbrev pub batched :
        Result (List (List F)) → ℕ → (ℕ → Result (List (List F))) → Result (List (List F))
    batched (err e) expected next = err e
    batched (ok batch) expected next = checked batch (check_dimension expected batch) next

    -- The loop over the batches, one for each unit of fuel at most.
    unfoldable pub embed_from : ℕ → ℕ → List Text → Result (List (List F))
    unfolding embed_batch check_dimension
    embed_from zero expected input = ok []
    embed_from (suc fuel) expected [] = ok []
    embed_from (suc fuel) expected (t ∷ ts) =
        batched (embed_batch (take max_embedding_batch_size (t ∷ ts))) expected
          λ dimension. embed_from fuel dimension (drop max_embedding_batch_size (t ∷ ts))

    abbrev pub trimmed : Text → Result (List Text) → Result (List Text)
    trimmed t (err e) = if is_empty t then err (sentinel empty_embedding_input) else err e
    trimmed t (ok ts) = if is_empty t then err (sentinel empty_embedding_input) else ok (t ∷ ts)

    abbrev pub inputs : List Text → Result (List Text)
    inputs [] = ok []
    inputs (t ∷ ts) = trimmed (trim_space t) (inputs ts)

    abbrev pub embedded : Result (List Text) → Result (List (List F))
    embedded (err e) = err e
    embedded (ok input) = embed_from (length input) 0 input

    -- Embed
    unfoldable pub embed : List Text → Result (List (List F))
    unfolding embed_from trim_space
    embed texts =
        if length texts == 0 then err (sentinel empty_embedding_input) else embedded (inputs texts)
