-- ===== src/Rag/Service.antt =====
-- internal/rag/service.go and the interfaces of repository.go. The embedder, strings.ToLower and the
-- version, which is a new UUID, are parameters.
use gopher_agent_platform.Prelude.{
  ℕ, ◌*◌, Bool, not, Option, List, [], ◌∷◌, map, if◌then◌else◌, ltb, ◌==◌, ◌&&◌, ◌||◌, length, any,
}
use gopher_agent_platform.Errors.{
  Err, sentinel, is, rag_invalid_user_id, rag_invalid_content, document_too_large, invalid_encoding,
  unsupported_document_type, invalid_embedding_result, invalid_query, invalid_top_k,
  chunks_not_found, document_not_found,
}
use gopher_agent_platform.Exec.{
  Result, ok, err, Exec, ◌>>=◌, ◌>>◌, pure, raise, lift, attempt, reject_if,
}
use gopher_agent_platform.Text.{Text, text, text_eq, is_empty, trim_space, byte_len}
use gopher_agent_platform.Rag.Chunker.{Chunk, split_text}
use gopher_agent_platform.Rag.Retriever.{Floats, search_similar}
use gopher_agent_platform.Rag.Store.{alive}

-- 5 MB
abbrev pub max_document_bytes : ℕ
max_document_bytes = 5 * 1048576

-- The bytes of a document: those of a text, or that many that are no UTF-8.
pub data Content : Type 0 where
  utf8 : Text → Content
  not_utf8 : ℕ → Content

abbrev pub content_len : Content → ℕ
content_len (utf8 t) = byte_len t
content_len (not_utf8 n) = n

abbrev pub decoded : Content → Result Text
decoded (utf8 t) = ok t
decoded (not_utf8 n) = err (sentinel invalid_encoding)

-- `Document`, with the size in bytes.
pub record Document (F : Type 0) : Type 0 where
  pub version : Text
  pub filename : Text
  pub size : ℕ
  pub chunks : List (Chunk F)

-- `DocumentStore`, for the user, the version, the name and the text; Load gives the text and the name.
pub record DocumentStore (D : Type 0) : Type 0 where
  pub save : ℕ → Text → Text → Text → Exec D (Unit {0})
  pub load : ℕ → Text → Exec D (Text × Text)
  pub delete : ℕ → Text → Exec D (Unit {0})

-- `ChunkRepository`
pub record ChunkRepository (F R : Type 0) : Type 0 where
  pub replace : ℕ → Text → List (Chunk F) → Exec R (Unit {0})
  pub list : ℕ → Text → Exec R (List (Chunk F))
  pub delete : ℕ → Text → Exec R (Unit {0})
  pub current_version : ℕ → Exec R Text
  pub activate : ℕ → Text → Exec R Text

-- `filepath.Ext`: from the last dot on, where no slash follows it.
unfoldable pub ext : Text → Text
ext [] = []
ext (c ∷ s) =
    let rest = ext s in
    if not (is_empty rest)
    then rest
    else if c == b'.' && not (any (λ d. d == b'/') s)
    then c ∷ s
    else []

abbrev pub is_supported : Text → Bool
is_supported e = text_eq e (text ".md") || text_eq e (text ".txt")

module _ {F : Type 0} where
  abbrev pub embedded : Chunk F → List F → Result (List (Chunk F)) → Result (List (Chunk F))
  embedded chunk vector (err e) = err e
  embedded chunk vector (ok rest) = ok (record chunk { vector = vector } ∷ rest)

  -- The loop that gives each chunk its vector; there are as many of the one as of the other.
  unfoldable pub with_vectors : List (Chunk F) → List (List F) → Result (List (Chunk F))
  with_vectors [] vectors = ok []
  with_vectors (chunk ∷ chunks) [] = err (sentinel invalid_embedding_result)
  with_vectors (chunk ∷ chunks) (vector ∷ vectors) =
      let rest = with_vectors chunks vectors in
      if length vector == 0
      then err (sentinel invalid_embedding_result)
      else embedded chunk vector rest

  -- The one vector of a query.
  unfoldable pub single : List (List F) → Result (List F)
  single [] = err (sentinel invalid_embedding_result)
  single (vector ∷ []) =
      if length vector == 0 then err (sentinel invalid_embedding_result) else ok vector
  single (vector ∷ more ∷ vectors) = err (sentinel invalid_embedding_result)

module _ {D R : Type 0} where
  abbrev pub on_documents {ℓ} : {A : Type ℓ} → Exec D A → Exec (D × R) A
  on_documents m (d, r) = ((m d).0, ((m d).1, r))

  abbrev pub on_chunks {ℓ} : {A : Type ℓ} → Exec R A → Exec (D × R) A
  on_chunks m (d, r) = ((m r).0, (d, (m r).1))

-- `errors.Is(err, ErrChunksNotFound)` becomes ErrDocumentNotFound.
abbrev pub translated {ℓ} : {A : Type ℓ} → Result A → Result A
translated (ok a) = ok a
translated (err e) = if is e chunks_not_found then err (sentinel document_not_found) else err e

module _ (floats : Floats) (embed : List Text → Result (List (List floats.F32)))
    (to_lower : Text → Text) {D R : Type 0} (documents : DocumentStore D)
    (chunks : ChunkRepository floats.F32 R) where
  -- Upload up to the vectors, which touches neither store.
  unfoldable pub prepare :
      Option Err → ℕ → Text → Content → Exec (Unit {0}) (Text × List (Chunk floats.F32))
  unfolding ext split_text with_vectors
  prepare ended user_id filename content = do
    reject_if (user_id == 0) rag_invalid_user_id
    reject_if (content_len content == 0) rag_invalid_content
    reject_if (ltb max_document_bytes (content_len content)) document_too_large
    document ← lift (decoded content)
    lift (alive ended)
    reject_if (not (is_supported (to_lower (ext filename)))) unsupported_document_type
    let pieces = split_text document
    embedding ← lift (embed (map (λ c. c.content) pieces))
    reject_if (not (length embedding == length pieces)) invalid_embedding_result
    vectors ← lift (with_vectors pieces embedding)
    pure (document, vectors)

  -- The answer of Replace; where it is an error the document that was saved goes.
  abbrev pub or_delete : ℕ → Text → Result (Unit {0}) → Exec (D × R) (Unit {0})
  or_delete user_id version (ok _) = pure tt
  or_delete user_id version (err e) = do
    _ ← attempt (on_documents (documents.delete user_id version))
    raise e

  abbrev pub delete_previous : ℕ → Text → Text → Exec (D × R) (Result (Unit {0}))
  delete_previous user_id version previous =
      if not (is_empty previous) && not (text_eq previous version)
      then attempt (on_documents (documents.delete user_id previous))
      else pure (ok tt)

  -- The rest of Upload, which writes.
  unfoldable pub publish :
      ℕ → Text → Text → Text × List (Chunk floats.F32) → Exec (D × R) (Document floats.F32)
  publish user_id version filename (document, pieces) = do
    on_documents (documents.save user_id version filename document)
    stored ← attempt (on_chunks (chunks.replace user_id version pieces))
    or_delete user_id version stored
    previous ← on_chunks (chunks.activate user_id version)
    delete_previous user_id version previous
    pure
        record { version = version; filename = filename; size = byte_len document; chunks = pieces }

  -- Upload
  unfoldable pub upload :
      Option Err → Text → ℕ → Text → Content → Exec (D × R) (Document floats.F32)
  unfolding prepare publish
  upload ended version user_id filename content = do
    prepared ← lift (prepare ended user_id filename content tt).0
    publish user_id version filename prepared

  -- The chunks of the version that is current.
  unfoldable pub current_chunks : ℕ → Exec (D × R) (List (Chunk floats.F32))
  current_chunks user_id = do
    current ← attempt (on_chunks (chunks.current_version user_id))
    version ← lift (translated current)
    listed ← attempt (on_chunks (chunks.list user_id version))
    lift (translated listed)

  -- Retrieve; a `topK` below 0 is refused as 0 is.
  unfoldable pub retrieve : ℕ → Text → ℕ → Exec (D × R) (List (Chunk floats.F32))
  unfolding current_chunks trim_space search_similar single
  retrieve user_id value top_k = do
    reject_if (user_id == 0) rag_invalid_user_id
    let query = trim_space value
    reject_if (is_empty query) invalid_query
    reject_if (top_k == 0) invalid_top_k
    stored ← current_chunks user_id
    vectors ← lift (embed (query ∷ []))
    vector ← lift (single vectors)
    lift (search_similar floats stored vector top_k)
