-- ===== src/Rag/Activation.antt =====
-- The repository over Redis keeps what it publishes.
use gopher_agent_platform.Prelude.{
  ℕ, ◌≢◌, [], ◌∷◌, ◌≡◌, refl, sym, ap, ◌∙◌, true, false, Option, none, some, List, length, ◌==◌,
  arith, inl, inr, Bool-cases,
}
use gopher_agent_platform.Errors.{Err}
use gopher_agent_platform.Exec.{Result, ok, Result-cases}
use gopher_agent_platform.Text.{Text, is_empty, trim_space}
use gopher_agent_platform.Text.Laws.{text_eq_refl}
use gopher_agent_platform.Redis.{Entry, str, without_ttl}
use gopher_agent_platform.Rag.Chunker.{Chunk}
use gopher_agent_platform.Rag.Retriever.{Floats, search_similar}
use gopher_agent_platform.Rag.Service.{
  ChunkRepository, DocumentStore, Document, Content, upload, retrieve,
}
use gopher_agent_platform.Rag.Retrieval.{KeepsPublished, retrieve-upload}
use gopher_agent_platform.Rag.Published.{
  same_key, not_current, activated, IsPublished, activated-version, activated-current,
  pointer_valid,
}
use gopher_agent_platform.Rag.Store.{
  Storage, Store, alive, text_of, current_version_suffix, valid_version, version_key, current_key,
  check_chunks, first_size, replace, list, delete, current_version, activate, activate_script,
}

module _ {F : Type 0} (storage : Storage F) (ended : Option Err) where
  open storage use {redis, marshal, unmarshal}

  -- RAGChunkRepository as the service takes it.
  abbrev pub redis_chunks : ChunkRepository F (Store storage)
  redis_chunks = record {
    replace = replace storage ended;
    list = list storage;
    delete = delete storage;
    current_version = current_version storage;
    activate = activate storage;
  }

  -- What a Replace that succeeds has checked and written.
  record Written (user_id : ℕ) (v : Text) (chunks : List (Chunk F)) (s : Store storage)
      : Type 0 where
    bytes : Text
    user : (user_id == 0) ≡ false
    valid : valid_version v ≡ true
    marshalled : marshal chunks ≡ ok bytes
    state :
        (replace storage ended user_id v chunks s).1
        ≡ redis.set_px s (version_key storage user_id v) bytes 86400000

  replace-Written :
      (user_id : ℕ) (v : Text) (chunks : List (Chunk F)) (s : Store storage)
      → (replace storage ended user_id v chunks s).0 ≡ ok tt
      → Written user_id v chunks s
  unfolding replace
  replace-Written user_id v chunks s h = elim (Result-cases (alive ended)) [
    | inr (e, p) ↦ let q = rw p at h in cc
    | inl (_, p) ↦ elim (Bool-cases (user_id == 0)) [
      | inl z ↦ let q = rw (p, z) at h in cc
      | inr z ↦ elim (Bool-cases (valid_version v)) [
        | inr y ↦ let q = rw (p, z, y) at h in cc
        | inl y ↦ elim (Bool-cases (length chunks == 0)) [
          | inl x ↦ let q = rw (p, z, y, x) at h in cc
          | inr x ↦ elim (Result-cases (check_chunks (first_size chunks) chunks)) [
            | inr (e, w) ↦ let q = rw (p, z, y, x, w) at h in cc
            | inl (_, w) ↦ elim (Result-cases (marshal chunks)) [
              | inr (e, m) ↦ let q = rw (p, z, y, x, w, m) at h in cc
              | inl (bytes, m) ↦ record {
                bytes = bytes;
                user = z;
                valid = y;
                marshalled = m;
                state = rw (p, z, y, x, w, m) refl;
              }
            ]
          ]
        ]
      ]
    ]
  ]

  read_back :
      (user_id : ℕ) (v : Text) (chunks : List (Chunk F)) (t : Store storage)
      → (user_id == 0) ≡ false
      → valid_version v ≡ true
      → redis.entry t (current_key storage user_id) ≡ some (record { value = str v; ttl = none })
      → (bytes : Text)
      → redis.entry t (version_key storage user_id v)
        ≡ some (record { value = str bytes; ttl = none })
      → unmarshal bytes ≡ ok chunks
      → (current_version storage user_id t ≡ (ok v, t))
        × (list storage user_id v t ≡ (ok chunks, t))
  unfolding current_version list
  read_back user_id v chunks t z y p bytes q m = (rw (z, p, y) refl, rw (z, y, q, m) refl)

  pub published :
      (user_id : ℕ) (v previous : Text) (chunks : List (Chunk F)) (s : Store storage)
      → IsPublished storage user_id s
      → (replace storage ended user_id v chunks s).0 ≡ ok tt
      → let q = (replace storage ended user_id v chunks s).1 in
        (activate storage user_id v q).0 ≡ ok previous
        → let t = (activate storage user_id v q).1 in
          (current_version storage user_id t ≡ (ok v, t))
          × (list storage user_id v t ≡ (ok chunks, t))
  unfolding activate activate_script
  published user_id v previous chunks s o h k =
      let w = replace-Written user_id v chunks s h in
      let K = version_key storage user_id v in
      let C = current_key storage user_id in
      let t = redis.set_px s K w.bytes 86400000 in
      let stored : redis.entry t K ≡ some (record { value = str w.bytes; ttl = some 86400000 }) =
        rw (redis.entry-set_px s K w.bytes 86400000 K (omega arith), text_eq_refl K) in
      let pointer : redis.entry t C ≡ redis.entry s C = rw (
        redis.entry-set_px s K w.bytes 86400000 C (omega arith),
        same_key storage user_id v current_version_suffix ∙ not_current storage user_id v w.valid,
      ) in
      let valid : (e : Entry) → redis.entry t C ≡ some e → valid_version (text_of e.value) ≡ true =
        λ e p. pointer_valid storage user_id s o e (sym pointer ∙ p) in
      rw (w.state, w.user, w.valid, stored)
        (read_back user_id v chunks (activated storage user_id v t) w.user w.valid
          (activated-current storage user_id v t valid) w.bytes
          (activated-version storage user_id v t w.valid ∙ ap without_ttl stored)
          (storage.unmarshal-marshal chunks w.bytes w.marshalled))

  abbrev pub redis_chunks-KeepsPublished : KeepsPublished redis_chunks
  redis_chunks-KeepsPublished = record { InOrder = IsPublished storage; current = published }

-- Over Redis, with a current version in order: after an Upload that succeeds, Retrieve gives what
-- SearchSimilar finds for the query among the chunks of the new document.
pub redis_retrieve-upload :
    (floats : Floats) (embed : List Text → Result (List (List floats.F32))) (to_lower : Text → Text)
    {D : Type 0} (documents : DocumentStore D) (storage : Storage floats.F32) (ended : Option Err)
    (version : Text) (user_id : ℕ) (filename : Text) (content : Content) (s : D × Store storage)
    (document : Document floats.F32) (query : Text) (vector : List floats.F32) (top_k : ℕ)
    → IsPublished storage user_id s.1
    → (upload floats embed to_lower documents
        (redis_chunks storage ended)
        ended
        version
        user_id
        filename
        content
        s).0
      ≡ ok document
    → user_id ≢ 0
    → is_empty (trim_space query) ≡ false
    → top_k ≢ 0
    → embed (trim_space query ∷ []) ≡ ok (vector ∷ [])
    → length vector ≢ 0
    → let t =
        (upload floats embed to_lower documents
          (redis_chunks storage ended)
          ended
          version
          user_id
          filename
          content
          s).1 in
      (retrieve floats embed to_lower documents
        (redis_chunks storage ended)
        user_id
        query
        top_k
        t).0
      ≡ search_similar floats document.chunks vector top_k
redis_retrieve-upload floats embed to_lower documents storage ended =
    retrieve-upload floats embed to_lower documents (redis_chunks storage ended)
      (redis_chunks-KeepsPublished storage ended) ended
