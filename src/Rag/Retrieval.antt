-- ===== src/Rag/Retrieval.antt =====
-- A document that is uploaded is the one that queries search, for any repository that keeps what it
-- publishes.
use gopher_agent_platform.Prelude.{
  ℕ, ◌≡◌, ◌≢◌, refl, ap, ◌∙◌, false, not, Option, List, [], ◌∷◌, length, ◌==◌, ◌&&◌, arith, inl,
  inr, Bool-cases,
}
use gopher_agent_platform.Errors.{Err}
use gopher_agent_platform.Exec.{Result, ok, Result-cases}
use gopher_agent_platform.Text.{Text, text_eq, is_empty, trim_space}
use gopher_agent_platform.Rag.Chunker.{Chunk}
use gopher_agent_platform.Rag.Retriever.{Floats, search_similar}
use gopher_agent_platform.Rag.Service.{
  Content, Document, DocumentStore, ChunkRepository, prepare, publish, upload, current_chunks,
  single, retrieve,
}

-- In a state that is in order for a user, a version that is replaced and then activated is the current
-- one, with its chunks, and reading changes nothing.
pub record KeepsPublished {F R : Type 0} (chunks : ChunkRepository F R) : Type 1 where
  pub InOrder : ℕ → R → Type 0
  pub current :
      (user_id : ℕ) (version previous : Text) (stored : List (Chunk F)) (r : R)
      → InOrder user_id r
      → (chunks.replace user_id version stored r).0 ≡ ok tt
      → let q = (chunks.replace user_id version stored r).1 in
        (chunks.activate user_id version q).0 ≡ ok previous
        → let t = (chunks.activate user_id version q).1 in
          (chunks.current_version user_id t ≡ (ok version, t))
          × (chunks.list user_id version t ≡ (ok stored, t))

module _ (floats : Floats) (embed : List Text → Result (List (List floats.F32)))
    (to_lower : Text → Text) {D R : Type 0} (documents : DocumentStore D)
    (chunks : ChunkRepository floats.F32 R) (keeps : KeepsPublished chunks) where
  -- The state of the chunks is one in which that version is current, with those chunks.
  Serves : ℕ → Text → List (Chunk floats.F32) → D × R → Type 0
  Serves user_id version stored s =
      (chunks.current_version user_id s.1 ≡ (ok version, s.1))
      × (chunks.list user_id version s.1 ≡ (ok stored, s.1))

  publish-Serves :
      (user_id : ℕ) (version filename document : Text) (pieces : List (Chunk floats.F32))
      (s : D × R) (published : Document floats.F32)
      → keeps.InOrder user_id s.1
      → (publish floats embed to_lower documents chunks user_id version filename
          (document, pieces)
          s).0
        ≡ ok published
      → Serves user_id version published.chunks
          (publish floats embed to_lower documents chunks user_id version filename
            (document, pieces)
            s).1
  unfolding publish Serves
  publish-Serves user_id version filename document pieces s published o h =
      let save = documents.save user_id version filename document s.0 in
      let stored = chunks.replace user_id version pieces s.1 in
      let switched = chunks.activate user_id version stored.1 in
      elim (Result-cases save.0) [
        | inr (e, p) ↦ let z = rw p at h in cc
        | inl (_, p) ↦ elim (Result-cases stored.0) [
          | inr (e, q) ↦ let z = rw (p, q) at h in cc
          | inl (_, q) ↦ elim (Result-cases switched.0) [
            | inr (e, r) ↦ let z = rw (p, q, r) at h in cc
            | inl (previous, r) ↦
                let k = keeps.current user_id version previous pieces s.1 o q r in
                elim (Bool-cases (not (is_empty previous) && not (text_eq previous version))) [
                  | inl b ↦
                      let z = rw (p, q, r, b) at h in
                      rw (p, q, r, b)
                        (serves_same published.chunks switched.1 k (ground (arith, z)))
                  | inr b ↦
                      let z = rw (p, q, r, b) at h in
                      rw (p, q, r, b)
                        (serves_same published.chunks switched.1 k (ground (arith, z)))
                ]
          ]
        ]
      ]
    where
      serves_same :
          (c : List (Chunk floats.F32)) (t : R)
          → (chunks.current_version user_id t ≡ (ok version, t))
            × (chunks.list user_id version t ≡ (ok pieces, t))
          → pieces ≡ c
          → (chunks.current_version user_id t ≡ (ok version, t))
            × (chunks.list user_id version t ≡ (ok c, t))
      serves_same c t k e = (k.0, k.1 ∙ ap (λ x. (ok x, t)) e)

  single-cons :
      (vector : List floats.F32) → (length vector == 0) ≡ false → single (vector ∷ []) ≡ ok vector
  unfolding single
  single-cons vector l = rw l refl

  retrieve_served :
      (version : Text) (user_id : ℕ) (stored : List (Chunk floats.F32)) (query : Text)
      (vector : List floats.F32) (top_k : ℕ) (t : D × R)
      → Serves user_id version stored t
      → user_id ≢ 0
      → is_empty (trim_space query) ≡ false
      → top_k ≢ 0
      → embed (trim_space query ∷ []) ≡ ok (vector ∷ [])
      → length vector ≢ 0
      → (retrieve floats embed to_lower documents chunks user_id query top_k t).0
        ≡ search_similar floats stored vector top_k
  unfolding retrieve current_chunks Serves
  retrieve_served version user_id stored query vector top_k t served u b n e l =
      let u' : (user_id == 0) ≡ false = ground arith in
      let n' : (top_k == 0) ≡ false = ground arith in
      let l' : (length vector == 0) ≡ false = ground arith in
      rw (u', b, n', served.0, served.1, e, single-cons vector l') refl

  -- After an Upload that succeeds, Retrieve gives what SearchSimilar finds for the query among the
  -- chunks of the document.
  pub retrieve-upload :
      (ended : Option Err) (version : Text) (user_id : ℕ) (filename : Text) (content : Content)
      (s : D × R) (document : Document floats.F32) (query : Text) (vector : List floats.F32)
      (top_k : ℕ)
      → keeps.InOrder user_id s.1
      → (upload floats embed to_lower documents chunks ended version user_id filename content s).0
        ≡ ok document
      → user_id ≢ 0
      → is_empty (trim_space query) ≡ false
      → top_k ≢ 0
      → embed (trim_space query ∷ []) ≡ ok (vector ∷ [])
      → length vector ≢ 0
      → let t =
          (upload floats embed to_lower documents chunks ended version user_id filename content
            s).1 in
        (retrieve floats embed to_lower documents chunks user_id query top_k t).0
        ≡ search_similar floats document.chunks vector top_k
  unfolding upload
  retrieve-upload ended version user_id filename content s document query vector top_k o h u b n e
        l =
      let prepared =
        prepare floats embed to_lower documents chunks ended user_id filename content tt in
      elim (Result-cases prepared.0) [
        | inr (f, p) ↦ let z = rw p at h in cc
        | inl (a, p) ↦
            let served = publish-Serves user_id version filename a.0 a.1 s document o (rw p at h) in
            rw p (
              retrieve_served version user_id document.chunks query vector top_k _ served u b n e l)
      ]
