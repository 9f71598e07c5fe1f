-- ===== src/Examples/SearchRuns.antt =====
-- The theorems about the search of documents at vectors of one natural number.
use gopher_agent_platform.Prelude.{
  Bool, not, ◌&&◌, ℕ, ◌≢◌, All, length, ◌+◌, ◌*◌, ◌/◌, ◌≡◌, refl, subst, none, List, [], ◌∷◌, arith,
  ltb, ◌==◌, inl,
}
use gopher_agent_platform.Errors.{opaque}
use gopher_agent_platform.Exec.{Result, ok, err}
use gopher_agent_platform.Text.{Text, text, trim_space, byte_len, decimal}
use gopher_agent_platform.Redis.Memory.{memory, no_keys}
use gopher_agent_platform.Rag.Chunker.{Chunk, split_text, split_from}
use gopher_agent_platform.Rag.Retriever.{
  Floats, search_similar, score, calc_similarity, sort_stable,
}
use gopher_agent_platform.Rag.Sorting.{IsFloatOrder}
use gopher_agent_platform.Rag.Ranking.{IsBest, search_similar-IsBest}
use gopher_agent_platform.Rag.Service.{
  utf8, Document, DocumentStore, upload, prepare, publish, retrieve, ext, with_vectors,
}
use gopher_agent_platform.Rag.Store.{
  Storage, check_chunks, valid_version, replace, activate, activate_script,
}
use gopher_agent_platform.Openai.Embedding
use gopher_agent_platform.Openai.Embedding.{Datum, pos}
use gopher_agent_platform.Openai.Uniform.{embed_uniform}
use gopher_agent_platform.Rag.Published.{Step, IsPublished, run, run-IsPublished}
use gopher_agent_platform.Rag.Activation.{redis_chunks, redis_retrieve-upload}

-- Natural numbers in the place of floats; what is compared is the size of the first component.
abbrev naturals : Floats
naturals = record {
  F32 = ℕ;
  F64 = ℕ;
  widen = λ a. a;
  narrow = λ a. a;
  zero64 = 0;
  add = λ a b. a + b;
  mul = λ a b. a * b;
  div = λ a b. a / b;
  sqrt = λ a. 1;
  is_zero = λ a. a == 0;
  greater = λ a b. ltb b a;
}

-- Codes of floats, where 255 is NaN: nothing is greater than it, and it is greater than nothing.
abbrev is_nan : ℕ → Bool
is_nan n = n == 255

abbrev codes : Floats
codes = record naturals { greater = λ a b. not (is_nan a) && not (is_nan b) && ltb b a }

unfoldable codes-IsFloatOrder : IsFloatOrder codes
codes-IsFloatOrder = record {
  is_nan = is_nan;
  asym = λ a b p. ground arith;
  trans = λ a b c n p q. ground arith;
}

abbrev piece : ℕ → ℕ → Chunk ℕ
piece i v = record { index = i; content = text "a piece"; vector = v ∷ [] }

abbrev pieces : List (Chunk ℕ)
pieces = piece 0 2 ∷ piece 1 7 ∷ piece 2 5 ∷ []

searched : search_similar codes pieces (3 ∷ []) 2 ≡ ok (piece 1 7 ∷ piece 2 5 ∷ [])
unfolding search_similar score calc_similarity sort_stable
searched = refl

search_similar-IsBest_example :
    IsBest codes codes-IsFloatOrder pieces (3 ∷ []) 2 (piece 1 7 ∷ piece 2 5 ∷ [])
unfolding calc_similarity codes-IsFloatOrder
search_similar-IsBest_example =
    search_similar-IsBest codes codes-IsFloatOrder pieces (3 ∷ []) 2 _
      ((λ x p. ground (arith, p)), ((λ x p. ground (arith, p)), ((λ x p. ground (arith, p)), tt)))
      searched

-- A writer of lists of one chunk with one component.
abbrev write_one : ℕ → Text → List ℕ → Result Text
write_one i content [] = err (opaque 1)
write_one i content (v ∷ []) = ok (i ∷ v ∷ content)
write_one i content (v ∷ w ∷ vs) = err (opaque 1)

abbrev write : List (Chunk ℕ) → Result Text
write [] = err (opaque 1)
write (c ∷ []) = write_one c.index c.content c.vector
write (c ∷ d ∷ cs) = err (opaque 1)

abbrev read : Text → Result (List (Chunk ℕ))
read (i ∷ v ∷ content) = ok (record { index = i; content = content; vector = v ∷ [] } ∷ [])
read (i ∷ []) = err (opaque 1)
read [] = err (opaque 1)

read-write_one :
    (i : ℕ) (content : Text) (vs : List ℕ) (t : Text)
    → write_one i content vs ≡ ok t
    → read t ≡ ok (record { index = i; content = content; vector = vs } ∷ [])
read-write_one i content [] t h = cc
read-write_one i content (v ∷ []) t h =
    let e : (i ∷ v ∷ content) ≡ t = cc in
    subst (λ x. read x ≡ ok (record { index = i; content = content; vector = v ∷ [] } ∷ [])) e refl
read-write_one i content (v ∷ w ∷ vs) t h = cc

read-write : (cs : List (Chunk ℕ)) (t : Text) → write cs ≡ ok t → read t ≡ ok cs
read-write [] t h = cc
read-write (c ∷ []) t h = read-write_one c.index c.content c.vector t h
read-write (c ∷ d ∷ cs) t h = cc

abbrev storage : Storage ℕ
storage = record {
  redis = memory;
  marshal = write;
  unmarshal = read;
  unmarshal-marshal = read-write;
}

-- A store that takes everything.
abbrev documents : DocumentStore (Unit {0})
documents = record {
  save = λ u v f d s. (ok tt, s);
  load = λ u v s. (ok ([], []), s);
  delete = λ u v s. (ok tt, s);
}

abbrev embed_fours : List Text → Result (List (List ℕ))
embed_fours [] = ok []
embed_fours (t ∷ ts) = ok ((4 ∷ []) ∷ [])

abbrev uploaded : Document ℕ
uploaded = record {
  version = text "v1";
  filename = text "notes.md";
  size = 6;
  chunks = record { index = 0; content = text "gopher"; vector = 4 ∷ [] } ∷ [];
}

uploads :
    (upload naturals embed_fours
      (λ t. t)
      documents
      (redis_chunks storage none)
      none
      (text "v1")
      7
      (text "notes.md")
      (utf8 (text "gopher"))
      (tt, no_keys)).0
    ≡ ok uploaded
unfolding upload prepare publish ext with_vectors split_text split_from replace activate
    activate_script check_chunks valid_version decimal byte_len
uploads = refl

not_blank : trim_space (text "go?") ≡ text "go?"
unfolding trim_space
not_blank = refl

redis_retrieve-upload_example :
    let t =
      (upload naturals embed_fours
        (λ t. t)
        documents
        (redis_chunks storage none)
        none
        (text "v1")
        7
        (text "notes.md")
        (utf8 (text "gopher"))
        (tt, no_keys)).1 in
    (retrieve naturals embed_fours
      (λ t. t)
      documents
      (redis_chunks storage none)
      7
      (text "go?")
      3
      t).0
    ≡ search_similar naturals uploaded.chunks (4 ∷ []) 3
redis_retrieve-upload_example =
    redis_retrieve-upload naturals embed_fours (λ t. t) documents storage none (text "v1") 7
      (text "notes.md") (utf8 (text "gopher")) (tt, no_keys) uploaded (text "go?") (4 ∷ []) 3
      (inl refl) uploads (omega arith) (rw not_blank refl) (omega arith) refl (omega arith)

abbrev steps : List (Step storage 7)
steps =
    Step.replaced none (text "v1") uploaded.chunks
    ∷ Step.activated_to (text "v1")
    ∷ Step.elapsed 99000000
    ∷ []

run-IsPublished_example : IsPublished storage 7 (run storage 7 steps no_keys)
run-IsPublished_example =
    run-IsPublished storage 7 steps no_keys ((λ c at. absurd (cc (at.pointer))), (tt, (tt, tt)))
      (inl refl)

-- An SDK that answers each text by its length, and two texts in the other order.
abbrev created : List Text → Result (List (Datum ℕ))
created (a ∷ b ∷ []) = ok (
    record { index = pos 1; embedding = length b ∷ [] }
    ∷ record { index = pos 0; embedding = length a ∷ [] }
    ∷ [])
created texts = err (opaque 1)

embeds :
    Embedding.embed (λ n. n) created (text "go" ∷ text "chat" ∷ []) ≡ ok ((2 ∷ []) ∷ (4 ∷ []) ∷ [])
unfolding Embedding.embed Embedding.embed_from Embedding.embed_batch Embedding.fill
    Embedding.same_dimension Embedding.check_dimension trim_space
embeds = refl

embed_uniform_example :
    (length {A = List ℕ} ((2 ∷ []) ∷ (4 ∷ []) ∷ []) ≡ 2)
    × ((n : ℕ) × (n ≢ 0) × All (λ (v : List ℕ). length v ≡ n) ((2 ∷ []) ∷ (4 ∷ []) ∷ []))
embed_uniform_example =
    embed_uniform (λ n. n) created (text "go" ∷ text "chat" ∷ []) ((2 ∷ []) ∷ (4 ∷ []) ∷ []) embeds
