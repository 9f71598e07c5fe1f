-- ===== src/Rag/Store.antt =====
-- internal/platform/redis/rag_repository.go over a connection that works: the chunks of each version of
-- a user's document, and the version that is current. encoding/json is a parameter.
use gopher_agent_platform.Prelude.{
  ℕ, ◌*◌, ◌≡◌, Bool, true, false, not, Option, none, some, List, [], ◌∷◌, ◌++◌, if◌then◌else◌, ◌==◌,
  ◌&&◌, ◌||◌, length, any,
}
use gopher_agent_platform.Errors.{
  Err, sentinel, opaque, context, rag_invalid_user_id, invalid_version, empty_chunk,
  empty_chunk_content, empty_chunk_vector, invalid_chunk_vector, chunks_not_found,
}
use gopher_agent_platform.Exec.{Result, ok, err, Exec, ◌>>=◌, ◌>>◌, lift, reject_if}
use gopher_agent_platform.Text.{Text, text, text_eq, is_empty, decimal}
use gopher_agent_platform.Redis.{Redis, Entry, Value, str, num}
use gopher_agent_platform.Rag.Chunker.{Chunk}

abbrev pub current_version_suffix : Text
current_version_suffix = text "current"

-- 24 hours in seconds, and in the milliseconds of SET.
abbrev pub previous_version_ttl : ℕ
previous_version_ttl = 86400

abbrev pub staging_version_ttl : ℕ
staging_version_ttl = 86400 * 1000

-- The runes `:`, `/` and the backslash.
abbrev is_separator : ℕ → Bool
is_separator c = c == 58 || c == 47 || c == 92

unfoldable pub valid_version : Text → Bool
valid_version version =
    not (is_empty version)
    && not (text_eq version (text "."))
    && not (text_eq version (text ".."))
    && not (text_eq version current_version_suffix)
    && not (any is_separator version)

-- What GET gives for a value.
abbrev pub text_of : Value → Text
text_of (str t) = t
text_of (num n) = decimal n

abbrev pub exists : Option Entry → Bool
exists none = false
exists (some e) = true

-- `previous or ""`
abbrev pub previous_of : Option Entry → Text
previous_of none = []
previous_of (some e) = text_of e.value

-- `ctx.Err()`
abbrev pub alive : Option Err → Result (Unit {0})
alive none = ok tt
alive (some e) = err e

module _ {F : Type 0} where
  -- The loop of Replace, from the second chunk on: `size` is that of the vector before.
  unfoldable pub check_chunks : ℕ → List (Chunk F) → Result (Unit {0})
  check_chunks size [] = ok tt
  check_chunks size (chunk ∷ chunks) =
      let rest = check_chunks size chunks in
      if is_empty chunk.content
      then err (sentinel empty_chunk_content)
      else if length chunk.vector == 0
      then err (sentinel empty_chunk_vector)
      else if not (length chunk.vector == size)
      then err (sentinel invalid_chunk_vector)
      else rest

  -- The size of the first vector, with which that vector itself is in order.
  abbrev pub first_size : List (Chunk F) → ℕ
  first_size [] = 0
  first_size (chunk ∷ chunks) = length chunk.vector

-- The server, and how encoding/json writes and reads a list of chunks.
pub record Storage (F : Type 0) : Type 1 where
  pub redis : Redis
  pub marshal : List (Chunk F) → Result Text
  pub unmarshal : Text → Result (List (Chunk F))
  pub unmarshal-marshal :
      (chunks : List (Chunk F)) (t : Text) → marshal chunks ≡ ok t → unmarshal t ≡ ok chunks

module _ {F : Type 0} (storage : Storage F) where
  open storage use {redis, marshal, unmarshal}

  abbrev pub Store : Type 0
  Store = redis.State

  abbrev pub user_prefix : ℕ → Text
  user_prefix user_id = text "gopherai:rag:chunks:" ++ decimal user_id ++ text ":"

  -- versionKey and currentKey
  abbrev pub version_key : ℕ → Text → Text
  version_key user_id version = user_prefix user_id ++ version

  abbrev pub current_key : ℕ → Text
  current_key user_id = user_prefix user_id ++ current_version_suffix

  abbrev set_of : ℕ → Text → Text → Exec Store (Unit {0})
  set_of user_id version bytes s =
      (ok tt, redis.set_px s (version_key user_id version) bytes staging_version_ttl)

  -- An error of a library in the context of the call.
  abbrev pub in_context {ℓ} : {A : Type ℓ} → Result A → Result A
  in_context (ok a) = ok a
  in_context (err e) = err (context e)

  -- Replace: `ended` is `ctx.Err()`.
  unfoldable pub replace : Option Err → ℕ → Text → List (Chunk F) → Exec Store (Unit {0})
  unfolding valid_version check_chunks
  replace ended user_id version chunks = do
    lift (alive ended)
    reject_if (user_id == 0) rag_invalid_user_id
    reject_if (not (valid_version version)) invalid_version
    reject_if (length chunks == 0) empty_chunk
    lift (check_chunks (first_size chunks) chunks)
    bytes ← lift (in_context (marshal chunks))
    set_of user_id version bytes

  abbrev decoded : Option Entry → Result (List (Chunk F))
  decoded none = err (sentinel chunks_not_found)
  decoded (some e) = in_context (unmarshal (text_of e.value))

  unfoldable pub list : ℕ → Text → Exec Store (List (Chunk F))
  unfolding valid_version decimal
  list user_id version s =
      if user_id == 0
      then (err (sentinel rag_invalid_user_id), s)
      else if not (valid_version version)
      then (err (sentinel invalid_version), s)
      else (decoded (redis.entry s (version_key user_id version)), s)

  unfoldable pub delete : ℕ → Text → Exec Store (Unit {0})
  unfolding valid_version
  delete user_id version s =
      if user_id == 0
      then (err (sentinel rag_invalid_user_id), s)
      else if not (valid_version version)
      then (err (sentinel invalid_version), s)
      else (ok tt, redis.del s (version_key user_id version))

  abbrev pub checked_version : Option Entry → Result Text
  checked_version none = err (sentinel chunks_not_found)
  checked_version (some e) =
      if not (valid_version (text_of e.value))
      then err (sentinel invalid_version)
      else ok (text_of e.value)

  unfoldable pub current_version : ℕ → Exec Store Text
  unfolding valid_version decimal
  current_version user_id s =
      if user_id == 0
      then (err (sentinel rag_invalid_user_id), s)
      else (checked_version (redis.entry s (current_key user_id)), s)

  abbrev pub expire_previous : ℕ → Text → Option Entry → Store → Store
  expire_previous user_id version none s = s
  expire_previous user_id version (some e) s =
      if text_eq (text_of e.value) version
      then s
      else redis.pexpire s (version_key user_id (text_of e.value)) (previous_version_ttl * 1000)

  -- activateScript, which no other command interrupts.
  unfoldable pub activate_script : ℕ → Text → Exec Store Text
  unfolding decimal
  activate_script user_id version s =
      let previous = redis.entry s (current_key user_id) in
      let persisted = redis.persist s (version_key user_id version) in
      let switched = redis.set persisted (current_key user_id) version in
      if not (exists (redis.entry s (version_key user_id version)))
      then (err (context (opaque 0)), s)
      else (ok (previous_of previous), expire_previous user_id version previous switched)

  unfoldable pub activate : ℕ → Text → Exec Store Text
  unfolding valid_version activate_script
  activate user_id version s =
      if user_id == 0
      then (err (sentinel rag_invalid_user_id), s)
      else if not (valid_version version)
      then (err (sentinel invalid_version), s)
      else activate_script user_id version s
