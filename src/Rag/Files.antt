-- ===== src/Rag/Files.antt =====
-- internal/platform/filesystem/rag_store.go. Each call of package os takes the next answer of the file
-- system, an error or none; a call whose answer the code ignores takes none. A file stands under its user and its name; the temporary file, which is
-- removed whatever happens, is not seen.
use gopher_agent_platform.Prelude.{
  ℕ, Bool, not, Option, none, some, List, [], ◌∷◌, ◌++◌, if◌then◌else◌, ltb, ◌==◌, ◌&&◌, any,
}
use gopher_agent_platform.Errors.{
  Err, sentinel, context, join, is, store_invalid_user_id, store_invalid_version, empty_document,
  document_too_large, unsupported_document_type, document_not_found, not_exist,
}
use gopher_agent_platform.Exec.{
  Result, ok, err, Exec, ◌>>=◌, ◌>>◌, pure, raise, fail, lift, attempt, reject_if,
}
use gopher_agent_platform.Text.{Text, text, text_eq, is_empty}
use gopher_agent_platform.Rag.Store.{alive}
use gopher_agent_platform.Rag.Service.{
  Content, utf8, content_len, decoded, ext, is_supported, max_document_bytes, DocumentStore,
}

-- The files by user and name, and the answers that the calls of os have ahead.
pub record Disk : Type 0 where
  pub files : ℕ → Text → Option Text
  pub answers : List (Option Err)

abbrev next : List (Option Err) → Result (Unit {0})
next [] = ok tt
next (none ∷ more) = ok tt
next (some e ∷ more) = err e

abbrev rest : List (Option Err) → List (Option Err)
rest [] = []
rest (a ∷ more) = more

-- A call of os that changes nothing that is seen.
abbrev system_call : Exec Disk (Unit {0})
system_call d = (next d.answers, record d { answers = rest d.answers })

abbrev put : (ℕ → Text → Option Text) → ℕ → Text → Option Text → ℕ → Text → Option Text
put files user name content u n = if u == user && text_eq n name then content else files u n

abbrev renamed : Result (Unit {0}) → ℕ → Text → Text → Disk → Disk
renamed (ok _) user name content d = record d { files = put d.files user name (some content) }
renamed (err e) user name content d = d

-- `os.Rename` of the temporary file, which replaces the document at once.
abbrev rename : ℕ → Text → Text → Exec Disk (Unit {0})
rename user name content d = (
  next d.answers,
  renamed (next d.answers) user name content (record d { answers = rest d.answers }),
)

abbrev found : Result (Unit {0}) → Option Text → Result Text
found (err e) file = err e
found (ok _) none = err (sentinel not_exist)
found (ok _) (some content) = ok content

-- `os.ReadFile`
abbrev read_file : ℕ → Text → Exec Disk Text
read_file user name d =
    (found (next d.answers) (d.files user name), record d { answers = rest d.answers })

abbrev removed : Result (Unit {0}) → Option Text → ℕ → Text → Disk → Result (Unit {0}) × Disk
removed (err e) file user name d = (err e, d)
removed (ok _) none user name d = (err (sentinel not_exist), d)
removed (ok _) (some content) user name d = (ok tt, record d { files = put d.files user name none })

-- `os.Remove`
abbrev remove : ℕ → Text → Exec Disk (Unit {0})
remove user name d =
    removed (next d.answers) (d.files user name) user name (record d { answers = rest d.answers })

abbrev trim_slashes : Text → Text
trim_slashes [] = []
trim_slashes (c ∷ s) = let end = trim_slashes s in if c == b'/' && is_empty end then [] else c ∷ end

abbrev after_slash : Text → Text
after_slash [] = []
after_slash (c ∷ s) =
    let end = after_slash s in
    if any (λ d. d == b'/') s then end else if c == b'/' then s else c ∷ s

-- `filepath.Base`
unfoldable base : Text → Text
base path =
    if is_empty path
    then text "."
    else if is_empty (trim_slashes path)
    then text "/"
    else after_slash (trim_slashes path)

unfoldable pub valid_version : Text → Bool
unfolding base
valid_version version =
    not (is_empty version)
    && text_eq (base version) version
    && not (text_eq version (text "."))
    && not (text_eq version (text ".."))

abbrev wrapped : Result (Unit {0}) → Result (Unit {0})
wrapped (ok _) = ok tt
wrapped (err e) = err (context e)

abbrev made_directory : Exec Disk (Unit {0})
made_directory d = (wrapped (system_call d).0, (system_call d).1)

-- Save, with `ctx.Err()`: the directory, the temporary file, its text, its end and the new name.
unfoldable pub save : (Text → Text) → Option Err → ℕ → Text → Text → Content → Exec Disk (Unit {0})
unfolding valid_version ext
save to_lower ended user version filename content = do
  reject_if (user == 0) store_invalid_user_id
  reject_if (not (valid_version version)) store_invalid_version
  reject_if (content_len content == 0) empty_document
  reject_if (ltb max_document_bytes (content_len content)) document_too_large
  document ← lift (decoded content)
  lift (alive ended)
  let kind = to_lower (ext filename)
  reject_if (not (is_supported kind)) unsupported_document_type
  made_directory
  system_call
  system_call
  system_call
  rename user (version ++ kind) document

abbrev or_next : Text → Result Text → Exec Disk (Text × Text) → Exec Disk (Text × Text)
or_next name (ok content) others = pure (content, name)
or_next name (err e) others = if not (is e not_exist) then raise (context e) else others

-- The loop of Load over the two names.
unfoldable pub load_first : ℕ → List Text → Exec Disk (Text × Text)
load_first user [] = fail document_not_found
load_first user (name ∷ names) = do
  r ← attempt (read_file user name)
  or_next name r (load_first user names)

abbrev candidates : Text → List Text
candidates version = (version ++ text ".txt") ∷ (version ++ text ".md") ∷ []

-- Load
unfoldable pub load : Option Err → ℕ → Text → Exec Disk (Text × Text)
unfolding valid_version load_first
load ended user version = do
  reject_if (user == 0) store_invalid_user_id
  reject_if (not (valid_version version)) store_invalid_version
  lift (alive ended)
  load_first user (candidates version)

-- `errors.Join` of the errors so far and the next.
abbrev joined : Option Err → Result (Unit {0}) → Option Err
joined errs (ok _) = errs
joined none (err e) = if is e not_exist then none else some (context e)
joined (some f) (err e) = if is e not_exist then some f else some (join f e)

abbrev as_result : Option Err → Result (Unit {0})
as_result none = ok tt
as_result (some e) = err e

unfoldable delete_all : Option Err → ℕ → List Text → Exec Disk (Unit {0})
delete_all errs user [] = lift (as_result errs)
delete_all errs user (name ∷ names) = do
  r ← attempt (remove user name)
  delete_all (joined errs r) user names

-- Delete
unfoldable pub delete : Option Err → ℕ → Text → Exec Disk (Unit {0})
unfolding valid_version delete_all
delete ended user version = do
  reject_if (user == 0) store_invalid_user_id
  reject_if (not (valid_version version)) store_invalid_version
  lift (alive ended)
  delete_all none user (candidates version)

-- RAGStore as the service takes it.
abbrev pub disk_documents : (Text → Text) → Option Err → DocumentStore Disk
disk_documents to_lower ended = record {
  save =
      λ user version filename document. save to_lower ended user version filename (utf8 document);
  load = load ended;
  delete = delete ended;
}
