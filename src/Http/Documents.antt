-- ===== src/Http/Documents.antt =====
-- internal/httpapi/rag_handler.go over the service of documents, whose stores are the state. A form is
-- read into the name and the bytes of its file; one that does not open or read is malformed.
use gopher_agent_platform.Prelude.{ℕ, Option, none, some, List, [], ◌∷◌, if◌then◌else◌, length}
use gopher_agent_platform.Errors.{
  Err, rag_invalid_user_id, rag_invalid_content, unsupported_document_type, invalid_encoding,
  document_too_large,
}
use gopher_agent_platform.Exec.{Result}
use gopher_agent_platform.Text.{Text, text}
use gopher_agent_platform.Rag.Retriever.{Floats}
use gopher_agent_platform.Rag.Service.{Content, Document, DocumentStore, ChunkRepository, upload}
use gopher_agent_platform.Http.Request.{
  Body, too_large, malformed, bound, RagUploadResponse, uploaded, Answer, refused, answered,
  login_first, internal_server_error, unbound_large, unbound, is_any,
}
use gopher_agent_platform.Http.Handlers.{settled}

-- The switch of Upload over an error of the service.
unfoldable upload_error : Err → Answer
upload_error e =
    if is_any e (
      rag_invalid_user_id ∷ rag_invalid_content ∷ unsupported_document_type ∷ invalid_encoding ∷ [])
    then unbound
    else if is_any e (document_too_large ∷ [])
    then refused 413 (text "REQUEST_TOO_LARGE") (text "request message is too large")
    else internal_server_error

abbrev upload_response : {F : Type 0} → Document F → RagUploadResponse
upload_response document = record {
  filename = document.filename;
  size = document.size;
  chunks = length document.chunks;
}

module _ (floats : Floats) (embed : List Text → Result (List (List floats.F32)))
    (to_lower : Text → Text) {D R : Type 0} (documents : DocumentStore D)
    (chunks : ChunkRepository floats.F32 R) (ended : Option Err) (version : Text) where
  abbrev upload_file : ℕ → Body (Text × Content) → D × R → Answer × (D × R)
  upload_file user_id too_large w = (unbound_large, w)
  upload_file user_id malformed w = (unbound, w)
  upload_file user_id (bound (filename, content)) w =
      let r =
        upload floats embed to_lower documents chunks ended version user_id filename content w in
      (
        settled upload_error (λ document. answered 201 (uploaded (upload_response document))) r.0,
        r.1,
      )

  -- RAGHandler.Upload
  unfoldable upload_document : Option ℕ → Body (Text × Content) → D × R → Answer × (D × R)
  unfolding upload_error upload
  upload_document none form w = (login_first, w)
  upload_document (some user_id) form w = upload_file user_id form w
