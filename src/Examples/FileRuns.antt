-- ===== src/Examples/FileRuns.antt =====
-- Runs of the files of documents and of the publisher of jobs.
use gopher_agent_platform.Prelude.{
  ◌++◌, ℕ, Option, none, some, [], ◌∷◌, true, false, Bool, ◌&&◌, ◌≡◌, refl,
}
use gopher_agent_platform.Errors.{
  is, sentinel, context, document_not_found, publish_not_confirmed, publish_unroutable,
}
use gopher_agent_platform.Exec.{ok, err}
use gopher_agent_platform.Text.{text, byte_len}
use gopher_agent_platform.Rag.Service.{utf8}
use gopher_agent_platform.Rag.Files
use gopher_agent_platform.Rag.Stored.{load-save}
use gopher_agent_platform.Rag.Files.{Disk}
use gopher_agent_platform.Examples.JobRuns.{calm}
use gopher_agent_platform.Jobs.Publisher.{Broker, publish_chat_job}

abbrev empty_disk : Disk
empty_disk = record { files = λ _ _. none; answers = [] }

abbrev saved_disk : Disk
saved_disk =
    (Files.save (λ t. t) none 1 (text "v1") (text "notes.md") (utf8 (text "abc")) empty_disk).1

saved_loaded : (Files.load none 1 (text "v1") saved_disk).0 ≡ ok (text "abc", text "v1.md")
unfolding Files.save Files.load byte_len is
saved_loaded = refl

load-save_example :
    (Files.load none 1 (text "v1") saved_disk).0 ≡ ok (text "abc", text "v1" ++ text ".md")
unfolding Files.save byte_len
load-save_example =
    load-save (λ t. t) none 1 (text "v1") (text "notes.md") (text "abc") empty_disk refl refl refl

other_user_loads_nothing :
    (Files.load none 2 (text "v1") saved_disk).0 ≡ err (sentinel document_not_found)
unfolding Files.save Files.load byte_len is
other_user_loads_nothing = refl

deleted_not_loaded :
    (Files.load none 1 (text "v1") (Files.delete none 1 (text "v1") saved_disk).1).0
    ≡ err (sentinel document_not_found)
unfolding Files.save Files.load Files.delete byte_len is
deleted_not_loaded = refl

abbrev is_none : Option ℕ → Bool
is_none none = true
is_none (some code) = false

abbrev answering : Bool → Option ℕ → ℕ → Broker
answering acked code job_id = record {
  channel = ok tt;
  confirm = ok tt;
  publication = ok tt;
  wait = ok acked;
  returned = code;
  queued = acked && is_none code;
}

not_acked :
    (publish_chat_job (answering false none) 3 calm).0 ≡ err (sentinel publish_not_confirmed)
unfolding publish_chat_job
not_acked = refl

not_routed :
    publish_chat_job (answering true (some 312)) 3 calm
    ≡ (err (context (sentinel publish_unroutable)), calm)
unfolding publish_chat_job
not_routed = refl

queued_once : (publish_chat_job (answering true none) 3 calm).1.queue ≡ 3 ∷ []
unfolding publish_chat_job
queued_once = refl
