-- ===== src/Jobs/Sql.antt =====
-- internal/platform/postgresql/chat_jobs_sql.go, over the constraints of the migrations. A violated
-- constraint is the server's error, with its SQLSTATE.
use gopher_agent_platform.Prelude.{
  ℕ, suc, ◌+◌, Option, none, some, [], ◌∷◌, ◌++◌, if◌then◌else◌, ◌&&◌,
}
use gopher_agent_platform.Errors.{opaque}
use gopher_agent_platform.Exec.{ok, err}
use gopher_agent_platform.Text.{Text, is_empty}
use gopher_agent_platform.Database.Rows.{
  Message, role_user, ChatJob, JobStatus, Conversation, is_pending, is_processing,
}
use gopher_agent_platform.Database.Table.{
  conversation_key, message_key, chat_job_key, and_then, find, replace,
}
use gopher_agent_platform.Database.{Db, Statement, is_bigint, is_storable, reading, writing}
use gopher_agent_platform.Conversations.Sql.{owned_conversation}

abbrev pub check_violation : ℕ
check_violation = 23514

abbrev pub unique_violation : ℕ
unique_violation = 23505

-- The row of a job, written back.
abbrev pub write_job : ChatJob → Db → Db
write_job j db = record db { chat_jobs = replace j.id j db.chat_jobs }

abbrev pub new_job : Conversation → Text → Db → ChatJob
new_job c content db = record {
  id = db.next_chat_job;
  conversation_id = c.id;
  content = content;
  status = JobStatus.pending;
  request_message_id = none;
  assistant_message_id = none;
  error_code = none;
  attempt_count = 0;
  created_at = db.now;
  started_at = none;
  finished_at = none;
}

abbrev insert_job : Option Conversation → Text → Statement ChatJob
insert_job none content db = (ok none, db)
insert_job (some c) content db = if is_empty content then (err (opaque check_violation), db) else (
  ok (some (new_job c content db)),
  record db {
    chat_jobs = db.chat_jobs ++ new_job c content db ∷ [];
    next_chat_job = suc db.next_chat_job;
  },
)

-- InsertPendingChatJob
unfoldable pub insert_pending_chat_job : ℕ → ℕ → Text → Statement ChatJob
insert_pending_chat_job user_id conversation_id content db =
    writing (is_bigint user_id && is_bigint conversation_id && is_storable content)
      (insert_job (owned_conversation db user_id conversation_id) content) db

-- A job joined with the conversation of a user.
unfoldable pub owned_job : Db → ℕ → ℕ → Option ChatJob
owned_job db user_id job_id =
    and_then (find job_id db.chat_jobs)
      (λ j. and_then (owned_conversation db user_id j.conversation_id) (λ _. some j))

-- GetChatJobByIDAndUserID
unfoldable pub get_chat_job : ℕ → ℕ → Statement ChatJob
get_chat_job user_id job_id db =
    (reading (is_bigint job_id && is_bigint user_id) (ok (owned_job db user_id job_id)), db)

-- The columns that ClaimPendingChatJob sets.
abbrev pub claimed : ℕ → ChatJob → ChatJob
claimed now j = record j {
  status = JobStatus.processing;
  started_at = some now;
  attempt_count = j.attempt_count + 1;
}

-- The rows that match `j.id = $1 AND j.status = 'pending' AND c.id = j.conversation_id`.
abbrev claimable : Db → ℕ → Option (ChatJob × ℕ)
claimable db job_id = and_then (find job_id db.chat_jobs) (λ j.
    and_then (find j.conversation_id db.conversations)
      (λ c. if is_pending j.status then some (j, c.user_id) else none))

abbrev claim_found : Option (ChatJob × ℕ) → Statement (ChatJob × ℕ)
claim_found none db = (ok none, db)
claim_found (some (j, user_id)) db =
    (ok (some (claimed db.now j, user_id)), write_job (claimed db.now j) db)

-- ClaimPendingChatJob
unfoldable pub claim_pending_chat_job : ℕ → Statement (ChatJob × ℕ)
claim_pending_chat_job job_id db = claim_found (claimable db job_id) db

-- The row that `WHERE id = $1 AND status = 'processing'` selects.
abbrev pub processing_job : Db → ℕ → Option ChatJob
processing_job db job_id =
    and_then (find job_id db.chat_jobs) (λ j. if is_processing j.status then some j else none)

abbrev pub retried : ChatJob → ChatJob
retried j = record j { status = JobStatus.pending; started_at = none }

abbrev retry_found : Option ChatJob → Statement ℕ
retry_found none db = (ok none, db)
retry_found (some j) db = (ok (some j.id), write_job (retried j) db)

-- RetryChatJob
unfoldable pub retry_chat_job : ℕ → Statement ℕ
retry_chat_job job_id db = retry_found (processing_job db job_id) db

-- The user message that a job asks with, and the binding of the job to it.
abbrev pub request_message : ChatJob → Db → Message
request_message j db = record {
  id = db.next_message;
  conversation_id = j.conversation_id;
  role = role_user;
  content = j.content;
  created_at = db.now;
}

abbrev bind_message : Option ℕ → ChatJob → Statement ℕ
bind_message (some m) j db = (ok (some m), db)
bind_message none j db = (
  ok (some db.next_message),
  record db {
    messages = db.messages ++ request_message j db ∷ [];
    next_message = suc db.next_message;
    chat_jobs = replace j.id (record j { request_message_id = some db.next_message }) db.chat_jobs;
  },
)

abbrev ensure_found : Option ChatJob → Statement ℕ
ensure_found none db = (ok none, db)
ensure_found (some j) db = bind_message j.request_message_id j db

-- EnsureChatJobRequestMessage; the job is locked by FOR UPDATE, so the parts are one step.
unfoldable pub ensure_chat_job_request_message : ℕ → ℕ → Statement ℕ
ensure_chat_job_request_message user_id job_id db =
    ensure_found
      (and_then (owned_job db user_id job_id)
        (λ j. if is_processing j.status then some j else none))
      db
