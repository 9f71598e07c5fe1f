-- ===== src/Jobs/Outcome.antt =====
-- The statements of internal/platform/postgresql/chat_jobs_sql.go that look for a finished answer
-- and that end a job.
use gopher_agent_platform.Prelude.{
  ℕ, Bool, true, false, not, Option, none, some, List, [], ◌∷◌, ◌==◌, ltb, ◌&&◌, ◌||◌,
  if◌then◌else◌, any,
}
use gopher_agent_platform.Errors.{opaque}
use gopher_agent_platform.Exec.{ok, err}
use gopher_agent_platform.Text.{Text, is_empty}
use gopher_agent_platform.Database.Rows.{
  Message, ModelCall, ChatJob, JobStatus, is_processing, is_completed, is_role_assistant,
}
use gopher_agent_platform.Database.Table.{message_key, chat_job_key, and_then, find}
use gopher_agent_platform.Database.{Db, Statement}
use gopher_agent_platform.Jobs.Sql.{
  owned_job, processing_job, write_job, check_violation, unique_violation,
}

abbrev pub same_id : Option ℕ → ℕ → Bool
same_id none m = false
same_id (some n) m = n == m

-- NULL sorts above every value.
abbrev later : Option ℕ → Option ℕ → Bool
later none none = false
later none (some b) = true
later (some a) none = false
later (some a) (some b) = ltb b a

abbrev same_time : Option ℕ → Option ℕ → Bool
same_time none none = true
same_time none (some b) = false
same_time (some a) none = false
same_time (some a) (some b) = a == b

-- ORDER BY finished_at DESC, id DESC
abbrev finished_later : ModelCall → ModelCall → Bool
finished_later a b =
    later a.finished_at b.finished_at || (same_time a.finished_at b.finished_at && ltb b.id a.id)

-- `mc.status = 'completed' AND mc.assistant_message_id IS NOT NULL`, joined to the job.
abbrev pub answers : ChatJob → ModelCall → Option ℕ
answers j c =
    if is_completed c.status
      && c.conversation_id == j.conversation_id
      && same_id j.request_message_id c.request_message_id
    then c.assistant_message_id
    else none

abbrev keep_latest : Option ℕ → ModelCall → Option (ModelCall × ℕ) → Option (ModelCall × ℕ)
keep_latest none c best = best
keep_latest (some a) c none = some (c, a)
keep_latest (some a) c (some (d, b)) = if finished_later c d then some (c, a) else some (d, b)

-- The first row of the ordered answer, with LIMIT 1.
unfoldable pub latest_answer : ChatJob → List ModelCall → Option (ModelCall × ℕ)
latest_answer j [] = none
latest_answer j (c ∷ cs) = keep_latest (answers j c) c (latest_answer j cs)

-- GetCompletedAssistantMessageIDByChatJob
unfoldable pub get_completed_assistant_message_id : ℕ → ℕ → Statement ℕ
get_completed_assistant_message_id user_id job_id db = (
  ok (
      and_then (owned_job db user_id job_id) (λ j.
        if is_processing j.status
        then and_then (latest_answer j db.model_calls) (λ p. some p.1)
        else none)),
  db,
)

abbrev pub completed_job : ℕ → ℕ → ChatJob → ChatJob
completed_job now message_id j = record j {
  status = JobStatus.completed;
  assistant_message_id = some message_id;
  error_code = none;
  finished_at = some now;
}

-- `m.id = $2 AND m.conversation_id = j.conversation_id AND m.role = 'assistant'`
abbrev pub is_answer : ChatJob → Message → Bool
is_answer j m = m.conversation_id == j.conversation_id && is_role_assistant m.role

abbrev completable : Db → ℕ → ℕ → Option ChatJob
completable db job_id message_id =
    and_then (processing_job db job_id)
      (λ j. and_then (find message_id db.messages) (λ m. if is_answer j m then some j else none))

-- The unique index on `assistant_message_id`, over the rows but that of the job itself.
abbrev pub taken_by_other : ℕ → ℕ → List ChatJob → Bool
taken_by_other job_id message_id jobs =
    any (λ j. not (j.id == job_id) && same_id j.assistant_message_id message_id) jobs

abbrev complete_found : ℕ → Option ChatJob → Statement ℕ
complete_found message_id none db = (ok none, db)
complete_found message_id (some j) db =
    if taken_by_other j.id message_id db.chat_jobs
    then (err (opaque unique_violation), db)
    else (ok (some j.id), write_job (completed_job db.now message_id j) db)

-- CompleteChatJob
unfoldable pub complete_chat_job : ℕ → ℕ → Statement ℕ
complete_chat_job job_id message_id db =
    complete_found message_id (completable db job_id message_id) db

abbrev pub failed_job : ℕ → Text → ChatJob → ChatJob
failed_job now error_code j = record j {
  status = JobStatus.failed;
  assistant_message_id = none;
  error_code = some error_code;
  finished_at = some now;
}

abbrev fail_found : Text → Option ChatJob → Statement ℕ
fail_found error_code none db = (ok none, db)
fail_found error_code (some j) db =
    if is_empty error_code
    then (err (opaque check_violation), db)
    else (ok (some j.id), write_job (failed_job db.now error_code j) db)

-- FailChatJob
unfoldable pub fail_chat_job : ℕ → Text → Statement ℕ
fail_chat_job job_id error_code db = fail_found error_code (processing_job db job_id) db
