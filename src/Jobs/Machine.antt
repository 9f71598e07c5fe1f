-- ===== src/Jobs/Machine.antt =====
-- The state machine of the comment in internal/chatjob/repository.go, as a relation between rows, and
-- the statements on chat_jobs as the operations of any number of workers.
use gopher_agent_platform.Prelude.{ℕ, ◌+◌, ◌≡◌, false, Option, none, some, List, [], ◌∷◌}
use gopher_agent_platform.Text.{Text, is_empty}
use gopher_agent_platform.Database.Rows.{ChatJob, JobStatus}
use gopher_agent_platform.Database.Table.{chat_job_key, conversation_key, message_key, find}
use gopher_agent_platform.Database.{Db}
use gopher_agent_platform.Jobs.Sql.{
  insert_pending_chat_job, claim_pending_chat_job, retry_chat_job, ensure_chat_job_request_message,
}
use gopher_agent_platform.Jobs.Outcome.{complete_chat_job, fail_chat_job}

-- The statements that write, with their arguments.
pub data Op : Type 0 where
  insert : ℕ → ℕ → Text → Op
  claim : ℕ → Op
  retry : ℕ → Op
  ensure : ℕ → ℕ → Op
  complete : ℕ → ℕ → Op
  fail : ℕ → Text → Op

-- One edge of the machine, with the statement that makes it and every column that it sets. `bind` is EnsureRequestMessage, which
-- leaves the status.
pub data JobStep (o : Op) (j : ChatJob) : ChatJob → Type 0 where
  claim :
      (now : ℕ)
      → o ≡ Op.claim j.id
      → j.status ≡ JobStatus.pending
      → JobStep o j (record j {
        status = JobStatus.processing;
        started_at = some now;
        attempt_count = j.attempt_count + 1;
      })
  retry :
      o ≡ Op.retry j.id
      → j.status ≡ JobStatus.processing
      → JobStep o j (record j { status = JobStatus.pending; started_at = none })
  bind :
      (u m : ℕ)
      → o ≡ Op.ensure u j.id
      → j.status ≡ JobStatus.processing
      → j.request_message_id ≡ none
      → JobStep o j (record j { request_message_id = some m })
  complete :
      (now m : ℕ)
      → o ≡ Op.complete j.id m
      → j.status ≡ JobStatus.processing
      → JobStep o j (record j {
        status = JobStatus.completed;
        assistant_message_id = some m;
        error_code = none;
        finished_at = some now;
      })
  fail :
      (now : ℕ) (code : Text)
      → o ≡ Op.fail j.id code
      → j.status ≡ JobStatus.processing
      → is_empty code ≡ false
      → JobStep o j (record j {
        status = JobStatus.failed;
        assistant_message_id = none;
        error_code = some code;
        finished_at = some now;
      })

-- A row as InsertPendingChatJob makes it.
pub record IsNew (j : ChatJob) : Type 0 where
  pub pending : j.status ≡ JobStatus.pending
  pub unbound : j.request_message_id ≡ none
  pub unanswered : j.assistant_message_id ≡ none
  pub no_error : j.error_code ≡ none
  pub untried : j.attempt_count ≡ 0
  pub unstarted : j.started_at ≡ none
  pub unfinished : j.finished_at ≡ none

-- What one statement did to one job.
pub data Effect (o : Op) (before : Option ChatJob) : Option ChatJob → Type 0 where
  unchanged : Effect o before before
  created : {j : ChatJob} → before ≡ none → IsNew j → Effect o before (some j)
  stepped : {j k : ChatJob} → before ≡ some j → JobStep o j k → Effect o before (some k)

-- The database after a statement, whichever worker sends it.
unfoldable pub apply : Op → Db → Db
apply (Op.insert u c content) db = (insert_pending_chat_job u c content db).1
apply (Op.claim i) db = (claim_pending_chat_job i db).1
apply (Op.retry i) db = (retry_chat_job i db).1
apply (Op.ensure u i) db = (ensure_chat_job_request_message u i db).1
apply (Op.complete i m) db = (complete_chat_job i m db).1
apply (Op.fail i code) db = (fail_chat_job i code db).1

unfoldable pub run : List Op → Db → Db
run [] db = db
run (o ∷ os) db = run os (apply o db)

abbrev pub row : ℕ → Db → Option ChatJob
row i db = find i db.chat_jobs
