-- ===== src/Jobs/Repository.antt =====
-- internal/platform/postgresql/chat_jobs_repository.go: each method is one statement, with its own
-- error for an answer of no rows.
use gopher_agent_platform.Prelude.{ℕ, Option, none, some, if◌then◌else◌}
use gopher_agent_platform.Errors.{
  Sentinel, sentinel, wrap, context, is, no_rows, conversation_not_found, job_not_found,
  job_not_claimable, job_not_processing, job_not_completable, insert_chat_job_failed,
  get_chat_jobs_failed, claim_pending_chat_job_failed, update_chat_job_failed,
  complete_chat_job_failed, fail_chat_job_failed,
}
use gopher_agent_platform.Exec.{Result, ok, err, Exec, ◌>>=◌, pure, lift, attempt}
use gopher_agent_platform.Text.{Text}
use gopher_agent_platform.Database.Rows.{ChatJob}
use gopher_agent_platform.Database.{World, query_row, Statement}
use gopher_agent_platform.Jobs.Sql.{
  insert_pending_chat_job, get_chat_job, claim_pending_chat_job, retry_chat_job,
  ensure_chat_job_request_message,
}
use gopher_agent_platform.Jobs.Outcome.{
  get_completed_assistant_message_id, complete_chat_job, fail_chat_job,
}

-- `errors.Is(err, pgx.ErrNoRows)` gives one sentinel, and any other error is wrapped in another.
abbrev pub translate {ℓ} : {A : Type ℓ} → Sentinel → Sentinel → Result A → Result A
translate missing failure (ok a) = ok a
translate missing failure (err e) =
    if is e no_rows then err (sentinel missing) else err (wrap failure e)

unfoldable pub scan {ℓ} : {A : Type ℓ} → Statement A → Sentinel → Sentinel → Exec World A
scan m missing failure = do r ← attempt (query_row m); lift (translate missing failure r)

unfoldable pub create : ℕ → ℕ → Text → Exec World ChatJob
create user_id conversation_id content =
    scan (insert_pending_chat_job user_id conversation_id content) conversation_not_found
      insert_chat_job_failed

unfoldable pub get_by_id : ℕ → ℕ → Exec World ChatJob
get_by_id user_id job_id = scan (get_chat_job user_id job_id) job_not_found get_chat_jobs_failed

unfoldable pub claim_for_processing : ℕ → Exec World (ChatJob × ℕ)
claim_for_processing job_id =
    scan (claim_pending_chat_job job_id) job_not_claimable claim_pending_chat_job_failed

unfoldable pub retry : ℕ → Exec World (Unit {0})
retry job_id = do
  _ ← scan (retry_chat_job job_id) job_not_processing update_chat_job_failed
  pure tt

abbrev wrapped {ℓ} : {A : Type ℓ} → Result A → Result A
wrapped (ok a) = ok a
wrapped (err e) = err (context e)

unfoldable pub ensure_request_message : ℕ → ℕ → Exec World ℕ
ensure_request_message user_id job_id = do
  r ← attempt (query_row (ensure_chat_job_request_message user_id job_id))
  lift (wrapped r)

-- `(0, false, nil)` is `none`.
abbrev found_or_none : Result ℕ → Result (Option ℕ)
found_or_none (ok a) = ok (some a)
found_or_none (err e) = if is e no_rows then ok none else err (context e)

unfoldable pub find_completed_assistant_id : ℕ → ℕ → Exec World (Option ℕ)
find_completed_assistant_id user_id job_id = do
  r ← attempt (query_row (get_completed_assistant_message_id user_id job_id))
  lift (found_or_none r)

unfoldable pub complete : ℕ → ℕ → Exec World (Unit {0})
complete job_id assistant_message_id = do
  _ ←
      scan (complete_chat_job job_id assistant_message_id) job_not_completable
        complete_chat_job_failed
  pure tt

unfoldable pub fail : ℕ → Text → Exec World (Unit {0})
fail job_id error_code = do
  _ ← scan (fail_chat_job job_id error_code) job_not_processing fail_chat_job_failed
  pure tt
