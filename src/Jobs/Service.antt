-- ===== src/Jobs/Service.antt =====
-- internal/chatjob/service.go. `WithoutCancel` and the five-second limits of the clean-up contexts
-- are on the connection's side: a clean-up statement fails by a fault of its own.
use gopher_agent_platform.Prelude.{ℕ, Option, none, some, ◌==◌, ltb, if◌then◌else◌}
use gopher_agent_platform.Errors.{
  Err, sentinel, join, is, job_not_claimable, invalid_job_id, invalid_user_id,
  invalid_conversation_id, invalid_job_content, invalid_chat_result, deadline_exceeded,
}
use gopher_agent_platform.Exec.{
  Result, ok, err, Exec, ◌>>=◌, ◌>>◌, pure, raise, attempt, reject_if, join_result,
}
use gopher_agent_platform.Text.{Text, text, trim_space, is_empty}
use gopher_agent_platform.Database.Rows.{ChatJob}
use gopher_agent_platform.Database.{World}
use gopher_agent_platform.Chat.Model.{ChatResult}
use gopher_agent_platform.Jobs.Repository

abbrev pub chat_failed : Text
chat_failed = text "chat_failed"

abbrev pub invalid_chat_result_code : Text
invalid_chat_result_code = text "invalid_chat_result"

abbrev pub chat_timed_out : Text
chat_timed_out = text "chat_timed_out"

abbrev pub over_max_retry_time : Text
over_max_retry_time = text "over_max_retry_time"

abbrev pub complete_failed : Text
complete_failed = text "complete_failed"

-- `Publisher` of internal/chatjob/repository.go, which the broker's client implements.
abbrev pub Publisher : Type 0
Publisher = ℕ → Exec World (Unit {0})

-- `ChatProcessor`: user, conversation, request message. A nil result is `none`.
abbrev pub ChatProcessor : Type 0
ChatProcessor = ℕ → ℕ → ℕ → Exec World (Option ChatResult)

-- Service.Create
unfoldable pub create : Publisher → ℕ → ℕ → Text → Exec World ChatJob
create publish user_id conversation_id content = do
  reject_if (user_id == 0) invalid_user_id
  reject_if (conversation_id == 0) invalid_conversation_id
  let trimmed = trim_space content
  reject_if (is_empty trimmed) invalid_job_content
  job ← Repository.create user_id conversation_id trimmed
  publish job.id
  pure job

-- Service.GetByID
unfoldable pub get_by_id : ℕ → ℕ → Exec World ChatJob
get_by_id user_id job_id = do
  reject_if (user_id == 0) invalid_user_id
  reject_if (job_id == 0) invalid_job_id
  Repository.get_by_id user_id job_id

-- `return errors.Join(cause, s.retry(ctx, job))`
unfoldable pub retry_and_report : Err → ChatJob → Exec World (Unit {0})
retry_and_report cause job = do r ← attempt (Repository.retry job.id); raise (join_result cause r)

abbrev settle : Err → Result (Unit {0}) → Exec World (Unit {0})
settle cause (ok _) = pure tt
settle cause (err e) = raise (join cause e)

-- The job is recorded as failed; only where that fails too is there an error.
unfoldable pub give_up : Err → ℕ → Text → Exec World (Unit {0})
give_up cause job_id error_code = do r ← attempt (Repository.fail job_id error_code); settle cause r

-- The error codes of a chat that failed at the last attempt.
abbrev pub chat_error_code : Err → Text
chat_error_code e = if is e deadline_exceeded then chat_timed_out else chat_failed

module _ (max_attempts : ℕ) where
  -- Service.handleAttemptFailure, whose calls are those of the branches above.
  unfoldable pub handle_attempt_failure : ChatJob → Err → Exec World (Unit {0})
  handle_attempt_failure job cause =
      if ltb job.attempt_count max_attempts
      then retry_and_report cause job
      else give_up cause job.id complete_failed

  abbrev after_complete : ChatJob → Result (Unit {0}) → Exec World (Unit {0})
  after_complete job (ok _) = pure tt
  after_complete job (err e) = handle_attempt_failure job e

  -- `Complete`, and what follows where it fails.
  unfoldable pub finish : ChatJob → ℕ → ℕ → Exec World (Unit {0})
  finish job job_id assistant_message_id = do
    r ← attempt (Repository.complete job_id assistant_message_id)
    after_complete job r

  abbrev after_result : ChatJob → ℕ → Option ChatResult → Exec World (Unit {0})
  after_result job job_id none =
      give_up (sentinel invalid_chat_result) job_id invalid_chat_result_code
  after_result job job_id (some result) =
      if result.id == 0
      then give_up (sentinel invalid_chat_result) job_id invalid_chat_result_code
      else finish job job_id result.id

  unfoldable pub after_chat : ChatJob → ℕ → Result (Option ChatResult) → Exec World (Unit {0})
  after_chat job job_id (ok result) = after_result job job_id result
  after_chat job job_id (err e) =
      if ltb job.attempt_count max_attempts
      then retry_and_report e job
      else give_up e job_id (chat_error_code e)

  -- A failed step before the chat: one more attempt, or the end of the job.
  unfoldable pub retry_or_fail : ChatJob → ℕ → Err → Exec World (Unit {0})
  retry_or_fail job job_id e =
      if ltb job.attempt_count max_attempts
      then retry_and_report e job
      else give_up e job_id over_max_retry_time

  module _ (chat : ChatProcessor) where
    unfoldable pub after_lookup : ChatJob → ℕ → ℕ → ℕ → Result (Option ℕ) → Exec World (Unit {0})
    after_lookup job job_id user_id request_message_id (err e) = retry_or_fail job job_id e
    after_lookup job job_id user_id request_message_id (ok (some a)) = finish job job_id a
    after_lookup job job_id user_id request_message_id (ok none) = do
      r ← attempt (chat user_id job.conversation_id request_message_id)
      after_chat job job_id r

    unfoldable pub after_ensure : ChatJob → ℕ → ℕ → Result ℕ → Exec World (Unit {0})
    after_ensure job job_id user_id (err e) = retry_or_fail job job_id e
    after_ensure job job_id user_id (ok request_message_id) = do
      r ← attempt (Repository.find_completed_assistant_id user_id job_id)
      after_lookup job job_id user_id request_message_id r

    unfoldable pub after_claim : ℕ → Result (ChatJob × ℕ) → Exec World (Unit {0})
    after_claim job_id (err e) = if is e job_not_claimable then pure tt else raise e
    after_claim job_id (ok (job, user_id)) = do
      r ← attempt (Repository.ensure_request_message user_id job.id)
      after_ensure job job_id user_id r

    -- Service.Process
    unfoldable pub process : ℕ → Exec World (Unit {0})
    process job_id = do
      reject_if (job_id == 0) invalid_job_id
      r ← attempt (Repository.claim_for_processing job_id)
      after_claim job_id r
