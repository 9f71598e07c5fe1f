-- ===== src/ModelCalls/Repository.antt =====
-- internal/platform/postgresql/model_repository.go. A `*Model` that a method fills in comes back as
-- its result.
use gopher_agent_platform.Prelude.{ℕ}
use gopher_agent_platform.Errors.{model_call_not_found, model_call_repository}
use gopher_agent_platform.Exec.{Exec, ◌>>=◌, pure}
use gopher_agent_platform.Database.Rows.{ModelCall}
use gopher_agent_platform.Database.{World}
use gopher_agent_platform.ModelCalls.Sql.{
  insert_running_model_call, complete_model_call, finish_model_call, get_model_call,
}
use gopher_agent_platform.Jobs.Repository.{scan}

unfoldable pub create : ℕ → ModelCall → Exec World ModelCall
create user_id call = do
  row ←
      scan
        (insert_running_model_call call.conversation_id user_id call.request_message_id
          call.provider call.requested_model)
        model_call_not_found model_call_repository
  pure (record call { id = row.id; started_at = row.started_at })

-- The columns that `RETURNING` of CompleteModelCall gives.
abbrev completed_from : ModelCall → ModelCall → ModelCall
completed_from call row = record call {
  id = row.id;
  status = row.status;
  assistant_message_id = row.assistant_message_id;
  actual_model = row.actual_model;
  provider_response_id = row.provider_response_id;
  input_tokens = row.input_tokens;
  output_tokens = row.output_tokens;
  total_tokens = row.total_tokens;
  started_at = row.started_at;
  finished_at = row.finished_at;
}

-- CompleteModelCall of the repository.
unfoldable pub complete : ℕ → ModelCall → Exec World ModelCall
complete user_id call = do
  row ← scan (complete_model_call user_id call) model_call_not_found model_call_repository
  pure (completed_from call row)

abbrev finished_from : ModelCall → ModelCall → ModelCall
finished_from call row = record call {
  id = row.id;
  status = row.status;
  actual_model = row.actual_model;
  provider_response_id = row.provider_response_id;
  input_tokens = row.input_tokens;
  output_tokens = row.output_tokens;
  total_tokens = row.total_tokens;
  error_code = row.error_code;
  started_at = row.started_at;
  finished_at = row.finished_at;
}

-- FinishModelCall of the repository.
unfoldable pub finish : ℕ → ModelCall → Exec World ModelCall
finish user_id call = do
  row ← scan (finish_model_call user_id call) model_call_not_found model_call_repository
  pure (finished_from call row)

-- GetModelCall of the repository.
unfoldable pub get : ℕ → ℕ → Exec World ModelCall
get call_id user_id =
    scan (get_model_call call_id user_id) model_call_not_found model_call_repository
