-- ===== src/ModelCalls/Service.antt =====
-- internal/modelcall/service.go. A nil `*Model` is `none`.
use gopher_agent_platform.Prelude.{ℕ, Option, none, some, Bool, true, not, ◌==◌}
use gopher_agent_platform.Errors.{
  Sentinel, invalid_user_id, model_call_is_empty, invalid_conversation_id,
  invalid_request_message_id, invalid_model_provider, invalid_model_call_id,
  invalid_assistant_message_id, invalid_model_call_status,
}
use gopher_agent_platform.Exec.{Exec, ◌>>=◌, ◌>>◌, reject_if, pure, fail}
use gopher_agent_platform.Text.{trim_space, is_empty}
use gopher_agent_platform.Database.Rows.{ModelCall, CallStatus}
use gopher_agent_platform.Database.{World}
use gopher_agent_platform.ModelCalls.Sql.{is_failure_terminal}
use gopher_agent_platform.ModelCalls.Repository

abbrev required {ℓ} : {A : Type ℓ} → Option A → Sentinel → Exec World A
required none t = fail t
required (some a) t = pure a

abbrev no_id : Option ℕ → Bool
no_id none = true
no_id (some i) = i == 0

unfoldable pub start : ℕ → Option ModelCall → Exec World ModelCall
start user_id model_call = do
  reject_if (user_id == 0) invalid_user_id
  call ← required model_call model_call_is_empty
  reject_if (call.conversation_id == 0) invalid_conversation_id
  reject_if (call.request_message_id == 0) invalid_request_message_id
  let provider = trim_space call.provider
  reject_if (is_empty provider) invalid_model_provider
  made ← Repository.create user_id (record call { provider = provider })
  pure (record made { status = CallStatus.running })

unfoldable pub complete : ℕ → Option ModelCall → Exec World ModelCall
complete user_id model_call = do
  reject_if (user_id == 0) invalid_user_id
  call ← required model_call model_call_is_empty
  reject_if (call.id == 0) invalid_model_call_id
  reject_if (no_id call.assistant_message_id) invalid_assistant_message_id
  Repository.complete user_id call

unfoldable pub finish : ℕ → Option ModelCall → Exec World ModelCall
finish user_id model_call = do
  reject_if (user_id == 0) invalid_user_id
  call ← required model_call model_call_is_empty
  reject_if (call.id == 0) invalid_model_call_id
  reject_if (not (is_failure_terminal call.status)) invalid_model_call_status
  Repository.finish user_id call

unfoldable pub get : ℕ → ℕ → Exec World ModelCall
get user_id model_call_id = do
  reject_if (user_id == 0) invalid_user_id
  reject_if (model_call_id == 0) invalid_model_call_id
  Repository.get model_call_id user_id
