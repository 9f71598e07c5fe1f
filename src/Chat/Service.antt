-- ===== src/Chat/Service.antt =====
-- internal/chat/service.go. The record of the call that the functions share by a pointer is a state
-- beside the world; the empty status that it has before Start is never read, and `running` stands
-- for it. Streaming is Chat with another `generate`.
use gopher_agent_platform.Prelude.{ℕ, Option, none, some, ◌++◌, if◌then◌else◌}
use gopher_agent_platform.Errors.{Err, is, deadline_exceeded, canceled, response_not_completed}
use gopher_agent_platform.Exec.{
  Result, ok, err, Exec, ◌>>=◌, ◌>>◌, pure, raise, attempt, join_result,
}
use gopher_agent_platform.Text.{Text, text}
use gopher_agent_platform.Database.Rows.{Message, ModelCall, CallStatus}
use gopher_agent_platform.Database.{World, within_tx}
use gopher_agent_platform.Chat.Model.{ChatResult, ModelResult, Providers}
use gopher_agent_platform.Chat.Context.{prepare_model_messages}
use gopher_agent_platform.Messages.Service as MessageService
use gopher_agent_platform.ModelCalls.Service as ModelCallService
use gopher_agent_platform.ModelCalls.Sql.{is_failure_terminal}

abbrev pub default_message_limit : ℕ
default_message_limit = 40

-- The record of the call, and the world.
abbrev pub Turn : Type 0
Turn = ModelCall × World

abbrev pub on_world {ℓ} : {A : Type ℓ} → Exec World A → Exec Turn A
on_world m (c, w) = ((m w).0, (c, (m w).1))

abbrev pub change : (ModelCall → ModelCall) → Exec Turn (Unit {0})
change f (c, w) = (ok tt, (f c, w))

abbrev filled : ModelCall → Result ModelCall × World → Result (Unit {0}) × Turn
filled c (ok d, w) = (ok tt, (d, w))
filled c (err e, w) = (err e, (c, w))

-- A method of the model-call service that fills the record in where it succeeds.
abbrev pub on_record : (Option ModelCall → Exec World ModelCall) → Exec Turn (Unit {0})
on_record method (c, w) = filled c (method (some c) w)

abbrev pub new_record : ℕ → ℕ → ModelCall
new_record conversation_id request_message_id = record {
  id = 0;
  conversation_id = conversation_id;
  request_message_id = request_message_id;
  assistant_message_id = none;
  provider = text "";
  provider_response_id = none;
  requested_model = none;
  actual_model = none;
  status = CallStatus.running;
  input_tokens = none;
  output_tokens = none;
  total_tokens = none;
  error_code = none;
  started_at = none;
  finished_at = none;
}

-- markModelCallFailure
abbrev pub failure_of : Err → CallStatus × Text
failure_of e =
    if is e deadline_exceeded
    then (CallStatus.timed_out, text "timed_out")
    else if is e canceled
    then (CallStatus.cancelled, text "cancelled")
    else if is e response_not_completed
    then (CallStatus.incomplete, text "incomplete")
    else (CallStatus.failed, text "failed")

unfoldable pub mark_model_call_failure : Err → Text → ModelCall → ModelCall
mark_model_call_failure e operation c = record c {
  status = (failure_of e).0;
  error_code = some (operation ++ text "_" ++ (failure_of e).1);
}

abbrev pub marked : Err → Text → ModelCall → ModelCall
marked cause operation c =
    if is_failure_terminal c.status then c else mark_model_call_failure cause operation c

-- finishFailedModelCall: its result is the error of the turn.
unfoldable pub finish_failed_model_call {ℓ} : {A : Type ℓ} → ℕ → Err → Text → Exec Turn A
finish_failed_model_call user_id cause operation = do
  change (marked cause operation)
  r ← attempt (on_record (ModelCallService.finish user_id))
  raise (join_result cause r)

-- `if err != nil { return nil, s.finishFailedModelCall(…) }`
abbrev or_finish {ℓ κ} :
    {A : Type ℓ} {B : Type κ} → ℕ → Text → Result A → (A → Exec Turn B) → Exec Turn B
or_finish user_id operation (ok a) next = next a
or_finish user_id operation (err e) next = finish_failed_model_call user_id e operation

-- `markModelCallFailure(callRecord, err, operation)` inside the transaction.
abbrev or_mark {ℓ κ} : {A : Type ℓ} {B : Type κ} → Text → Result A → (A → Exec Turn B) → Exec Turn B
or_mark operation (ok a) next = next a
or_mark operation (err e) next = do change (mark_model_call_failure e operation); raise e

abbrev pub to_result : Message → ModelResult → ChatResult
to_result assistant result = record {
  id = assistant.id;
  role = assistant.role;
  content = assistant.content;
  created_at = assistant.created_at;
  model = result.model;
  input_tokens = result.input_tokens;
  output_tokens = result.output_tokens;
  total_tokens = result.total_tokens;
}

abbrev pub answered_by : Message → ModelResult → ModelCall → ModelCall
answered_by assistant result c = record c {
  assistant_message_id = some assistant.id;
  actual_model = some result.model;
  input_tokens = some result.input_tokens;
  output_tokens = some result.output_tokens;
  total_tokens = some result.total_tokens;
}

abbrev pub assistant_body : ℕ → ℕ → ModelResult → Exec Turn Message
assistant_body user_id conversation_id result = do
  created ←
      attempt
        (on_world (MessageService.create_assistant_message user_id conversation_id result.content))
  or_mark (text "assistant_message") created λ assistant. do
    change (answered_by assistant result)
    r ← attempt (on_record (ModelCallService.complete user_id))
    or_mark (text "model_call_complete") r λ _. pure assistant

-- saveAssistantAndComplete
unfoldable pub save_assistant_and_complete : ℕ → ℕ → ModelResult → Exec Turn Message
save_assistant_and_complete user_id conversation_id result =
    within_tx (assistant_body user_id conversation_id result)

module _ (p : Providers) where
  abbrev with_model : ModelCall → ModelCall
  with_model c = record c { requested_model = some p.model; provider = p.provider }

  abbrev pub start_body : ℕ → ℕ → Text → Exec Turn (Unit {0})
  start_body user_id conversation_id content = do
    message ← on_world (MessageService.create_user_message user_id conversation_id content)
    change (λ c. record (with_model c) { request_message_id = message.id })
    on_record (ModelCallService.start user_id)

  -- startModelCall
  unfoldable pub start_model_call : ℕ → ℕ → Text → Exec Turn (Unit {0})
  start_model_call user_id conversation_id content =
      within_tx (start_body user_id conversation_id content)

  -- startModelCallForExistingMessage
  unfoldable pub start_model_call_for_existing_message : ℕ → Exec Turn (Unit {0})
  start_model_call_for_existing_message user_id = do
    change with_model
    on_record (ModelCallService.start user_id)

  -- Service.respond
  unfoldable pub respond : ℕ → ℕ → Exec Turn ChatResult
  respond user_id conversation_id (c, w) =
      (do
        loaded ←
            attempt
              (on_world (MessageService.list_recent user_id conversation_id default_message_limit))
        or_finish user_id (text "history_load") loaded λ history. do
          prepared ←
              attempt
                (on_world (prepare_model_messages p.retrieve user_id c.request_message_id history))
          or_finish user_id (text "prepare_model_message") prepared λ messages. do
            called ← attempt (on_world (λ v. (p.generate v messages, v)))
            or_finish user_id (text "llm") called λ result. do
              saved ← attempt (save_assistant_and_complete user_id conversation_id result)
              or_finish user_id (text "model_call_complete") saved
                  λ assistant. pure (to_result assistant result))
        (c, w)

  abbrev pub world_of {ℓ} : {A : Type ℓ} → Result A × Turn → Result A × World
  world_of (r, (c, w)) = (r, w)

  -- Service.Chat, whose `receive` starts the call.
  unfoldable pub chat : ℕ → ℕ → Text → Exec World ChatResult
  chat user_id conversation_id content w = world_of (
      (start_model_call user_id conversation_id content >> respond user_id conversation_id)
        (new_record conversation_id 0, w))

  -- Service.ChatFromExistingMessage
  unfoldable pub chat_from_existing_message : ℕ → ℕ → ℕ → Exec World ChatResult
  chat_from_existing_message user_id conversation_id request_message_id w = world_of (
      (start_model_call_for_existing_message user_id >> respond user_id conversation_id)
        (new_record conversation_id request_message_id, w))
