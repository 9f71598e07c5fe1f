-- ===== src/Http/Chat.antt =====
-- ChatHandler.Chat of internal/httpapi/chat_handler.go over the chat service. http.ResponseController,
-- which takes the write deadline off, is outside, and its time limit is one of the faults.
use gopher_agent_platform.Prelude.{[], ◌∷◌, if◌then◌else◌}
use gopher_agent_platform.Errors.{
  Err, invalid_message_content, invalid_user_id, invalid_message_conversation_id, invalid_limit,
  conversation_not_found, not_configured, deadline_exceeded,
}
use gopher_agent_platform.Text.{Text, text}
use gopher_agent_platform.Chat.Model.{Providers}
use gopher_agent_platform.Chat.Service
use gopher_agent_platform.Http.Request.{
  Body, Answer, refused, answered, chat_result, internal_server_error, is_any, parse_uint,
}
use gopher_agent_platform.Http.Handlers.{
  Handler, for_user, with_body, with_id, settle, input_is_invalid, conversation_missing,
}

-- The switch over the errors of the service.
unfoldable pub chat_error : Err → Answer
chat_error e =
    if is_any e (
      invalid_message_content ∷ invalid_user_id ∷ invalid_message_conversation_id ∷ invalid_limit
      ∷ [])
    then input_is_invalid
    else if is_any e (conversation_not_found ∷ [])
    then conversation_missing
    else if is_any e (not_configured ∷ [])
    then refused 503 (text "SERVICE_UNAVAILABLE") (text "service is unavailable")
    else if is_any e (deadline_exceeded ∷ [])
    then refused 504 (text "TIMEOUT") (text "response timed out")
    else internal_server_error

-- ChatHandler.Chat
unfoldable pub chat : Providers → Body Text → Handler
unfolding chat_error Service.chat parse_uint
chat providers body = for_user λ user_id request. with_body body λ content.
    with_id (parse_uint request.id) λ conversation_id.
      settle chat_error (λ r. answered 200 (chat_result r))
        (Service.chat providers user_id conversation_id content)
