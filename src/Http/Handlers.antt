-- ===== src/Http/Handlers.antt =====
-- The handlers of messages, conversations and chat jobs: internal/httpapi/message_handler.go,
-- conversation_handler.go and chatjob_handler.go over the services.
use gopher_agent_platform.Prelude.{ℕ, Option, none, some, [], ◌∷◌, map, if◌then◌else◌}
use gopher_agent_platform.Errors.{
  Err, invalid_message_content, invalid_message_conversation_id, invalid_user_id, invalid_page,
  invalid_page_size, invalid_title, invalid_conversation_id, conversation_not_found,
  invalid_job_content, insert_chat_job_failed, publish_failed, publish_not_confirmed,
  publish_unroutable, job_id_invalid, marshal_job_id_failed, invalid_job_id, job_not_found,
  get_chat_jobs_failed,
}
use gopher_agent_platform.Exec.{Result, ok, err, Exec}
use gopher_agent_platform.Text.{Text, text}
use gopher_agent_platform.Database.Rows.{Message, Conversation, ChatJob}
use gopher_agent_platform.Database.{World}
use gopher_agent_platform.Messages.Service as MessageService
use gopher_agent_platform.Conversations.Service as ConversationService
use gopher_agent_platform.Jobs.Service as JobService
use gopher_agent_platform.Jobs.Service.{Publisher}
use gopher_agent_platform.Http.Request.{
  Body, too_large, malformed, bound, Request, MessageResponse, ConversationResponse, GetJobResponse,
  nothing, message, messages, conversation, conversations, chat_job, job, Answer, answered,
  login_first, invalid_request, not_found, internal_server_error, unbound_large, unbound, is_any,
  parse_uint, atoi, default_query,
}

-- A handler under a user, where the middleware has set one: checkUserIDValidity.
abbrev pub Handler : Type 0
Handler = Option ℕ → Request → World → Answer × World

abbrev pub for_user : (ℕ → Request → World → Answer × World) → Handler
for_user run none request w = (login_first, w)
for_user run (some user_id) request w = run user_id request w

-- The `:id` of the path.
abbrev pub with_id : Option ℕ → (ℕ → World → Answer × World) → World → Answer × World
with_id none run w = (invalid_request (text "input is invalid"), w)
with_id (some id) run w = run id w

abbrev pub with_body : {A : Type 0} → Body A → (A → World → Answer × World) → World → Answer × World
with_body too_large run w = (unbound_large, w)
with_body malformed run w = (unbound, w)
with_body (bound a) run w = run a w

-- The answer to the result of a service.
abbrev pub settled : {A : Type 0} → (Err → Answer) → (A → Answer) → Result A → Answer
settled on_error on_result (ok a) = on_result a
settled on_error on_result (err e) = on_error e

abbrev pub settle :
    {A : Type 0} → (Err → Answer) → (A → Answer) → Exec World A → World → Answer × World
settle on_error on_result m w = (settled on_error on_result (m w).0, (m w).1)

-- The two parameters of a page, which must be numbers.
abbrev pub with_page :
    Option ℕ → Option ℕ → (ℕ → ℕ → World → Answer × World) → World → Answer × World
with_page none size run w = (invalid_request (text "page must be a positive number"), w)
with_page (some page) none run w = (invalid_request (text "page size must be a positive number"), w)
with_page (some page) (some size) run w = run page size w

abbrev pub page_of : Request → Option ℕ
page_of request = atoi (default_query request.page (text "1"))

abbrev pub size_of : Request → Option ℕ
size_of request = atoi (default_query request.page_size (text "20"))

abbrev pub message_response : Message → MessageResponse
message_response m = record {
  id = m.id;
  role = m.role;
  content = m.content;
  created_at = m.created_at;
}

abbrev pub conversation_response : Conversation → ConversationResponse
conversation_response c = record { id = c.id; title = c.title; created_at = c.created_at }

abbrev pub get_job_response : ChatJob → GetJobResponse
get_job_response j = record {
  id = j.id;
  status = j.status;
  assistant_message_id = j.assistant_message_id;
  error_code = j.error_code;
  created_at = j.created_at;
  started_at = j.started_at;
  finished_at = j.finished_at;
}

abbrev pub input_is_invalid : Answer
input_is_invalid = invalid_request (text "input is invalid")

abbrev pub conversation_missing : Answer
conversation_missing = not_found (text "not found the conversation")

-- The two switches of message_handler.go.
unfoldable pub create_message_error : Err → Answer
create_message_error e =
    if is_any e (invalid_message_content ∷ invalid_message_conversation_id ∷ invalid_user_id ∷ [])
    then input_is_invalid
    else if is_any e (conversation_not_found ∷ [])
    then conversation_missing
    else internal_server_error

unfoldable pub list_messages_error : Err → Answer
list_messages_error e =
    if is_any e
      (invalid_user_id ∷ invalid_message_conversation_id ∷ invalid_page ∷ invalid_page_size ∷ [])
    then input_is_invalid
    else if is_any e (conversation_not_found ∷ [])
    then conversation_missing
    else internal_server_error

-- MessageHandler.CreateUserMessage, which binds the body before it reads the path.
unfoldable pub create_user_message : Body Text → Handler
unfolding create_message_error MessageService.create_user_message parse_uint
create_user_message body = for_user λ user_id request. with_body body λ content.
    with_id (parse_uint request.id) λ conversation_id.
      settle create_message_error (λ m. answered 201 (message (message_response m)))
        (MessageService.create_user_message user_id conversation_id content)

-- MessageHandler.List
unfoldable pub list_messages : Handler
unfolding list_messages_error MessageService.list parse_uint atoi
list_messages = for_user λ user_id request. with_id (parse_uint request.id) λ conversation_id.
    with_page (page_of request) (size_of request) λ page size.
      settle list_messages_error
        (λ ms. answered 200 (messages (map message_response ms) conversation_id))
        (MessageService.list user_id conversation_id page size)

unfoldable pub create_conversation_error : Err → Answer
create_conversation_error e =
    if is_any e (invalid_title ∷ invalid_user_id ∷ []) then unbound else internal_server_error

unfoldable pub list_conversations_error : Err → Answer
list_conversations_error e =
    if is_any e (invalid_page ∷ invalid_page_size ∷ invalid_user_id ∷ [])
    then input_is_invalid
    else internal_server_error

-- The switch of GetByID and of Delete.
unfoldable pub conversation_error : Err → Answer
conversation_error e =
    if is_any e (invalid_user_id ∷ invalid_conversation_id ∷ [])
    then input_is_invalid
    else if is_any e (conversation_not_found ∷ [])
    then conversation_missing
    else internal_server_error

-- ConversationHandler.Create, whose body has no limit: any body that is not bound is malformed.
unfoldable pub create_conversation : Option Text → Handler
unfolding create_conversation_error ConversationService.create
create_conversation none = for_user λ user_id request w. (unbound, w)
create_conversation (some title) = for_user λ user_id request.
    settle create_conversation_error (λ c. answered 201 (conversation (conversation_response c)))
      (ConversationService.create user_id title)

-- ConversationHandler.List
unfoldable pub list_conversations : Handler
unfolding list_conversations_error ConversationService.list atoi
list_conversations = for_user λ user_id request.
    with_page (page_of request) (size_of request) λ page size.
      settle list_conversations_error
        (λ cs. answered 200 (conversations (map conversation_response cs) page size))
        (ConversationService.list user_id page size)

-- ConversationHandler.GetByID
unfoldable pub get_conversation : Handler
unfolding conversation_error ConversationService.get_by_id parse_uint
get_conversation = for_user λ user_id request. with_id (parse_uint request.id) λ conversation_id.
    settle conversation_error (λ c. answered 200 (conversation (conversation_response c)))
      (ConversationService.get_by_id user_id conversation_id)

-- ConversationHandler.Delete
unfoldable pub delete_conversation : Handler
unfolding conversation_error ConversationService.delete parse_uint
delete_conversation = for_user λ user_id request. with_id (parse_uint request.id) λ conversation_id.
    settle conversation_error (λ _. answered 204 nothing)
      (ConversationService.delete user_id conversation_id)

unfoldable pub create_job_error : Err → Answer
create_job_error e =
    if is_any e (invalid_job_content ∷ invalid_conversation_id ∷ invalid_user_id ∷ [])
    then input_is_invalid
    else if is_any e (conversation_not_found ∷ [])
    then conversation_missing
    else if is_any e (
        insert_chat_job_failed ∷ publish_failed ∷ publish_not_confirmed ∷ marshal_job_id_failed
        ∷ publish_unroutable ∷ job_id_invalid ∷ [])
    then internal_server_error
    else internal_server_error

unfoldable pub get_job_error : Err → Answer
get_job_error e =
    if is_any e (invalid_user_id ∷ invalid_job_id ∷ [])
    then input_is_invalid
    else if is_any e (job_not_found ∷ [])
    then not_found (text "not found the job")
    else if is_any e (get_chat_jobs_failed ∷ [])
    then internal_server_error
    else internal_server_error

-- ChatJobHandler.Create, which reads the path before it binds the body.
unfoldable pub create_job : Publisher → Body Text → Handler
unfolding create_job_error JobService.create parse_uint
create_job publish body = for_user λ user_id request.
    with_id (parse_uint request.id) λ conversation_id. with_body body λ content.
      settle create_job_error (λ j. answered 202 (chat_job j.id j.status))
        (JobService.create publish user_id conversation_id content)

-- ChatJobHandler.Get
unfoldable pub get_job : Handler
unfolding get_job_error JobService.get_by_id parse_uint
get_job = for_user λ user_id request. with_id (parse_uint request.id) λ job_id.
    settle get_job_error (λ j. answered 200 (job (get_job_response j)))
      (JobService.get_by_id user_id job_id)
