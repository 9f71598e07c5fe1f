-- ===== src/Messages/Service.antt =====
-- internal/message/service.go. A page or a limit is a signed number of Go; a negative one is refused
-- as 0 is.
use gopher_agent_platform.Prelude.{ℕ, ◌-◌, ◌*◌, ◌||◌, ◌==◌, ltb, length, List}
use gopher_agent_platform.Errors.{
  invalid_user_id, invalid_message_conversation_id, invalid_message_content, message_not_found,
  invalid_page, invalid_page_size, invalid_limit,
}
use gopher_agent_platform.Exec.{Exec, ◌>>◌, reject_if}
use gopher_agent_platform.Text.{Text, trim_space, is_empty}
use gopher_agent_platform.Database.Rows.{Message, Role, role_user, role_assistant}
use gopher_agent_platform.Database.{World}
use gopher_agent_platform.Messages.Repository

abbrev pub max_content_length : ℕ
max_content_length = 20000

abbrev pub max_page : ℕ
max_page = 10000

abbrev pub max_page_size : ℕ
max_page_size = 100

unfoldable pub create_message : ℕ → ℕ → Text → Role → Exec World Message
create_message user_id conversation_id content role = do
  let trimmed = trim_space content
  reject_if (is_empty trimmed || ltb max_content_length (length trimmed)) invalid_message_content
  reject_if (user_id == 0) invalid_user_id
  reject_if (conversation_id == 0) invalid_message_conversation_id
  Repository.create user_id conversation_id role trimmed

unfoldable pub create_user_message : ℕ → ℕ → Text → Exec World Message
create_user_message user_id conversation_id content =
    create_message user_id conversation_id content role_user

unfoldable pub create_assistant_message : ℕ → ℕ → Text → Exec World Message
create_assistant_message user_id conversation_id content =
    create_message user_id conversation_id content role_assistant

unfoldable pub get_by_id : ℕ → ℕ → ℕ → Exec World Message
get_by_id user_id conversation_id message_id = do
  reject_if (user_id == 0) invalid_user_id
  reject_if (conversation_id == 0) invalid_message_conversation_id
  reject_if (message_id == 0) message_not_found
  Repository.get_by_id user_id conversation_id message_id

unfoldable pub list : ℕ → ℕ → ℕ → ℕ → Exec World (List Message)
list user_id conversation_id page page_size = do
  reject_if (user_id == 0) invalid_user_id
  reject_if (conversation_id == 0) invalid_message_conversation_id
  reject_if (page == 0 || ltb max_page page) invalid_page
  reject_if (page_size == 0 || ltb max_page_size page_size) invalid_page_size
  Repository.list_by_conversation_id user_id conversation_id page_size ((page - 1) * page_size)

unfoldable pub list_recent : ℕ → ℕ → ℕ → Exec World (List Message)
list_recent user_id conversation_id limit = do
  reject_if (user_id == 0) invalid_user_id
  reject_if (conversation_id == 0) invalid_message_conversation_id
  reject_if (limit == 0) invalid_limit
  Repository.list_recent_by_conversation_id user_id conversation_id limit
