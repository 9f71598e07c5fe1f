-- ===== src/Conversations/Service.antt =====
-- internal/conversation/service.go. A page is a signed number of Go; a negative one is refused as 0
-- is.
use gopher_agent_platform.Prelude.{ℕ, ◌-◌, ◌*◌, ◌||◌, ◌==◌, ltb, length, List}
use gopher_agent_platform.Errors.{
  invalid_user_id, invalid_title, invalid_page, invalid_page_size, invalid_conversation_id,
}
use gopher_agent_platform.Exec.{Exec, ◌>>◌, reject_if}
use gopher_agent_platform.Text.{Text, trim_space, is_empty}
use gopher_agent_platform.Database.Rows.{Conversation}
use gopher_agent_platform.Database.{World}
use gopher_agent_platform.Conversations.Repository

abbrev max_page : ℕ
max_page = 10000

abbrev max_page_size : ℕ
max_page_size = 100

unfoldable pub create : ℕ → Text → Exec World Conversation
create user_id title = do
  reject_if (user_id == 0) invalid_user_id
  let trimmed = trim_space title
  reject_if (is_empty trimmed || ltb 200 (length trimmed)) invalid_title
  Repository.create user_id trimmed

unfoldable pub list : ℕ → ℕ → ℕ → Exec World (List Conversation)
list user_id page page_size = do
  reject_if (user_id == 0) invalid_user_id
  reject_if (page == 0 || ltb max_page page) invalid_page
  reject_if (page_size == 0 || ltb max_page_size page_size) invalid_page_size
  Repository.list_by_user_id user_id page_size ((page - 1) * page_size)

unfoldable pub get_by_id : ℕ → ℕ → Exec World Conversation
get_by_id user_id conversation_id = do
  reject_if (user_id == 0) invalid_user_id
  reject_if (conversation_id == 0) invalid_conversation_id
  Repository.get_by_id_and_user_id user_id conversation_id

unfoldable pub delete : ℕ → ℕ → Exec World (Unit {0})
delete user_id conversation_id = do
  reject_if (user_id == 0) invalid_user_id
  reject_if (conversation_id == 0) invalid_conversation_id
  Repository.delete_by_id_and_user_id user_id conversation_id
