-- ===== src/Conversations/Repository.antt =====
-- internal/platform/postgresql/conversation_repository.go
use gopher_agent_platform.Prelude.{ℕ, List}
use gopher_agent_platform.Errors.{conversation_not_found}
use gopher_agent_platform.Exec.{Exec, ◌>>=◌, pure, lift, attempt}
use gopher_agent_platform.Text.{Text}
use gopher_agent_platform.Database.Rows.{Conversation}
use gopher_agent_platform.Database.{World, query_row}
use gopher_agent_platform.Conversations.Sql.{
  insert_conversation, get_conversation, query_conversations, delete_conversation,
}
use gopher_agent_platform.Messages.Repository.{in_context, scan_row, scan_rows}

unfoldable pub create : ℕ → Text → Exec World Conversation
create user_id title = do
  r ← attempt (query_row (insert_conversation user_id title))
  lift (in_context r)

unfoldable pub list_by_user_id : ℕ → ℕ → ℕ → Exec World (List Conversation)
list_by_user_id user_id limit offset = scan_rows (query_conversations user_id limit offset)

unfoldable pub get_by_id_and_user_id : ℕ → ℕ → Exec World Conversation
get_by_id_and_user_id user_id conversation_id =
    scan_row (get_conversation conversation_id user_id) conversation_not_found

unfoldable pub delete_by_id_and_user_id : ℕ → ℕ → Exec World (Unit {0})
delete_by_id_and_user_id user_id conversation_id = do
  _ ← scan_row (delete_conversation conversation_id user_id) conversation_not_found
  pure tt
