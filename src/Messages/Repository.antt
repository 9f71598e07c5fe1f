-- ===== src/Messages/Repository.antt =====
-- internal/platform/postgresql/message_repository.go. The rows of a query arrive whole, or some
-- step of reading them fails, with one wrapped error or another.
use gopher_agent_platform.Prelude.{ℕ, List, if◌then◌else◌}
use gopher_agent_platform.Errors.{
  Sentinel, sentinel, context, is, no_rows, conversation_not_found, message_not_found,
}
use gopher_agent_platform.Exec.{Result, ok, err, Exec, ◌>>=◌, ◌>>◌, lift, attempt}
use gopher_agent_platform.Text.{Text}
use gopher_agent_platform.Database.Rows.{Message, Conversation, Role}
use gopher_agent_platform.Database.{World, Statement, query_row, round_trip}
use gopher_agent_platform.Database.{Db}
use gopher_agent_platform.Conversations.Sql.{get_conversation}
use gopher_agent_platform.Messages.Sql.{
  insert_message, get_message, query_messages, query_recent_messages,
}

-- No rows give a sentinel, and any other error is wrapped without one.
abbrev pub or_missing {ℓ} : {A : Type ℓ} → Sentinel → Result A → Result A
or_missing missing (ok a) = ok a
or_missing missing (err e) = if is e no_rows then err (sentinel missing) else err (context e)

unfoldable pub scan_row {ℓ} : {A : Type ℓ} → Statement A → Sentinel → Exec World A
scan_row m missing = do r ← attempt (query_row m); lift (or_missing missing r)

abbrev pub in_context {ℓ} : {A : Type ℓ} → Result A → Result A
in_context (ok a) = ok a
in_context (err e) = err (context e)

-- `pool.Query` and the loop over `rows.Next()`.
unfoldable pub scan_rows {ℓ} : {A : Type ℓ} → Exec Db (List A) → Exec World (List A)
scan_rows m = do r ← attempt (round_trip m); lift (in_context r)

unfoldable pub create : ℕ → ℕ → Role → Text → Exec World Message
create user_id conversation_id role content =
    scan_row (insert_message user_id conversation_id role content) conversation_not_found

unfoldable pub get_by_id : ℕ → ℕ → ℕ → Exec World Message
get_by_id user_id conversation_id message_id =
    scan_row (get_message message_id conversation_id user_id) message_not_found

unfoldable pub check_conversation_existence : ℕ → ℕ → Exec World Conversation
check_conversation_existence user_id conversation_id =
    scan_row (get_conversation conversation_id user_id) conversation_not_found

unfoldable pub list_by_conversation_id : ℕ → ℕ → ℕ → ℕ → Exec World (List Message)
list_by_conversation_id user_id conversation_id limit offset = do
  check_conversation_existence user_id conversation_id
  scan_rows (query_messages user_id conversation_id limit offset)

unfoldable pub list_recent_by_conversation_id : ℕ → ℕ → ℕ → Exec World (List Message)
list_recent_by_conversation_id user_id conversation_id limit = do
  check_conversation_existence user_id conversation_id
  scan_rows (query_recent_messages user_id conversation_id limit)
