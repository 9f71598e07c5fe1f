-- ===== src/Messages/Sql.antt =====
-- internal/platform/postgresql/messages_sql.go, over the constraints of the migrations.
use gopher_agent_platform.Prelude.{
  ℕ, suc, Bool, Option, none, some, List, [], ◌∷◌, ◌++◌, ◌==◌, ltb, ◌&&◌, ◌||◌, if◌then◌else◌,
  filter, take, drop,
}
use gopher_agent_platform.Errors.{opaque}
use gopher_agent_platform.Exec.{ok, err, Exec}
use gopher_agent_platform.Text.{Text, is_empty}
use gopher_agent_platform.Database.Rows.{Conversation, Message, Role}
use gopher_agent_platform.Database.Table.{message_key, and_then, find}
use gopher_agent_platform.Database.Order.{sort_by}
use gopher_agent_platform.Database.{Db, Statement, is_bigint, is_storable, reading, writing}
use gopher_agent_platform.Conversations.Sql.{owned_conversation}

abbrev check_violation : ℕ
check_violation = 23514

abbrev pub new_message : ℕ → Role → Text → Db → Message
new_message conversation_id role content db = record {
  id = db.next_message;
  conversation_id = conversation_id;
  role = role;
  content = content;
  created_at = db.now;
}

abbrev pub write_message : Message → Db → Db
write_message m db = record db {
  messages = db.messages ++ m ∷ [];
  next_message = suc db.next_message;
}

abbrev insert_found : Option Conversation → Role → Text → Statement Message
insert_found none role content db = (ok none, db)
insert_found (some c) role content db =
    let row = new_message c.id role content db in
    if is_empty content
    then (err (opaque check_violation), db)
    else (ok (some row), write_message row db)

-- InsertMessageByConversationIDAndUserID
unfoldable pub insert_message : ℕ → ℕ → Role → Text → Statement Message
insert_message user_id conversation_id role content db =
    writing (is_bigint user_id && is_bigint conversation_id && is_storable content)
      (insert_found (owned_conversation db user_id conversation_id) role content) db

-- A message joined with the conversation of a user.
abbrev pub owned_message : Db → ℕ → ℕ → ℕ → Option Message
owned_message db message_id conversation_id user_id = and_then (find message_id db.messages) (λ m.
    if m.conversation_id == conversation_id
    then and_then (owned_conversation db user_id conversation_id) (λ _. some m)
    else none)

-- GetMessageByIDAndConversationIDAndUserID
unfoldable pub get_message : ℕ → ℕ → ℕ → Statement Message
get_message message_id conversation_id user_id db = (
  reading (is_bigint message_id && is_bigint conversation_id && is_bigint user_id)
      (ok (owned_message db message_id conversation_id user_id)),
  db,
)

-- ORDER BY created_at ASC, id ASC, and the other way round.
abbrev pub older : Message → Message → Bool
older a b = ltb a.created_at b.created_at || (a.created_at == b.created_at && ltb a.id b.id)

abbrev pub newer : Message → Message → Bool
newer a b = older b a

abbrev rows_under : Option Conversation → Db → List Message
rows_under none db = []
rows_under (some c) db = filter (λ (m : Message). m.conversation_id == c.id) db.messages

-- The join of messages with the conversation, where `c.user_id = $1 AND c.id = $2`.
unfoldable pub messages_under : ℕ → ℕ → Db → List Message
messages_under user_id conversation_id db =
    rows_under (owned_conversation db user_id conversation_id) db

-- QueryMessagesByConversationIDAndUserID
unfoldable pub query_messages : ℕ → ℕ → ℕ → ℕ → Exec Db (List Message)
query_messages user_id conversation_id limit offset db =
    (ok (take limit (drop offset (sort_by older (messages_under user_id conversation_id db)))), db)

-- QueryRecentMessagesByConversationIDAndUserID
unfoldable pub query_recent_messages : ℕ → ℕ → ℕ → Exec Db (List Message)
query_recent_messages user_id conversation_id limit db = (
  ok (sort_by older (take limit (sort_by newer (messages_under user_id conversation_id db)))),
  db,
)
