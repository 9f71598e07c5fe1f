-- ===== src/Conversations/Sql.antt =====
-- internal/platform/postgresql/conversations_sql.go
use gopher_agent_platform.Prelude.{
  ℕ, suc, Bool, Option, none, some, List, [], ◌∷◌, ◌++◌, ◌==◌, ltb, ◌&&◌, ◌||◌, if◌then◌else◌,
  filter, take, drop, leb, length, any,
}
use gopher_agent_platform.Errors.{opaque}
use gopher_agent_platform.Exec.{ok, err, Exec}
use gopher_agent_platform.Text.{Text}
use gopher_agent_platform.Database.Rows.{User, Conversation, Message, ModelCall, ChatJob}
use gopher_agent_platform.Database.Table.{
  conversation_key, message_key, model_call_key, chat_job_key, and_then, find, remove,
}
use gopher_agent_platform.Database.{Db, Statement, is_bigint, is_storable, reading, writing}

-- The row that `WHERE id = $1 AND user_id = $2` selects.
unfoldable pub owned_conversation : Db → ℕ → ℕ → Option Conversation
owned_conversation db user_id conversation_id =
    and_then (find conversation_id db.conversations)
      (λ c. if c.user_id == user_id then some c else none)

abbrev too_long : ℕ
too_long = 22001

abbrev foreign_key_violation : ℕ
foreign_key_violation = 23503

abbrev new_conversation : ℕ → Text → Db → Conversation
new_conversation user_id title db = record {
  id = db.next_conversation;
  user_id = user_id;
  title = title;
  created_at = db.now;
  updated_at = db.now;
}

abbrev write_conversation : Conversation → Db → Db
write_conversation c db = record db {
  conversations = db.conversations ++ c ∷ [];
  next_conversation = suc db.next_conversation;
}

-- The width of the title and the foreign key to users.
abbrev insert_row : Conversation → Statement Conversation
insert_row row db =
    if leb (length row.title) 200
    then if any (λ (u : User). u.id == row.user_id) db.users
      then (ok (some row), write_conversation row db)
      else (err (opaque foreign_key_violation), db)
    else (err (opaque too_long), db)

-- InsertConversation
unfoldable pub insert_conversation : ℕ → Text → Statement Conversation
insert_conversation user_id title db =
    writing (is_bigint user_id && is_storable title)
      (insert_row (new_conversation user_id title db)) db

-- GetConversationByIDAndUserID
unfoldable pub get_conversation : ℕ → ℕ → Statement Conversation
get_conversation conversation_id user_id db = (
  reading (is_bigint conversation_id && is_bigint user_id)
      (ok (owned_conversation db user_id conversation_id)),
  db,
)

-- ORDER BY created_at DESC, id DESC
abbrev pub newer : Conversation → Conversation → Bool
newer a b = ltb b.created_at a.created_at || (a.created_at == b.created_at && ltb b.id a.id)

unfoldable pub insert_newest : Conversation → List Conversation → List Conversation
insert_newest c [] = c ∷ []
insert_newest c (d ∷ ds) =
    let rest = insert_newest c ds in if newer c d then c ∷ d ∷ ds else d ∷ rest

unfoldable pub newest_first : List Conversation → List Conversation
newest_first [] = []
newest_first (c ∷ cs) = insert_newest c (newest_first cs)

-- QueryConversationByUserID
unfoldable pub query_conversations : ℕ → ℕ → ℕ → Exec Db (List Conversation)
query_conversations user_id limit offset db = (
  ok (
      take limit
        (drop offset (newest_first (filter (λ c. c.user_id == user_id) db.conversations)))),
  db,
)

-- The foreign keys of messages, model_calls and chat_jobs are ON DELETE CASCADE.
abbrev pub cascade : ℕ → Db → Db
cascade conversation_id db = record db {
  conversations = remove conversation_id db.conversations;
  messages =
      filter
        (λ (m : Message). if m.conversation_id == conversation_id then Bool.false else Bool.true)
        db.messages;
  model_calls =
      filter
        (λ (m : ModelCall). if m.conversation_id == conversation_id then Bool.false else Bool.true)
        db.model_calls;
  chat_jobs =
      filter
        (λ (j : ChatJob). if j.conversation_id == conversation_id then Bool.false else Bool.true)
        db.chat_jobs;
}

abbrev delete_found : Option Conversation → Statement ℕ
delete_found none db = (ok none, db)
delete_found (some c) db = (ok (some c.id), cascade c.id db)

-- DeleteConversationByIDAndUserID
unfoldable pub delete_conversation : ℕ → ℕ → Statement ℕ
delete_conversation conversation_id user_id db =
    writing (is_bigint conversation_id && is_bigint user_id)
      (delete_found (owned_conversation db user_id conversation_id)) db
