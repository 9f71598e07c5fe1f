-- ===== src/Lib.antt =====
-- GopherAI, a Go backend for conversations with a language model: a development over its core.
--
-- A user's chat job is inserted by internal/chatjob and published to RabbitMQ; a worker claims it,
-- runs the chat, and records its end; a job that fails goes back until its attempts are used up.
-- Around it stand conversations and their messages in PostgreSQL, verification codes and request
-- limits in Redis, and documents cut into chunks for retrieval. The agent plans an answer with a
-- language model, calls one tool at most, and streams what the model says; the handlers of
-- internal/httpapi check who asks and turn the errors of the services into answers.
--
-- What each file models:
--   Errors, Exec      Go's errors with errors.Is, and functions that return a value or an error
--                     and change a state
--   Text              strings as lists of code points, strings.TrimSpace, len
--   Database          the tables of migrations/, statements, internal/platform/postgresql/
--                     tx_manager.go; any round trip may fail before or after the server acts
--   Conversations     internal/conversation/service.go, internal/platform/postgresql/
--                     conversations_sql.go and conversation_repository.go
--   Users             internal/user/service.go, internal/platform/postgresql/users_sql.go and
--                     user_repository.go
--   Messages          internal/message/service.go, internal/platform/postgresql/messages_sql.go and
--                     message_repository.go
--   ModelCalls        internal/modelcall/service.go, internal/platform/postgresql/model_calls_sql.go
--                     and model_repository.go
--   Chat.Service      internal/chat/service.go: the functions under the same names in snake case,
--                     with the shared record of the call as a state beside the world
--   Chat.Context      prepareModelMessages and buildRAGContext of that file
--   Chat.Turns        the chat as the worker calls it
--   Auth              internal/auth/token.go
--   Jobs.Sql, Jobs.Outcome, Jobs.Repository
--                     internal/platform/postgresql/chat_jobs_sql.go and chat_jobs_repository.go
--   Jobs.Service      internal/chatjob/service.go: Create, GetByID, Process, retry,
--                     handleAttemptFailure under the same names in snake case
--   Jobs.Consumer     internal/platform/rabbitmq/consumer.go
--   Jobs.Publisher    internal/platform/rabbitmq/publisher.go
--   Jobs.Machine      the statuses of a job as a step relation, and the statements as its labels
--   Llm, Openai       internal/llm/tool.go, and internal/platform/openai/client.go with its requests
--                     and the loop over the events of a stream; Openai.Embedding is embedding.go
--   Agent             internal/agent/client.go: NewClient, Generate, GenerateStream; Agent.Openai
--                     makes the client of OpenAI its model
--   Rag.Chunker       internal/rag/chunker.go
--   Rag.Retriever     internal/rag/retriever.go
--   Rag.Service       internal/rag/service.go and repository.go: Upload, Retrieve
--   Rag.Store         internal/platform/redis/rag_repository.go
--   Rag.Files         internal/platform/filesystem/rag_store.go: Save, Load, Delete
--   Http.Request      what a handler reads of a request, strconv and strings.Fields, and the answers
--   Http.Handlers     internal/httpapi/message_handler.go, conversation_handler.go and
--                     chatjob_handler.go
--   Http.Accounts     internal/httpapi/user_handler.go and email_verification_handler.go
--   Http.Chat         internal/httpapi/chat_handler.go: Chat
--   Http.Documents    internal/httpapi/rag_handler.go
--   Http.Router       internal/httpapi/auth_middleware.go, rate_limit_middleware.go and router.go
--   Redis             the commands that the scripts call, as an interface with laws; Redis.Memory
--                     fills it
--   Limits            internal/platform/redis/rate_limiter.go
--   Verification.Store, Verification.Service
--                     internal/platform/redis/email_verification_repository.go and
--                     internal/emailverification/service.go
--   Examples          runs at concrete inputs
--
-- An unsigned id or a count of Go is a number that does not wrap; the modelled code only compares
-- these, adds one to attempt_count, once for each delivery, and multiplies a page by its size,
-- which is 1,000,000 at most. The statements that the ids and texts of a client reach refuse an id
-- of 2 ^ 63 or more and a text with U+0000, as pgx and PostgreSQL do; the others are sent the ids
-- of rows. A duration is in nanoseconds, and a TTL of Redis in milliseconds.
--
-- split_from takes one step of fuel for each rune and one more, which is enough, since each round
-- moves by 850 runes. redeliver takes one step for each delivery; max_attempts less the attempts
-- that are used is enough, and one where none are left. embed_from takes one step for each batch, for
-- which one for each text is enough.
--
-- The agent adds counts of tokens by the bits of the two's complement. A page or a limit that is
-- negative is refused as 0 is, and stands as 0.
--
-- Parameters are the language model behind the SDK of OpenAI, encoding/json, the tools of the
-- agent, the service of embeddings, IEEE 754, the answers of package os and of the broker, UUIDs,
-- the mail server, crypto/rand, bcrypt, SHA-256, mail.ParseAddress, strings.ToLower, the JWT
-- library, the split of an address by net and netip, and the Redis server. gin is outside: a
-- request comes to its route with its body bound. Not modelled are the streamed answer of the chat
-- handler, whose route is there with its handler as a parameter, and, as they are thin over outside
-- services, images, speech, weather and MCP, the start of the processes, logging and health checks.
mod Prelude
pub mod Errors
pub mod Exec
pub mod Text
pub mod Database
pub mod Conversations
pub mod Users
pub mod Messages
pub mod ModelCalls
pub mod Chat
pub mod Jobs
pub mod Rag
pub mod Redis
pub mod Limits
pub mod Llm
pub mod Openai
pub mod Agent
pub mod Verification
mod Examples
pub mod Http
pub mod Auth
