-- ===== src/Chat/Model.antt =====
-- The values of internal/chat/service.go and internal/llm/client.go.
use gopher_agent_platform.Prelude.{ℕ, Option, List}
use gopher_agent_platform.Exec.{Result}
use gopher_agent_platform.Text.{Text}
use gopher_agent_platform.Database.Rows.{Role}
use gopher_agent_platform.Database.{World}
use gopher_agent_platform.Rag.Chunker.{Chunk}

-- `chat.Result`
pub record ChatResult : Type 0 where
  pub id : ℕ
  pub role : Role
  pub content : Text
  pub created_at : ℕ
  pub model : Text
  pub input_tokens : ℕ
  pub output_tokens : ℕ
  pub total_tokens : ℕ

-- `llm.Message`
pub record ModelMessage : Type 0 where
  pub role : Role
  pub content : Text

-- `llm.Result`
pub record ModelResult : Type 0 where
  pub content : Text
  pub model : Text
  pub input_tokens : ℕ
  pub output_tokens : ℕ
  pub total_tokens : ℕ

-- What the chat service takes from outside: the name of the provider and of the model, the call of
-- the model for the messages of a turn, and the retriever of the user's documents, where there is one.
-- A call may answer otherwise than the one before it: the world that it is made in stands first, and no
-- two turns call the model in the same one, since each has its own row in model_calls.
pub record Providers : Type 1 where
  pub F : Type 0
  pub provider : Text
  pub model : Text
  pub generate : World → List ModelMessage → Result ModelResult
  pub retrieve : Option (World → ℕ → Text → ℕ → Result (List (Chunk F)))
