-- ===== src/Llm.antt =====
-- internal/llm/tool.go and client.go: what a model and the tools of the agent exchange.
use gopher_agent_platform.Prelude.{Option, List}
use gopher_agent_platform.Text.{Text}
use gopher_agent_platform.Chat.Model.{ModelResult}

-- `json.RawMessage`
abbrev pub RawMessage : Type 0
RawMessage = Text

pub record ToolDefinition : Type 0 where
  pub name : Text
  pub description : Text
  pub input_schema : RawMessage

pub record ToolCall : Type 0 where
  pub id : Text
  pub call_id : Text
  pub name : Text
  pub arguments : RawMessage

-- `ToolModelResult`, whose result is a pointer that may be nil.
pub record ToolModelResult : Type 0 where
  pub result : Option ModelResult
  pub tool_calls : List ToolCall
  pub continuation : List RawMessage
