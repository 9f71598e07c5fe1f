-- ===== src/Agent/Alike.antt =====
-- The same answer of the agent, streamed and at once.
use gopher_agent_platform.Prelude.{◌≡◌, none, List, ◌∷◌, ◌++◌, concat, All}
use gopher_agent_platform.Exec.{Result, ok, Exec}
use gopher_agent_platform.Text.{Text}
use gopher_agent_platform.Chat.Model.{ModelMessage, ModelResult}
use gopher_agent_platform.Llm.{RawMessage, ToolCall}
use gopher_agent_platform.Openai.Client.{Sdk, Client, Request, Response, Event, completed}
use gopher_agent_platform.Openai.Stream
use gopher_agent_platform.Agent.{Session, ToolExecutor}
use gopher_agent_platform.Agent.Planning.{IsPassing, texts}

-- The SDK answers a request at once and in pieces alike: the same response, whose text is that of the
-- deltas among the events before it.
pub record AnswersAlike (sdk : Sdk) (request : Request) : Type 0 where
  pub response : Response
  pub before : List Event
  pub after : List Event
  pub passing : All IsPassing before
  pub created : sdk.create request ≡ ok response
  pub events : (sdk.stream request).events ≡ before ++ (completed response ∷ after)
  pub error : (sdk.stream request).error after ≡ none
  pub close : (sdk.stream request).close ≡ none
  pub text : concat (texts before) ≡ response.output_text

-- The same result, and the same calls of tools.
abbrev Same : Result ModelResult × Session → Result ModelResult × Session → Type 0
Same a b = (a.0 ≡ b.0) × (a.1.calls ≡ b.1.calls)

module _ (sdk : Sdk) (client : Client) (tools : ToolExecutor) (messages : List ModelMessage) where
  module _ (alike : (request : Request) → AnswersAlike sdk request) (calls : List ToolCall)
      (sent : List Text) where
    abbrev finishing_plainly : List RawMessage → ToolCall → RawMessage → Exec Session ModelResult
    finishing_plainly continuation call output =
        Stream.generate_with_tool_result sdk client messages continuation call output
