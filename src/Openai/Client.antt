-- ===== src/Openai/Client.antt =====
-- The requests of internal/platform/openai/client.go. The SDK, which sends a request and decodes the
-- answer or the events of a stream, and encoding/json are parameters.
use gopher_agent_platform.Prelude.{
  ℕ, Bool, true, not, Option, none, some, List, [], ◌∷◌, map, if◌then◌else◌, ◌&&◌, ◌||◌,
}
use gopher_agent_platform.Errors.{
  Err, sentinel, missing_model, unsupported_wire_api, missing_api_key, invalid_tool_definition,
  invalid_tool_call,
}
use gopher_agent_platform.Exec.{Result, ok, err}
use gopher_agent_platform.Text.{Text, text, text_eq, trim_space, is_empty}
use gopher_agent_platform.Chat.Model.{ModelMessage, ModelResult}
use gopher_agent_platform.Llm.{RawMessage, ToolDefinition, ToolCall}

pub record Config : Type 0 where
  pub api_key : Text
  pub model : Text
  pub wire_api : Text
  pub requires_auth : Bool
  pub reasoning_effort : Text
  pub disable_response_storage : Bool

-- One item of a request: a message, an item of an earlier answer as it was, the output of a tool.
pub data InputItem : Type 0 where
  message : ModelMessage → InputItem
  override : RawMessage → InputItem
  function_call_output : Text → RawMessage → InputItem

-- A tool as the SDK takes it; a description of spaces is left out.
pub record ToolParam : Type 0 where
  pub name : Text
  pub schema : RawMessage
  pub description : Option Text

-- `responses.ResponseNewParams`
pub record Request : Type 0 where
  pub model : Text
  pub input : List InputItem
  pub tools : List ToolParam
  pub include_reasoning : Bool
  pub store : Bool
  pub effort : Text

-- One item of the output of an answer.
pub record OutputItem : Type 0 where
  pub type : Text
  pub id : Text
  pub call_id : Text
  pub name : Text
  pub arguments : RawMessage
  pub raw_json : RawMessage

-- `responses.Response`
pub record Response : Type 0 where
  pub output_text : Text
  pub model : Text
  pub input_tokens : ℕ
  pub output_tokens : ℕ
  pub total_tokens : ℕ
  pub output : List OutputItem

-- What `stream.Current` gives; the loop passes over events of any other type.
pub data Event : Type 0 where
  text_delta : Text → Event
  completed : Response → Event
  failed incomplete other : Event

-- A stream: the events that `Next` gives one after the other, `Err` for those that are left, and the
-- error of `Close`.
pub record Stream : Type 0 where
  pub events : List Event
  pub error : List Event → Option Err
  pub close : Option Err

-- `is_object` tells that a text decodes to an object whose type is "object".
pub record Sdk : Type 0 where
  pub create : Request → Result Response
  pub stream : Request → Stream
  pub valid_json : RawMessage → Bool
  pub is_object : RawMessage → Bool

-- `Client`, without the SDK's client.
pub record Client : Type 0 where
  pub model : Text
  pub reasoning_effort : Text
  pub disable_response_storage : Bool

unfoldable pub new_client_with_config : Config → Result Client
new_client_with_config config =
    if is_empty (trim_space config.model)
    then err (sentinel missing_model)
    else if not (text_eq config.wire_api (text "responses"))
    then err (sentinel unsupported_wire_api)
    else if config.requires_auth && is_empty (trim_space config.api_key)
    then err (sentinel missing_api_key)
    else ok record {
      model = config.model;
      reasoning_effort = config.reasoning_effort;
      disable_response_storage = config.disable_response_storage;
    }

unfoldable pub new_client : Text → Text → Result Client
unfolding new_client_with_config
new_client api_key model = new_client_with_config record {
  api_key = api_key;
  model = model;
  wire_api = text "responses";
  requires_auth = true;
  reasoning_effort = text "low";
  disable_response_storage = true;
}

abbrev pub messages_to_input : List ModelMessage → List InputItem
messages_to_input messages = map message messages

-- resultFromResponse
abbrev pub result_from_response : Response → ModelResult
result_from_response response = record {
  content = response.output_text;
  model = response.model;
  input_tokens = response.input_tokens;
  output_tokens = response.output_tokens;
  total_tokens = response.total_tokens;
}

-- The result of a stream: its content is what was streamed.
abbrev pub streamed_result : Response × Text → ModelResult
streamed_result (response, content) = record (result_from_response response) { content = content }

abbrev pub param_opt_string : Text → Option Text
param_opt_string value = if is_empty (trim_space value) then none else some value

abbrev pub push {ℓ} : {A : Type ℓ} → A → Result (List A) → Result (List A)
push a (ok rest) = ok (a ∷ rest)
push a (err e) = err e

module _ (sdk : Sdk) where
  unfoldable pub function_tools : List ToolDefinition → Result (List ToolParam)
  function_tools [] = ok []
  function_tools (tool ∷ tools) =
      let rest = function_tools tools in
      if is_empty (trim_space tool.name) || is_empty tool.input_schema
      then err (sentinel invalid_tool_definition)
      else if not (sdk.is_object tool.input_schema)
      then err (sentinel invalid_tool_definition)
      else push
          record {
            name = tool.name;
            schema = tool.input_schema;
            description = param_opt_string tool.description;
          }
          rest

  unfoldable pub parse_tool_calls : List OutputItem → Result (List ToolCall)
  parse_tool_calls [] = ok []
  parse_tool_calls (item ∷ items) =
      let rest = parse_tool_calls items in
      if not (text_eq item.type (text "function_call"))
      then rest
      else if is_empty item.id
          || is_empty item.call_id
          || is_empty item.name
          || not (sdk.valid_json item.arguments)
      then err (sentinel invalid_tool_call)
      else push
          record {
            id = item.id;
            call_id = item.call_id;
            name = item.name;
            arguments = item.arguments;
          }
          rest

  unfoldable pub continuation_from_output : List OutputItem → Result (List RawMessage)
  continuation_from_output [] = ok []
  continuation_from_output (item ∷ items) =
      let rest = continuation_from_output items in
      if not (sdk.valid_json item.raw_json)
      then err (sentinel invalid_tool_call)
      else push item.raw_json rest
