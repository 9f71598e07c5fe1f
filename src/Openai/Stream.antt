-- ===== src/Openai/Stream.antt =====
-- The calls of the model in internal/platform/openai/client.go, streamed and at once.
use gopher_agent_platform.Prelude.{
  true, false, not, Option, none, some, List, [], ◌∷◌, ◌++◌, map, all, if◌then◌else◌, ◌||◌, ◌==◌,
  length,
}
use gopher_agent_platform.Errors.{
  Err, sentinel, context, join, invalid_tool_call, response_failed, response_not_completed,
}
use gopher_agent_platform.Exec.{Result, ok, err, Exec, ◌>>=◌, ◌>>◌, pure, raise, fail, lift}
use gopher_agent_platform.Text.{Text, is_empty}
use gopher_agent_platform.Chat.Model.{ModelMessage, ModelResult}
use gopher_agent_platform.Llm.{RawMessage, ToolDefinition, ToolCall, ToolModelResult}
use gopher_agent_platform.Openai.Client.{
  Sdk, Client, Request, Response, OutputItem, InputItem, override, function_call_output, Event,
  text_delta, completed, failed, incomplete, other, messages_to_input, result_from_response,
  streamed_result, function_tools, parse_tool_calls, continuation_from_output, ToolParam,
}

-- The error of `Close`, joined to that of the call.
abbrev pub closed {ℓ} : {A : Type ℓ} → Option Err → Result A → Result A
closed none r = r
closed (some c) (ok a) = err (context c)
closed (some c) (err e) = err (join e (context c))

-- `stream.Err()` after the loop.
abbrev pub after_events {ℓ} : {A : Type ℓ} → Option Err → Result A → Result A
after_events none r = r
after_events (some e) r = err e

module _ {S : Type 0} (on_delta : Text → Exec S (Unit {0})) where
  -- The loop over the events, with the text so far, and what stands behind it.
  unfoldable pub read_events :
      (List Event → Option Err) → Text → List Event → Exec S (Response × Text)
  read_events error content [] =
      lift (after_events (error []) (err (sentinel response_not_completed)))
  read_events error content (text_delta delta ∷ events) = do
    on_delta delta
    read_events error (content ++ delta) events
  read_events error content (completed response ∷ events) =
      lift (after_events (error events) (ok (response, content)))
  read_events error content (failed ∷ events) = raise (context (sentinel response_failed))
  read_events error content (incomplete ∷ events) = fail response_not_completed
  read_events error content (other ∷ events) = read_events error content events

abbrev pub in_context {ℓ} : {A : Type ℓ} → Result A → Result A
in_context (ok a) = ok a
in_context (err e) = err (context e)

module _ (sdk : Sdk) where
  -- streamResponse
  unfoldable pub stream_response :
      {S : Type 0} → (Text → Exec S (Unit {0})) → Request → Exec S (Response × Text)
  unfolding read_events
  stream_response on_delta request s =
      let stream = sdk.stream request in
      let r = read_events on_delta stream.error [] stream.events s in (closed stream.close r.0, r.1)

  -- The input of a request with the output of a tool, checked.
  unfoldable pub tool_result_input :
      List ModelMessage → List RawMessage → ToolCall → RawMessage → Result (List InputItem)
  tool_result_input messages continuation call output =
      if is_empty call.id
        || is_empty call.call_id
        || is_empty call.name
        || not (sdk.valid_json call.arguments)
        || length continuation == 0
        || is_empty output
        || not (sdk.valid_json output)
      then err (sentinel invalid_tool_call)
      else if not (all sdk.valid_json continuation)
      then err (sentinel invalid_tool_call)
      else ok (
          messages_to_input messages
          ++ map override continuation
          ++ (function_call_output call.call_id output ∷ []))

  module _ (client : Client) where
    abbrev pub request_of : List InputItem → Request
    request_of input = record {
      model = client.model;
      input = input;
      tools = [];
      include_reasoning = false;
      store = not client.disable_response_storage;
      effort = client.reasoning_effort;
    }

    abbrev pub request_with_tools : List ModelMessage → List ToolParam → Request
    request_with_tools messages params = record (request_of (messages_to_input messages)) {
      tools = params;
      include_reasoning = true;
    }

    abbrev requested {ℓ} : {S : Type ℓ} → Request → Exec S Response
    requested request = lift (in_context (sdk.create request))

    unfoldable pub generate {ℓ} : {S : Type ℓ} → List ModelMessage → Exec S ModelResult
    generate messages = do
      response ← requested (request_of (messages_to_input messages))
      pure (result_from_response response)

    abbrev planned {ℓ} : {S : Type ℓ} → List OutputItem → ModelResult → Exec S ToolModelResult
    planned output result = do
      tool_calls ← lift (parse_tool_calls sdk output)
      continuation ← lift (continuation_from_output sdk output)
      pure record { result = some result; tool_calls = tool_calls; continuation = continuation }

    unfoldable pub generate_with_tools {ℓ} :
        {S : Type ℓ} → List ModelMessage → List ToolDefinition → Exec S ToolModelResult
    generate_with_tools messages tools = do
      params ← lift (function_tools sdk tools)
      response ← requested (request_with_tools messages params)
      planned response.output (result_from_response response)

    unfoldable pub generate_with_tool_result {ℓ} :
        {S : Type ℓ}
        → List ModelMessage
        → List RawMessage
        → ToolCall
        → RawMessage
        → Exec S ModelResult
    unfolding tool_result_input
    generate_with_tool_result messages continuation call output = do
      input ← lift (tool_result_input messages continuation call output)
      response ← requested (request_of input)
      pure (result_from_response response)

    module _ {S : Type 0} (on_delta : Text → Exec S (Unit {0})) where
      unfoldable pub generate_stream : List ModelMessage → Exec S ModelResult
      generate_stream messages = do
        streamed ← stream_response on_delta (request_of (messages_to_input messages))
        pure (streamed_result streamed)

      unfoldable pub generate_stream_with_tools :
          List ModelMessage → List ToolDefinition → Exec S ToolModelResult
      generate_stream_with_tools messages tools = do
        params ← lift (function_tools sdk tools)
        streamed ← stream_response on_delta (request_with_tools messages params)
        planned streamed.0.output (streamed_result streamed)

      unfoldable pub generate_stream_with_tool_result :
          List ModelMessage → List RawMessage → ToolCall → RawMessage → Exec S ModelResult
      unfolding tool_result_input
      generate_stream_with_tool_result messages continuation call output = do
        input ← lift (tool_result_input messages continuation call output)
        streamed ← stream_response on_delta (request_of input)
        pure (streamed_result streamed)
