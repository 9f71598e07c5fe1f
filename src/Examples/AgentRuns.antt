-- ===== src/Examples/AgentRuns.antt =====
-- The theorems about the agent at a model that asks for one tool.
use gopher_agent_platform.Prelude.{
  ℕ, zero, suc, ◌≡◌, refl, Bool, true, false, none, some, List, [], ◌∷◌, ◌++◌, arith, length,
  concat, append-nil, ap, All,
}
use gopher_agent_platform.Errors.{sentinel, planning_output_too_large}
use gopher_agent_platform.Exec.{ok, err}
use gopher_agent_platform.Text.{Text, text, trim_space}
use gopher_agent_platform.Database.Rows.{role_user}
use gopher_agent_platform.Chat.Model.{ModelMessage, ModelResult}
use gopher_agent_platform.Openai.Client.{
  Sdk, Client, Request, Response, OutputItem, Event, other, text_delta, completed, function_tools,
  parse_tool_calls, continuation_from_output,
}
use gopher_agent_platform.Openai.Stream as Calls
use gopher_agent_platform.Agent.{
  Session, ToolExecutor, generate, generate_stream, generate_stream_with_planning, after_planning,
  call_tool, check_context, buffer_planning_delta, keep_delta, on_delta,
}
use gopher_agent_platform.Agent.Openai.{openai_model, openai_streaming}
use gopher_agent_platform.Agent.Forwarding.{sent_text, sent-generate_stream}
use gopher_agent_platform.Agent.Calls.{OneMore, generate-OneMore}
use gopher_agent_platform.Agent.Planning.{calm, IsPassing, texts, planning_too_large}
use gopher_agent_platform.Agent.Alike.{AnswersAlike}

abbrev weather_call : OutputItem
weather_call = record {
  type = text "function_call";
  id = text "fc_1";
  call_id = text "call_1";
  name = text "weather";
  arguments = text "{}";
  raw_json = text "{}";
}

abbrev response_of : Text → List OutputItem → Response
response_of content output = record {
  output_text = content;
  model = text "gpt";
  input_tokens = 3;
  output_tokens = 2;
  total_tokens = 5;
  output = output;
}

-- A request with tools is answered by a call of one, and any other by a text.
abbrev answer : Bool → Response
answer true = response_of (text "Let me see.") (weather_call ∷ [])
answer false = response_of (text "It is sunny.") []

-- The stream of a response with a tool call has the events of that call too.
abbrev pieces : Bool → List Event
pieces true = other ∷ text_delta (text "Let me ") ∷ text_delta (text "see.") ∷ other ∷ other ∷ []
pieces false = other ∷ text_delta (text "It is ") ∷ text_delta (text "sunny.") ∷ []

abbrev sdk : Sdk
sdk = record {
  create = λ request. ok (answer request.include_reasoning);
  stream = λ request. record {
    events =
        pieces request.include_reasoning ++ (completed (answer request.include_reasoning) ∷ []);
    error = λ events. none;
    close = none;
  };
  valid_json = λ raw. true;
  is_object = λ raw. true;
}

abbrev client : Client
client = record {
  model = text "gpt";
  reasoning_effort = text "low";
  disable_response_storage = true;
}

abbrev tools : ToolExecutor
tools = record {
  tools = record { name = text "weather"; description = []; input_schema = text "{}" } ∷ [];
  call = λ name arguments. ok (text "{}");
}

abbrev question : List ModelMessage
question = record { role = role_user; content = text "How is the weather?" } ∷ []

abbrev quiet : Session
quiet = calm [] [] []

abbrev final : ModelResult
final = record {
  content = text "It is sunny.";
  model = text "gpt";
  input_tokens = 6;
  output_tokens = 4;
  total_tokens = 10;
}

answered :
    (generate_stream tools
      (openai_model sdk client)
      (some (openai_streaming sdk client))
      question
      quiet).0
    ≡ ok (some final)
unfolding generate_stream generate_stream_with_planning after_planning call_tool check_context
    buffer_planning_delta keep_delta on_delta function_tools parse_tool_calls
    continuation_from_output Calls.generate_stream_with_tools Calls.generate_stream_with_tool_result
    Calls.tool_result_input Calls.stream_response Calls.read_events trim_space
answered = refl

sent-generate_stream_example :
    sent_text
      (generate_stream tools
        (openai_model sdk client)
        (some (openai_streaming sdk client))
        question
        quiet).1
    ≡ text "It is sunny."
sent-generate_stream_example = sent-generate_stream sdk client tools question quiet final answered

generate-OneMore_example :
    OneMore quiet (generate tools (openai_model sdk client) question quiet).1
    × OneMore quiet
        (generate_stream tools
          (openai_model sdk client)
          (some (openai_streaming sdk client))
          question
          quiet).1
generate-OneMore_example = generate-OneMore sdk client tools question quiet

abbrev alike : (request : Request) → AnswersAlike sdk request
alike request = record {
  response = answer request.include_reasoning;
  before = pieces request.include_reasoning;
  after = [];
  passing = elim request.include_reasoning as (λ b. All IsPassing (pieces b)) [
    | true ↦ (tt, (tt, (tt, (tt, (tt, tt)))))
    | false ↦ (tt, (tt, (tt, tt)))
  ];
  created = refl;
  events = refl;
  error = refl;
  close = refl;
  text =
      elim request.include_reasoning as (λ b. concat (texts (pieces b)) ≡ (answer b).output_text) [
        | true ↦ refl
        | false ↦ refl
      ];
}

abbrev pub repeated : ℕ → Text
repeated zero = []
repeated (suc n) = b'a' ∷ repeated n

length-repeated : (n : ℕ) → length (repeated n) ≡ n
length-repeated zero = refl
length-repeated (suc n) = omega (arith, length-repeated n)

module _ (long : Text) where
  abbrev talkative : Sdk
  talkative = record sdk {
    stream = λ request. record {
      events = other ∷ text_delta long ∷ [];
      error = λ events. none;
      close = none;
    };
  }

one_weather_tool :
    (long : Text)
    → function_tools (talkative long) tools.tools
      ≡ ok (record { name = text "weather"; schema = text "{}"; description = none } ∷ [])
unfolding function_tools trim_space
one_weather_tool long = refl

planning_too_large_example :
    (generate_stream tools
      (openai_model (talkative (repeated 20001)) client)
      (some (openai_streaming (talkative (repeated 20001)) client))
      question
      quiet)
    ≡ (err (sentinel planning_output_too_large), quiet)
planning_too_large_example =
    planning_too_large (talkative (repeated 20001)) client tools question _
      (other ∷ text_delta (repeated 20001) ∷ []) [] [] [] [] (one_weather_tool (repeated 20001))
      (omega arith) refl (tt, (tt, tt)) refl
      (omega (arith, length-repeated 20001, ap length (append-nil (repeated 20001))))
