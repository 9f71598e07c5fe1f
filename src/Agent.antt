-- ===== src/Agent.antt =====
-- internal/agent/client.go. The model and the tools are parameters: a streaming model calls its
-- argument for each piece of text, with whatever state the caller keeps.
pub mod Openai
pub mod Forwarding
pub mod Calls
pub mod Planning
pub mod Alike
use gopher_agent_platform.Prelude.{
  ℕ, suc, ◌+◌, ◌-◌, ◌%◌, ◌^◌, Bool, true, false, not, Option, none, some, List, [], ◌∷◌, ◌++◌, ltb,
  leb, ◌==◌, ◌||◌, length, if◌then◌else◌,
}
use gopher_agent_platform.Errors.{
  Err, sentinel, invalid_model, invalid_tool_executor, invalid_planning, multiple_tool_calls,
  planning_output_too_large, invalid_final_result,
}
use gopher_agent_platform.Exec.{Result, ok, err, Exec, ◌>>=◌, ◌>>◌, continue, pure, fail, lift}
use gopher_agent_platform.Text.{Text, is_empty}
use gopher_agent_platform.Chat.Model.{ModelMessage, ModelResult}
use gopher_agent_platform.Llm.{RawMessage, ToolDefinition, ToolCall, ToolModelResult}

abbrev pub max_planning_output_runes : ℕ
max_planning_output_runes = 20000

-- `Model`, for a caller with the state `S`; nil results are `none`.
pub record Model : Type 1 where
  pub generate_with_tools :
      {S : Type 0} → List ModelMessage → List ToolDefinition → Exec S (Option ToolModelResult)
  pub generate_with_tool_result :
      {S : Type 0}
      → List ModelMessage
      → List RawMessage
      → ToolCall
      → RawMessage
      → Exec S (Option ModelResult)
  pub generate_stream :
      {S : Type 0} → (Text → Exec S (Unit {0})) → List ModelMessage → Exec S (Option ModelResult)

-- `llm.StreamingToolModel`, which a model may implement too.
pub record StreamingToolModel : Type 1 where
  pub generate_stream_with_tools :
      {S : Type 0}
      → (Text → Exec S (Unit {0}))
      → List ModelMessage
      → List ToolDefinition
      → Exec S (Option ToolModelResult)
  pub generate_stream_with_tool_result :
      {S : Type 0}
      → (Text → Exec S (Unit {0}))
      → List ModelMessage
      → List RawMessage
      → ToolCall
      → RawMessage
      → Exec S (Option ModelResult)

-- `ToolExecutor`
pub record ToolExecutor : Type 0 where
  pub tools : List ToolDefinition
  pub call : Text → RawMessage → Result RawMessage

-- What a request to the agent reads and does outside: the calls of tools so far, the text that went
-- out, and the answers that `ctx.Err()` and the caller's `onDelta` have ahead (nil when none is left).
pub record Session : Type 0 where
  pub calls : List ToolCall
  pub sent : List Text
  pub contexts : List (Option Err)
  pub writes : List (Option Err)

abbrev pub next_of : List (Option Err) → Option Err
next_of [] = none
next_of (e ∷ es) = e

abbrev pub rest_of : List (Option Err) → List (Option Err)
rest_of [] = []
rest_of (e ∷ es) = es

abbrev pub answer_of {ℓ} : {A : Type ℓ} → Option Err → A → Result A
answer_of none a = ok a
answer_of (some e) a = err e

-- `ctx.Err()`
unfoldable pub check_context : Exec Session (Unit {0})
check_context s = (answer_of (next_of s.contexts) tt, record s { contexts = rest_of s.contexts })

abbrev pub written : Option Err → Text → List Text → List Text
written none delta sent = sent ++ (delta ∷ [])
written (some e) delta sent = sent

-- The caller's `onDelta`.
unfoldable pub on_delta : Text → Exec Session (Unit {0})
on_delta delta s = (
  answer_of (next_of s.writes) tt,
  record s { sent = written (next_of s.writes) delta s.sent; writes = rest_of s.writes },
)

-- The planning text that is held back.
pub record Buffer : Type 0 where
  pub deltas : List Text
  pub rune_count : ℕ

abbrev pub empty_buffer : Buffer
empty_buffer = record { deltas = []; rune_count = 0 }

-- The end of `bufferPlanningDelta`, for a context that is alive.
unfoldable pub keep_delta : Text → Exec (Session × Buffer) (Unit {0})
keep_delta delta (s, b) =
    if is_empty delta
    then (ok tt, (s, b))
    else if ltb (max_planning_output_runes - b.rune_count) (length delta)
    then (err (sentinel planning_output_too_large), (s, b))
    else (
      ok tt,
      (s, record { deltas = b.deltas ++ (delta ∷ []); rune_count = b.rune_count + length delta }),
    )

abbrev pub on_session : Exec Session (Unit {0}) → Exec (Session × Buffer) (Unit {0})
on_session m (s, b) = ((m s).0, ((m s).1, b))

unfoldable pub buffer_planning_delta : Text → Exec (Session × Buffer) (Unit {0})
unfolding check_context keep_delta
buffer_planning_delta delta = do on_session check_context; keep_delta delta

-- Sums of `int64`, by the bits of the two's complement.
abbrev pub add_int64 : ℕ → ℕ → ℕ
add_int64 a b = (a + b) % 2 ^ 64

-- `final.InputTokens += planning.Result.InputTokens` and the two lines after it.
abbrev pub with_usage : ModelResult → ModelResult → ModelResult
with_usage planning final = record final {
  input_tokens = add_int64 final.input_tokens planning.input_tokens;
  output_tokens = add_int64 final.output_tokens planning.output_tokens;
  total_tokens = add_int64 final.total_tokens planning.total_tokens;
}

-- The planning with its result, where neither is nil.
abbrev pub or_invalid :
    ToolModelResult → Option ModelResult → Result (ToolModelResult × ModelResult)
or_invalid planning none = err (sentinel invalid_planning)
or_invalid planning (some result) = ok (planning, result)

abbrev pub checked_planning : Option ToolModelResult → Result (ToolModelResult × ModelResult)
checked_planning none = err (sentinel invalid_planning)
checked_planning (some planning) = or_invalid planning planning.result

abbrev pub checked_final {ℓ} : {S : Type ℓ} → Option ModelResult → Exec S ModelResult
checked_final none = fail invalid_final_result
checked_final (some final) = pure final

-- NewClient
abbrev pub new_client : Bool → Bool → Result (Unit {0})
new_client has_model has_tools =
    if not has_model
    then err (sentinel invalid_model)
    else if not has_tools
    then err (sentinel invalid_tool_executor)
    else ok tt

-- `switch len(planning.ToolCalls)`
abbrev pub by_calls {ℓ κ} :
    {S : Type ℓ} {A : Type κ} → List ToolCall → Exec S A → (ToolCall → Exec S A) → Exec S A
by_calls [] none_called one_called = none_called
by_calls (call ∷ []) none_called one_called = one_called call
by_calls (call ∷ more ∷ calls) none_called one_called = fail multiple_tool_calls

-- The text that was held back goes out.
unfoldable pub forward : List Text → Exec Session (Unit {0})
unfolding check_context on_delta
forward [] = pure tt
forward (delta ∷ deltas) = do check_context; on_delta delta; forward deltas

module _ (tools : ToolExecutor) where
  -- `c.tools.Call`
  unfoldable pub call_tool : ToolCall → Exec Session RawMessage
  call_tool call s =
      (tools.call call.name call.arguments, record s { calls = s.calls ++ (call ∷ []) })

  -- The tool's answer goes back to the model, by `finish`.
  abbrev pub after_call :
      (RawMessage → Exec Session (Option ModelResult))
      → ModelResult
      → ToolCall
      → Exec Session ModelResult
  after_call finish planning call = do
    output ← call_tool call
    answer ← finish output
    final ← checked_final answer
    pure (with_usage planning final)

  -- The rest of GenerateStream, with the planning and the text that was held back.
  unfoldable pub after_planning :
      StreamingToolModel
      → List ModelMessage
      → List Text
      → Option ToolModelResult
      → Exec Session ModelResult
  unfolding call_tool check_context on_delta forward
  after_planning streaming messages deltas answer = do
    (planning, result) ← lift (checked_planning answer)
    check_context
    by_calls planning.tool_calls (forward deltas >> pure result) (λ call.
        after_call
          (streaming.generate_stream_with_tool_result on_delta messages planning.continuation call)
          result call)

  unfoldable pub generate_stream_with_planning :
      StreamingToolModel → List ModelMessage → Exec Session ModelResult
  unfolding buffer_planning_delta
  generate_stream_with_planning streaming messages s =
      let r =
        streaming.generate_stream_with_tools buffer_planning_delta messages tools.tools
          (s, empty_buffer) in
      continue r.0 (after_planning streaming messages r.1.1.deltas) r.1.0

  module _ (model : Model) where
    -- Client.Generate
    unfoldable pub generate : List ModelMessage → Exec Session ModelResult
    unfolding call_tool
    generate messages = do
      answer ← model.generate_with_tools messages tools.tools
      (planning, result) ← lift (checked_planning answer)
      by_calls planning.tool_calls (pure result) (λ call.
          after_call (model.generate_with_tool_result messages planning.continuation call) result
            call)

    -- Client.GenerateStream; a model without streaming tools, or no tools, is streamed plainly.
    unfoldable pub generate_stream :
        Option StreamingToolModel → List ModelMessage → Exec Session (Option ModelResult)
    unfolding generate_stream_with_planning
    generate_stream none messages = model.generate_stream on_delta messages
    generate_stream (some streaming) messages =
        if length tools.tools == 0
        then model.generate_stream on_delta messages
        else do result ← generate_stream_with_planning streaming messages; pure (some result)
