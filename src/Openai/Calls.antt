-- ===== src/Openai/Calls.antt =====
-- What the streamed calls of the model do to the state of their caller.
use gopher_agent_platform.Prelude.{◌≡◌, refl, some, List, ◌++◌, inl, inr, arith}
use gopher_agent_platform.Exec.{ok, Exec, Result-cases}
use gopher_agent_platform.Text.{Text}
use gopher_agent_platform.Chat.Model.{ModelMessage, ModelResult}
use gopher_agent_platform.Llm.{RawMessage, ToolDefinition, ToolCall, ToolModelResult}
use gopher_agent_platform.Openai.Client.{
  Client, messages_to_input, function_tools, parse_tool_calls, continuation_from_output, Sdk,
}
use gopher_agent_platform.Openai.Stream.{
  stream_response, request_of, request_with_tools, tool_result_input, generate_with_tools,
  generate_with_tool_result, generate_stream, generate_stream_with_tools,
  generate_stream_with_tool_result,
}
use gopher_agent_platform.Openai.Progress.{stream_response_keeps, stream_response_seen}

module _ {S : Type 0} (on_delta : Text → Exec S (Unit {0})) (sdk : Sdk) (client : Client) where
  pub generate_stream_with_tools_keeps :
      (P : S → Type 0)
      → ((d : Text) (s : S) → P s → P (on_delta d s).1)
      → (messages : List ModelMessage) (tools : List ToolDefinition) (s : S) → P s
      → P (generate_stream_with_tools sdk client on_delta messages tools s).1
  unfolding generate_stream_with_tools
  generate_stream_with_tools_keeps P step messages tools s h =
      elim (Result-cases (function_tools sdk tools)) [
        | inr (e, p) ↦ rw p h
        | inl (params, p) ↦
            let request = request_with_tools sdk client messages params in
            let kept = stream_response_keeps on_delta sdk P step request s h in
            rw p (elim (Result-cases (stream_response sdk on_delta request s).0) [
              | inr (e, q) ↦ rw q kept
              | inl (a, q) ↦ rw q (elim (Result-cases (parse_tool_calls sdk a.0.output)) [
                | inr (e, c) ↦ rw c kept
                | inl (calls, c) ↦
                    rw c (elim (Result-cases (continuation_from_output sdk a.0.output)) [
                      | inr (e, d) ↦ rw d kept
                      | inl (raws, d) ↦ rw d kept
                    ])
              ])
            ])
      ]

  pub generate_stream_with_tool_result_keeps :
      (P : S → Type 0)
      → ((d : Text) (s : S) → P s → P (on_delta d s).1)
      → (messages : List ModelMessage) (continuation : List RawMessage) (call : ToolCall)
        (output : RawMessage) (s : S)
      → P s
      → P
          (generate_stream_with_tool_result sdk client on_delta messages continuation call output
            s).1
  unfolding generate_stream_with_tool_result
  generate_stream_with_tool_result_keeps P step messages continuation call output s h =
      elim (Result-cases (tool_result_input sdk messages continuation call output)) [
        | inr (e, p) ↦ rw p h
        | inl (input, p) ↦
            let request = request_of sdk client input in
            let kept = stream_response_keeps on_delta sdk P step request s h in
            rw p (elim (Result-cases (stream_response sdk on_delta request s).0) [
              | inr (e, q) ↦ rw q kept
              | inl (a, q) ↦ rw q kept
            ])
      ]

  pub generate_stream_keeps :
      (P : S → Type 0)
      → ((d : Text) (s : S) → P s → P (on_delta d s).1)
      → (messages : List ModelMessage) (s : S) → P s
      → P (generate_stream sdk client on_delta messages s).1
  unfolding generate_stream
  generate_stream_keeps P step messages s h =
      let request = request_of sdk client (messages_to_input messages) in
      let kept = stream_response_keeps on_delta sdk P step request s h in
      elim (Result-cases (stream_response sdk on_delta request s).0) [
        | inr (e, q) ↦ rw q kept
        | inl (a, q) ↦ rw q kept
      ]

  module _ (seen : S → Text)
      (step : (d : Text) (s : S)
        → (on_delta d s).0 ≡ ok tt
        → seen (on_delta d s).1 ≡ seen s ++ d) where
    pub generate_stream_with_tools_seen :
        (messages : List ModelMessage) (tools : List ToolDefinition) (s : S)
        (planning : ToolModelResult) (result : ModelResult)
        → (generate_stream_with_tools sdk client on_delta messages tools s).0 ≡ ok planning
        → planning.result ≡ some result
        → seen (generate_stream_with_tools sdk client on_delta messages tools s).1
          ≡ seen s ++ result.content
    unfolding generate_stream_with_tools
    generate_stream_with_tools_seen messages tools s planning result h k =
        elim (Result-cases (function_tools sdk tools)) [
          | inr (e, p) ↦ let z = rw p at h in cc
          | inl (params, p) ↦
              let request = request_with_tools sdk client messages params in
              rw p (elim (Result-cases (stream_response sdk on_delta request s).0) [
                | inr (e, q) ↦ let z = rw (p, q) at h in cc
                | inl (a, q) ↦
                    let held = stream_response_seen on_delta sdk seen step request s a q in
                    rw q (elim (Result-cases (parse_tool_calls sdk a.0.output)) [
                      | inr (e, c) ↦ let z = rw (p, q, c) at h in cc
                      | inl (calls, c) ↦
                          rw c (elim (Result-cases (continuation_from_output sdk a.0.output)) [
                            | inr (e, d) ↦ let z = rw (p, q, c, d) at h in cc
                            | inl (raws, d) ↦
                                let z = rw (p, q, c, d) at h in rw d (ground (arith, z, k, held))
                          ])
                    ])
              ])
        ]

    pub generate_stream_with_tool_result_seen :
        (messages : List ModelMessage) (continuation : List RawMessage) (call : ToolCall)
        (output : RawMessage) (s : S) (result : ModelResult)
        → (generate_stream_with_tool_result sdk client on_delta messages continuation call output
            s).0
          ≡ ok result
        → seen
            (generate_stream_with_tool_result sdk client on_delta messages continuation call output
              s).1
          ≡ seen s ++ result.content
    unfolding generate_stream_with_tool_result
    generate_stream_with_tool_result_seen messages continuation call output s result h =
        elim (Result-cases (tool_result_input sdk messages continuation call output)) [
          | inr (e, p) ↦ let z = rw p at h in cc
          | inl (input, p) ↦
              let request = request_of sdk client input in
              rw p (elim (Result-cases (stream_response sdk on_delta request s).0) [
                | inr (e, q) ↦ let z = rw (p, q) at h in cc
                | inl (a, q) ↦
                    let held = stream_response_seen on_delta sdk seen step request s a q in
                    let z = rw (p, q) at h in rw q (ground (arith, z, held))
              ])
        ]

    pub generate_stream_seen :
        (messages : List ModelMessage) (s : S) (result : ModelResult)
        → (generate_stream sdk client on_delta messages s).0 ≡ ok result
        → seen (generate_stream sdk client on_delta messages s).1 ≡ seen s ++ result.content
    unfolding generate_stream
    generate_stream_seen messages s result h =
        let request = request_of sdk client (messages_to_input messages) in
        elim (Result-cases (stream_response sdk on_delta request s).0) [
          | inr (e, q) ↦ let z = rw q at h in cc
          | inl (a, q) ↦
              let held = stream_response_seen on_delta sdk seen step request s a q in
              let z = rw q at h in rw q (ground (arith, z, held))
        ]

-- The calls at once leave the state of the caller alone.
module _ {S : Type 0} (sdk : Sdk) (client : Client) where
  pub generate_with_tools_state :
      (messages : List ModelMessage) (tools : List ToolDefinition) (s : S)
      → (generate_with_tools sdk client messages tools s).1 ≡ s
  unfolding generate_with_tools
  generate_with_tools_state messages tools s = elim (Result-cases (function_tools sdk tools)) [
    | inr (e, p) ↦ rw p refl
    | inl (params, p) ↦
        let request = request_with_tools sdk client messages params in
        rw p (elim (Result-cases (sdk.create request)) [
          | inr (e, q) ↦ rw q refl
          | inl (a, q) ↦ rw q (elim (Result-cases (parse_tool_calls sdk a.output)) [
            | inr (e, c) ↦ rw c refl
            | inl (calls, c) ↦ rw c (elim (Result-cases (continuation_from_output sdk a.output)) [
              | inr (e, d) ↦ rw d refl
              | inl (raws, d) ↦ rw d refl
            ])
          ])
        ])
  ]

  pub generate_with_tool_result_state :
      (messages : List ModelMessage) (continuation : List RawMessage) (call : ToolCall)
      (output : RawMessage) (s : S)
      → (generate_with_tool_result sdk client messages continuation call output s).1 ≡ s
  unfolding generate_with_tool_result
  generate_with_tool_result_state messages continuation call output s =
      elim (Result-cases (tool_result_input sdk messages continuation call output)) [
        | inr (e, p) ↦ rw p refl
        | inl (input, p) ↦ rw p (elim (Result-cases (sdk.create (request_of sdk client input))) [
          | inr (e, q) ↦ rw q refl
          | inl (a, q) ↦ rw q refl
        ])
      ]
