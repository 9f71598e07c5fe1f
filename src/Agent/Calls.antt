-- ===== src/Agent/Calls.antt =====
-- How often the agent calls a tool.
use gopher_agent_platform.Prelude.{
  ◌≡◌, refl, ap, ◌∙◌, Option, none, some, List, [], ◌∷◌, ◌++◌, inl, inr, Bool-cases, Option-cases,
  length, ◌==◌, ◌⊎◌,
}
use gopher_agent_platform.Exec.{Exec, pure, Result-cases}
use gopher_agent_platform.Text.{Text}
use gopher_agent_platform.Chat.Model.{ModelMessage, ModelResult}
use gopher_agent_platform.Llm.{RawMessage, ToolCall, ToolModelResult}
use gopher_agent_platform.Openai.Client.{Sdk, Client}
use gopher_agent_platform.Openai.Stream
use gopher_agent_platform.Openai.Calls.{
  generate_with_tools_state, generate_with_tool_result_state, generate_stream_keeps,
  generate_stream_with_tools_keeps, generate_stream_with_tool_result_keeps,
}
use gopher_agent_platform.Agent.{
  Session, Buffer, ToolExecutor, check_context, on_delta, buffer_planning_delta, empty_buffer,
  call_tool, by_calls, after_call, forward, after_planning, generate, generate_stream_with_planning,
  generate_stream,
}
use gopher_agent_platform.Agent.Openai.{openai_model, openai_streaming, not_nil}
use gopher_agent_platform.Agent.Forwarding.{
  Untouched, buffer-Untouched, forward_calls, on_delta_calls, finishing, answered,
}

-- One call of a tool at most, of which the record tells.
abbrev pub OneMore : Session → Session → Type 0
OneMore s t = (t.calls ≡ s.calls) ⊎ ((call : ToolCall) × (t.calls ≡ s.calls ++ (call ∷ [])))

module _ (sdk : Sdk) (client : Client) (tools : ToolExecutor) (messages : List ModelMessage) where
  after_call-OneMore :
      (finish : RawMessage → Exec Session (Option ModelResult)) (planned : ModelResult)
      (call : ToolCall) (s : Session)
      → ((o : RawMessage) (t : Session) → (finish o t).1.calls ≡ t.calls)
      → OneMore s (after_call tools finish planned call s).1
  unfolding call_tool
  after_call-OneMore finish planned call s keeps =
      elim (Result-cases (tools.call call.name call.arguments)) [
        | inr (e, p) ↦ rw p (inr (call, refl))
        | inl (output, p) ↦
            let t = (call_tool tools call s).1 in
            let kept = keeps output t in
            rw p (elim (Result-cases (finish output t).0) [
              | inr (e, q) ↦ rw q (inr (call, kept))
              | inl (none, q) ↦ rw q (inr (call, kept))
              | inl (some final, q) ↦ rw q (inr (call, kept))
            ])
      ]

  finishing_calls :
      (continuation : List RawMessage) (call : ToolCall) (o : RawMessage) (s : Session)
      → (not_nil (finishing sdk client tools messages continuation call o) s).1.calls ≡ s.calls
  finishing_calls continuation call o s =
      let m = finishing sdk client tools messages continuation call o in
      let kept =
        generate_stream_with_tool_result_keeps on_delta sdk client (λ t. t.calls ≡ s.calls)
          (λ d t h. on_delta_calls d t ∙ h) messages continuation call o s refl in
      elim (Result-cases (m s).0) [ inl (a, p) ↦ rw p kept | inr (e, p) ↦ rw p kept ]

  answered-OneMore :
      (calls : List ToolCall) (continuation : List RawMessage) (result : ModelResult)
      (ds : List Text) (s : Session)
      → OneMore s (answered sdk client tools messages calls continuation result ds s).1
  answered-OneMore [] continuation result ds s = elim (Result-cases (forward ds s).0) [
    | inl (a, p) ↦ rw p (inl (forward_calls ds s))
    | inr (e, p) ↦ rw p (inl (forward_calls ds s))
  ]
  answered-OneMore (call ∷ []) continuation result ds s =
      after_call-OneMore (λ o. not_nil (finishing sdk client tools messages continuation call o))
        result call s (finishing_calls continuation call)
  answered-OneMore (call ∷ more ∷ calls) continuation result ds s = inl refl

  after_planning-OneMore :
      (ds : List Text) (planning : ToolModelResult) (s : Session)
      → OneMore s
          (after_planning tools (openai_streaming sdk client) messages ds (some planning) s).1
  unfolding after_planning check_context
  after_planning-OneMore ds planning s = elim (Option-cases planning.result) [
    | inl k ↦ rw k (inl refl)
    | inr (result, k) ↦ elim (Result-cases (check_context s).0) [
      | inr (e, p) ↦ rw (k, p) (inl refl)
      | inl (_, p) ↦
          rw (k, p)
            (answered-OneMore planning.tool_calls planning.continuation result ds
              (check_context s).1)
    ]
  ]

  planned-OneMore :
      (s : Session)
      → OneMore s (generate_stream_with_planning tools (openai_streaming sdk client) messages s).1
  unfolding generate_stream_with_planning
  planned-OneMore s =
      let x : Session × Buffer = (s, empty_buffer) in
      let m =
        Stream.generate_stream_with_tools sdk client buffer_planning_delta messages tools.tools in
      let kept =
        generate_stream_with_tools_keeps buffer_planning_delta sdk client (λ y. Untouched s y.0)
          (buffer-Untouched s) messages tools.tools x (refl, refl) in
      elim (Result-cases (m x).0) [
        | inr (e, p) ↦ rw p (inl kept.0)
        | inl (planning, p) ↦
            rw p (elim (after_planning-OneMore (m x).1.1.deltas planning (m x).1.0) [
              | inl q ↦ inl (q ∙ kept.0)
              | inr (call, q) ↦ inr (call, q ∙ ap (λ t. t ++ (call ∷ [])) kept.0)
            ])
      ]

  streamed-OneMore :
      (s : Session)
      → OneMore s
          (generate_stream tools
            (openai_model sdk client)
            (some (openai_streaming sdk client))
            messages
            s).1
  unfolding generate_stream
  streamed-OneMore s =
      let m = Stream.generate_stream sdk client on_delta messages in
      let kept =
        generate_stream_keeps on_delta sdk client (λ t. t.calls ≡ s.calls)
          (λ d t h. on_delta_calls d t ∙ h) messages s refl in
      let g = generate_stream_with_planning tools (openai_streaming sdk client) messages in
      elim (Bool-cases (length tools.tools == 0)) [
        | inl n ↦ rw n (elim (Result-cases (m s).0) [
          | inl (a, p) ↦ rw p (inl kept)
          | inr (e, p) ↦ rw p (inl kept)
        ])
        | inr n ↦ rw n (elim (Result-cases (g s).0) [
          | inl (a, p) ↦ rw p (planned-OneMore s)
          | inr (e, p) ↦ rw p (planned-OneMore s)
        ])
      ]

  finishing_plainly_calls :
      (continuation : List RawMessage) (call : ToolCall) (o : RawMessage) (s : Session)
      → (not_nil
          (Stream.generate_with_tool_result sdk client messages continuation call o)
          s).1.calls
        ≡ s.calls
  finishing_plainly_calls continuation call o s =
      let m = Stream.generate_with_tool_result sdk client messages continuation call o in
      let kept =
        ap (λ t. t.calls)
          (generate_with_tool_result_state sdk client messages continuation call o s) in
      elim (Result-cases (m s).0) [ inl (a, p) ↦ rw p kept | inr (e, p) ↦ rw p kept ]

  called-OneMore :
      (calls : List ToolCall) (continuation : List RawMessage) (result : ModelResult) (s : Session)
      → OneMore s
          (by_calls calls
            (pure result)
            (λ call.
              after_call tools
                (λ o.
                  not_nil
                    (Stream.generate_with_tool_result sdk client messages continuation call o))
                result
                call)
            s).1
  called-OneMore [] continuation result s = inl refl
  called-OneMore (call ∷ []) continuation result s =
      after_call-OneMore
        (λ o. not_nil (Stream.generate_with_tool_result sdk client messages continuation call o))
        result call s (finishing_plainly_calls continuation call)
  called-OneMore (call ∷ more ∷ calls) continuation result s = inl refl

  plain-OneMore : (s : Session) → OneMore s (generate tools (openai_model sdk client) messages s).1
  unfolding generate
  plain-OneMore s =
      let m = Stream.generate_with_tools sdk client messages tools.tools in
      let kept = ap (λ t. t.calls) (generate_with_tools_state sdk client messages tools.tools s) in
      elim (Result-cases (m s).0) [
        | inr (e, p) ↦ rw p (inl kept)
        | inl (planning, p) ↦ rw p (elim (Option-cases planning.result) [
          | inl k ↦ rw k (inl kept)
          | inr (result, k) ↦
              rw k (elim (called-OneMore planning.tool_calls planning.continuation result (m s).1) [
                | inl q ↦ inl (q ∙ kept)
                | inr (call, q) ↦ inr (call, q ∙ ap (λ t. t ++ (call ∷ [])) kept)
              ])
        ])
      ]

  -- Generate and GenerateStream, over the client of OpenAI and whatever it and the tools answer, call
  -- one tool at most.
  pub generate-OneMore :
      (s : Session)
      → OneMore s (generate tools (openai_model sdk client) messages s).1
        × OneMore s
            (generate_stream tools
              (openai_model sdk client)
              (some (openai_streaming sdk client))
              messages
              s).1
  generate-OneMore s = (plain-OneMore s, streamed-OneMore s)
