-- ===== src/Agent/Planning.antt =====
-- The planning text that the agent holds back, and the same answer streamed and at once.
use gopher_agent_platform.Prelude.{
  ◌+◌, ◌-◌, ◌≤◌, ◌<◌, ◌≢◌, ◌≡◌, refl, sym, ap, ◌∙◌, false, Option, none, some, List, [], ◌∷◌, ◌++◌,
  append_assoc, append-nil, inl, inr, Bool-cases, concat, arith, length, All, length-append, ◌==◌,
  ltb,
}
use gopher_agent_platform.Errors.{Err, sentinel, planning_output_too_large}
use gopher_agent_platform.Exec.{ok, err}
use gopher_agent_platform.Text.{Text}
use gopher_agent_platform.Chat.Model.{ModelMessage}
use gopher_agent_platform.Llm.{ToolCall}
use gopher_agent_platform.Openai.Client.{
  Sdk, Client, Request, Response, Event, text_delta, completed, failed, incomplete, other,
  ToolParam, function_tools,
}
use gopher_agent_platform.Openai.Stream
use gopher_agent_platform.Openai.Stream.{
  read_events, stream_response, request_of, request_with_tools, tool_result_input,
}
use gopher_agent_platform.Agent.{
  Session, Buffer, ToolExecutor, max_planning_output_runes, check_context, keep_delta,
  buffer_planning_delta, empty_buffer, generate_stream_with_planning, generate_stream,
}
use gopher_agent_platform.Agent.Openai.{openai_model, openai_streaming}

-- A request whose context stays alive.
abbrev pub calm : List ToolCall → List Text → List (Option Err) → Session
calm calls sent writes = record { calls = calls; sent = sent; contexts = []; writes = writes }

-- The events that the loop reads on after: the deltas of the text, and all that it skips, such as the
-- events of a tool call.
abbrev pub IsPassing : Event → Type 0
IsPassing (text_delta d) = Unit
IsPassing other = Unit
IsPassing (completed response) = ⊥
IsPassing failed = ⊥
IsPassing incomplete = ⊥

-- The pieces of the text among the events.
abbrev pub texts : List Event → List Text
texts [] = []
texts (text_delta d ∷ events) = d ∷ texts events
texts (e ∷ events) = texts events

-- The errors of the buffer: none while the text fits.
module _ (error : List Event → Option Err) (calls : List ToolCall) (sent : List Text)
    (writes : List (Option Err)) where
  overflow :
      (events rest : List Event) (content : Text) (b : Buffer)
      → All IsPassing events
      → b.rune_count ≤ max_planning_output_runes
      → max_planning_output_runes < b.rune_count + length (concat (texts events))
      → let r =
          read_events buffer_planning_delta error content
            (events ++ rest)
            (calm calls sent writes, b) in
        (r.0 ≡ err (sentinel planning_output_too_large)) × (r.1.0 ≡ calm calls sent writes)
  unfolding read_events buffer_planning_delta keep_delta check_context
  overflow [] rest content b a h k = absurd (omega arith)
  overflow (other ∷ events) rest content b a h k = overflow events rest content b a.1 h k
  overflow (completed response ∷ events) rest content b a h k = absurd a.0
  overflow (failed ∷ events) rest content b a h k = absurd a.0
  overflow (incomplete ∷ events) rest content b a h k = absurd a.0
  overflow (text_delta [] ∷ events) rest content b a h k =
      overflow events rest (content ++ []) b a.1 h k
  overflow (text_delta (c ∷ d) ∷ events) rest content b a h k =
      elim (Bool-cases (ltb (max_planning_output_runes - b.rune_count) (length (c ∷ d)))) [
        | inl p ↦ rw p (refl, refl)
        | inr p ↦ rw p (
            overflow events rest (content ++ (c ∷ d)) _ a.1 (ground arith)
              (omega (arith, k, length-append (c ∷ d) (concat (texts events)))))
      ]

  pub fits :
      (events after : List Event) (response : Response) (content : Text) (b : Buffer)
      → All IsPassing events
      → error after ≡ none
      → b.rune_count + length (concat (texts events)) ≤ max_planning_output_runes
      → let r =
          read_events buffer_planning_delta error content
            (events ++ (completed response ∷ after))
            (calm calls sent writes, b) in
        (r.0 ≡ ok (response, content ++ concat (texts events))) × (r.1.0 ≡ calm calls sent writes)
  unfolding read_events buffer_planning_delta keep_delta check_context
  fits [] after response content b a e h =
      rw e (ap (λ t. ok (response, t)) (sym (append-nil content)), refl)
  fits (other ∷ events) after response content b a e h =
      fits events after response content b a.1 e h
  fits (completed r ∷ events) after response content b a e h = absurd a.0
  fits (failed ∷ events) after response content b a e h = absurd a.0
  fits (incomplete ∷ events) after response content b a e h = absurd a.0
  fits (text_delta [] ∷ events) after response content b a e h =
      let r = fits events after response (content ++ []) b a.1 e h in
      (r.0 ∙ ap (λ t. ok (response, t ++ concat (texts events))) (append-nil content), r.1)
  fits (text_delta (c ∷ d) ∷ events) after response content b a e h =
      let q : ltb (max_planning_output_runes - b.rune_count) (length (c ∷ d)) ≡ false =
        ground (arith, length-append (c ∷ d) (concat (texts events))) in
      let r =
        fits events after response (content ++ (c ∷ d)) _ a.1 e
          (omega (arith, length-append (c ∷ d) (concat (texts events)))) in
      rw q (
        r.0 ∙ ap (λ t. ok (response, t)) (append_assoc content (c ∷ d) (concat (texts events))),
        r.1,
      )

module _ (sdk : Sdk) (client : Client) (tools : ToolExecutor) (messages : List ModelMessage) where
  abbrev planning_request : List ToolParam → Request
  planning_request params = request_with_tools sdk client messages params

  -- Where there are tools, whose definitions are taken, the context stays alive, the stream closes without
  -- an error, and before its end, or any event that ends it, it has brought more than 20000 runes of
  -- planning text, with whatever other events among them, GenerateStream gives the error of a planning
  -- output that is too large, sends nothing and calls no tool.
  pub planning_too_large :
      (params : List ToolParam) (events rest : List Event) (calls : List ToolCall)
      (sent : List Text) (writes : List (Option Err))
      → function_tools sdk tools.tools ≡ ok params
      → length tools.tools ≢ 0
      → (sdk.stream (planning_request params)).events ≡ events ++ rest
      → All IsPassing events
      → (sdk.stream (planning_request params)).close ≡ none
      → max_planning_output_runes < length (concat (texts events))
      → generate_stream tools
          (openai_model sdk client)
          (some (openai_streaming sdk client))
          messages
          (calm calls sent writes)
        ≡ (err (sentinel planning_output_too_large), calm calls sent writes)
  unfolding generate_stream generate_stream_with_planning Stream.generate_stream_with_tools
      stream_response
  planning_too_large params events rest calls sent writes f n e a c h =
      let z : (length tools.tools == 0) ≡ false = ground arith in
      let r =
        overflow (sdk.stream (planning_request params)).error calls sent writes events rest []
          empty_buffer a (omega arith) (omega (arith, h)) in
      rw (z, f, c, e, r.0, r.1) refl
