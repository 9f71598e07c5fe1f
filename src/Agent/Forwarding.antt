-- ===== src/Agent/Forwarding.antt =====
-- What GenerateStream sends to the caller, and how often it calls a tool.
use gopher_agent_platform.Prelude.{
  ◌≡◌, refl, sym, ap, ◌∙◌, some, List, [], ◌∷◌, ◌++◌, append_assoc, append-nil, inl, inr,
  Bool-cases, Option-cases, concat, concat-snoc, arith, length, ◌==◌, ltb, ◌-◌,
}
use gopher_agent_platform.Exec.{ok, Exec, ◌>>◌, pure, Result-cases}
use gopher_agent_platform.Text.{Text}
use gopher_agent_platform.Chat.Model.{ModelMessage, ModelResult}
use gopher_agent_platform.Llm.{RawMessage, ToolCall, ToolModelResult}
use gopher_agent_platform.Openai.Client.{Sdk, Client}
use gopher_agent_platform.Openai.Stream
use gopher_agent_platform.Openai.Calls.{
  generate_stream_with_tools_keeps, generate_stream_with_tools_seen, generate_stream_seen,
  generate_stream_with_tool_result_seen,
}
use gopher_agent_platform.Agent.{
  Session, Buffer, ToolExecutor, max_planning_output_runes, check_context, on_delta, keep_delta,
  buffer_planning_delta, empty_buffer, next_of, call_tool, by_calls, after_call, forward,
  after_planning, generate_stream_with_planning, generate_stream,
}
use gopher_agent_platform.Agent.Openai.{openai_model, openai_streaming, not_nil}

-- The text that went out.
abbrev pub sent_text : Session → Text
sent_text s = concat s.sent

abbrev held_text : Session × Buffer → Text
held_text (s, b) = concat b.deltas

check_context_sent : (s : Session) → (check_context s).1.sent ≡ s.sent
unfolding check_context
check_context_sent s = refl

on_delta_sent :
    (d : Text) (s : Session)
    → (on_delta d s).0 ≡ ok tt
    → sent_text (on_delta d s).1 ≡ sent_text s ++ d
unfolding on_delta
on_delta_sent d s h = elim (Option-cases (next_of s.writes)) [
  | inl p ↦ rw p (concat-snoc s.sent d)
  | inr (e, p) ↦ let q = rw p at h in cc
]

keep_delta_held :
    (d : Text) (x : Session × Buffer)
    → (keep_delta d x).0 ≡ ok tt
    → held_text (keep_delta d x).1 ≡ held_text x ++ d
unfolding keep_delta
keep_delta_held [] (s, b) h = sym (append-nil (concat b.deltas))
keep_delta_held (c ∷ d) (s, b) h =
    elim (Bool-cases (ltb (max_planning_output_runes - b.rune_count) (length (c ∷ d)))) [
      | inl p ↦ let q = rw p at h in cc
      | inr p ↦ rw p (concat-snoc b.deltas (c ∷ d))
    ]

buffer_held :
    (d : Text) (x : Session × Buffer)
    → (buffer_planning_delta d x).0 ≡ ok tt
    → held_text (buffer_planning_delta d x).1 ≡ held_text x ++ d
unfolding buffer_planning_delta
buffer_held d (s, b) h = elim (Result-cases (check_context s).0) [
  | inl (_, p) ↦ rw p (keep_delta_held d ((check_context s).1, b) (rw p at h))
  | inr (e, p) ↦ let q = rw p at h in cc
]

-- The calls of tools and the text that went out, as they were.
abbrev pub Untouched : Session → Session → Type 0
Untouched s t = (t.calls ≡ s.calls) × (t.sent ≡ s.sent)

pub buffer-Untouched :
    (s : Session) (d : Text) (x : Session × Buffer)
    → Untouched s x.0
    → Untouched s (buffer_planning_delta d x).1.0
unfolding buffer_planning_delta keep_delta check_context
buffer-Untouched s d (t, b) h = ground (arith, h.0, h.1)

pub on_delta_calls : (d : Text) (s : Session) → (on_delta d s).1.calls ≡ s.calls
unfolding on_delta
on_delta_calls d s = ground arith

forward_sent :
    (ds : List Text) (s : Session)
    → (forward ds s).0 ≡ ok tt
    → sent_text (forward ds s).1 ≡ sent_text s ++ concat ds
unfolding forward
forward_sent [] s h = sym (append-nil (sent_text s))
forward_sent (d ∷ ds) s h =
    let t = (check_context s).1 in
    elim (Result-cases (check_context s).0) [
      | inr (e, p) ↦ let z = rw p at h in cc
      | inl (_, p) ↦ rw p (elim (Result-cases (on_delta d t).0) [
        | inr (e, q) ↦ let z = rw (p, q) at h in cc
        | inl (_, q) ↦
            let rest = forward_sent ds (on_delta d t).1 (rw (p, q) at h) in
            rw q (
              rest
              ∙ ap (λ x. x ++ concat ds)
                  (on_delta_sent d t q ∙ ap (λ x. concat x ++ d) (check_context_sent s))
              ∙ append_assoc (sent_text s) d (concat ds))
      ])
    ]

pub forward_calls : (ds : List Text) (s : Session) → (forward ds s).1.calls ≡ s.calls
unfolding forward check_context
forward_calls [] s = refl
forward_calls (d ∷ ds) s =
    let t = (check_context s).1 in
    elim (Result-cases (check_context s).0) [
      | inr (e, p) ↦ rw p refl
      | inl (_, p) ↦ rw p (elim (Result-cases (on_delta d t).0) [
        | inr (e, q) ↦ rw q (on_delta_calls d t)
        | inl (_, q) ↦ rw q (forward_calls ds (on_delta d t).1 ∙ on_delta_calls d t)
      ])
    ]

module _ (sdk : Sdk) (client : Client) (tools : ToolExecutor) (messages : List ModelMessage) where
  abbrev pub finishing : List RawMessage → ToolCall → RawMessage → Exec Session ModelResult
  finishing continuation call output =
      Stream.generate_stream_with_tool_result sdk client on_delta messages continuation call output

  after_call_sent :
      (continuation : List RawMessage) (call : ToolCall) (planned r : ModelResult) (s : Session)
      → (after_call tools (λ o. not_nil (finishing continuation call o)) planned call s).0 ≡ ok r
      → sent_text (after_call tools (λ o. not_nil (finishing continuation call o)) planned call s).1
        ≡ sent_text s ++ r.content
  unfolding call_tool
  after_call_sent continuation call planned r s h =
      elim (Result-cases (tools.call call.name call.arguments)) [
        | inr (e, p) ↦ let z = rw p at h in cc
        | inl (output, p) ↦
            let t = (call_tool tools call s).1 in
            rw p (elim (Result-cases (finishing continuation call output t).0) [
              | inr (e, q) ↦ let z = rw (p, q) at h in cc
              | inl (final, q) ↦
                  let out =
                    generate_stream_with_tool_result_seen on_delta sdk client sent_text
                      on_delta_sent messages continuation call output t final q in
                  let z = rw (p, q) at h in rw q (ground (arith, z, out))
            ])
      ]

  abbrev pub answered :
      List ToolCall → List RawMessage → ModelResult → List Text → Exec Session ModelResult
  answered calls continuation result ds =
      by_calls calls (forward ds >> pure result)
        (λ call. after_call tools (λ o. not_nil (finishing continuation call o)) result call)

  answered_sent :
      (calls : List ToolCall) (continuation : List RawMessage) (result r : ModelResult)
      (ds : List Text) (s : Session)
      → concat ds ≡ result.content
      → (answered calls continuation result ds s).0 ≡ ok r
      → sent_text (answered calls continuation result ds s).1 ≡ sent_text s ++ r.content
  answered_sent [] continuation result r ds s held h = elim (Result-cases (forward ds s).0) [
    | inr (e, p) ↦ let z = rw p at h in cc
    | inl (_, p) ↦
        let out = forward_sent ds s p in let z = rw p at h in rw p (ground (arith, z, out, held))
  ]
  answered_sent (call ∷ []) continuation result r ds s held h =
      after_call_sent continuation call result r s h
  answered_sent (call ∷ more ∷ calls) continuation result r ds s held h = cc

  after_planning_sent :
      (ds : List Text) (planning : ToolModelResult) (result r : ModelResult) (s : Session)
      → planning.result ≡ some result
      → concat ds ≡ result.content
      → (after_planning tools (openai_streaming sdk client) messages ds (some planning) s).0 ≡ ok r
      → sent_text
          (after_planning tools (openai_streaming sdk client) messages ds (some planning) s).1
        ≡ sent_text s ++ r.content
  unfolding after_planning
  after_planning_sent ds planning result r s k held h = elim (Result-cases (check_context s).0) [
    | inr (e, p) ↦ let z = rw (k, p) at h in cc
    | inl (_, p) ↦
        let out =
          answered_sent planning.tool_calls planning.continuation result r ds (check_context s).1
            held (rw (k, p) at h) in
        rw (k, p) (out ∙ ap (λ x. concat x ++ r.content) (check_context_sent s))
  ]

  planned_sent :
      (s : Session) (r : ModelResult)
      → (generate_stream_with_planning tools (openai_streaming sdk client) messages s).0 ≡ ok r
      → sent_text (generate_stream_with_planning tools (openai_streaming sdk client) messages s).1
        ≡ sent_text s ++ r.content
  unfolding generate_stream_with_planning after_planning
  planned_sent s r h =
      let x : Session × Buffer = (s, empty_buffer) in
      let m =
        Stream.generate_stream_with_tools sdk client buffer_planning_delta messages tools.tools in
      let kept =
        generate_stream_with_tools_keeps buffer_planning_delta sdk client (λ y. Untouched s y.0)
          (buffer-Untouched s) messages tools.tools x (refl, refl) in
      elim (Result-cases (m x).0) [
        | inr (e, p) ↦ let z = rw p at h in cc
        | inl (planning, p) ↦ elim (Option-cases planning.result) [
          | inl k ↦ let z = rw (p, k) at h in cc
          | inr (result, k) ↦
              let held =
                generate_stream_with_tools_seen buffer_planning_delta sdk client held_text
                  buffer_held messages tools.tools x planning result p k in
              let out =
                after_planning_sent (m x).1.1.deltas planning result r (m x).1.0 k held
                  (rw p at h) in
              rw p (out ∙ ap (λ t. concat t ++ r.content) kept.1)
        ]
      ]

  -- Where GenerateStream succeeds, over the client of OpenAI and whatever its events are, what went
  -- out to the caller is the content of the result.
  pub sent-generate_stream :
      (s : Session) (r : ModelResult)
      → (generate_stream tools
          (openai_model sdk client)
          (some (openai_streaming sdk client))
          messages
          s).0
        ≡ ok (some r)
      → sent_text
          (generate_stream tools
            (openai_model sdk client)
            (some (openai_streaming sdk client))
            messages
            s).1
        ≡ sent_text s ++ r.content
  unfolding generate_stream
  sent-generate_stream s r h =
      let m = Stream.generate_stream sdk client on_delta messages in
      elim (Bool-cases (length tools.tools == 0)) [
        | inl n ↦ rw n (elim (Result-cases (m s).0) [
          | inr (e, p) ↦ let z = rw (n, p) at h in cc
          | inl (result, p) ↦
              let out =
                generate_stream_seen on_delta sdk client sent_text on_delta_sent messages s result
                  p in
              let z = rw (n, p) at h in rw p (ground (arith, z, out))
        ])
        | inr n ↦
            let g = generate_stream_with_planning tools (openai_streaming sdk client) messages in
            rw n (elim (Result-cases (g s).0) [
              | inr (e, p) ↦ let z = rw (n, p) at h in cc
              | inl (result, p) ↦
                  let out = planned_sent s result p in
                  let z = rw (n, p) at h in rw p (ground (arith, z, out))
            ])
      ]
