-- ===== src/Chat/Turns.antt =====
-- A whole turn of the chat, seen from the worker that runs it.
use gopher_agent_platform.Prelude.{
  ℕ, ◌+◌, ◌<◌, ◌≤◌, ◌≢◌, ◌≡◌, inl, inr, not, Option, none, some, List, [], ◌∷◌, arith, ◌==◌,
  Bool-cases, Option-cases,
}
use gopher_agent_platform.Errors.{Err, conversation_not_found}
use gopher_agent_platform.Exec.{Result, ok, err, Exec, Result-cases}
use gopher_agent_platform.Text.{Text, text}
use gopher_agent_platform.Database.Rows.{Message, ModelCall, is_role_user, role_assistant}
use gopher_agent_platform.Database.{World, within_tx, drop_fault, undo, rollback}
use gopher_agent_platform.Conversations.Sql.{get_conversation}
use gopher_agent_platform.Messages.Sql.{query_recent_messages}
use gopher_agent_platform.Messages.Repository.{scan_row, scan_rows}
use gopher_agent_platform.Messages.Repository as MessageRepository
use gopher_agent_platform.Messages.Service as MessageService
use gopher_agent_platform.ModelCalls.Service as ModelCallService
use gopher_agent_platform.Chat.Model.{ChatResult, ModelResult, Providers}
use gopher_agent_platform.Chat.Context.{prepare_model_messages, Retriever, found_index}
use gopher_agent_platform.Jobs.Service.{ChatProcessor, process}
use gopher_agent_platform.Jobs.Rows.{IsEnded}
use gopher_agent_platform.Jobs.Success.{job_of, IsClaimable}
use gopher_agent_platform.Jobs.Liveness.{KeepsJobs, redeliver_ends}
use gopher_agent_platform.Jobs.Consumer.{redeliver}
use gopher_agent_platform.Chat.Service.{
  default_message_limit, on_record, marked, finish_failed_model_call, assistant_body, answered_by,
  save_assistant_and_complete, respond, chat_from_existing_message, new_record,
  start_model_call_for_existing_message,
}
use gopher_agent_platform.Chat.Jobs.{
  Spares, Spares-refl, Spares-trans, Sparing, either-Spares, scan_row-Sparing, scan_rows-Sparing,
  reading-Elsewhere, write_message-Sparing, read_message-Sparing, start-Sparing, complete-Sparing,
  finish-Sparing,
}

list_recent-Sparing : (u c n : ℕ) → Sparing (MessageService.list_recent u c n)
unfolding MessageService.list_recent MessageRepository.list_recent_by_conversation_id
    MessageRepository.check_conversation_existence get_conversation query_recent_messages
list_recent-Sparing u c n = record {
  spares = λ w.
      let m = get_conversation c u in
      let v = (scan_row m conversation_not_found w).1 in
      let first = (scan_row-Sparing m conversation_not_found (reading-Elsewhere _)).spares w in
      let second =
        (scan_rows-Sparing (query_recent_messages u c n) (reading-Elsewhere _)).spares v in
      elim (Result-cases (scan_row m conversation_not_found w).0) [
        | inl (a, p) ↦ either-Spares (Spares-trans first second) (ground (arith, p))
        | inr (e, p) ↦ either-Spares first (ground (arith, p))
      ];
}

prepare-Sparing :
    {F : Type 0} (retrieve : Option (Retriever F)) (u m : ℕ) (history : List Message)
    → Sparing (prepare_model_messages retrieve u m history)
unfolding prepare_model_messages
prepare-Sparing none u m history = record { spares = λ w. Spares-refl w }
prepare-Sparing (some retrieve) u m [] = record { spares = λ w. Spares-refl w }
prepare-Sparing (some retrieve) u m (h ∷ hs) = record {
  spares = λ w.
      let read = MessageService.get_by_id u h.conversation_id m in
      elim (Bool-cases (h.conversation_id == 0)) [
        | inl z ↦ rw z (Spares-refl w)
        | inr z ↦ rw z (elim (Result-cases (read w).0) [
          | inr (e, p) ↦ rw p ((read_message-Sparing u h.conversation_id m).spares w)
          | inl (a, p) ↦ rw p (elim (Bool-cases (not (is_role_user a.role))) [
            | inl r ↦ rw r ((read_message-Sparing u h.conversation_id m).spares w)
            | inr r ↦ rw r (elim (Option-cases (found_index m (h ∷ hs))) [
              | inl i ↦ rw i ((read_message-Sparing u h.conversation_id m).spares w)
              | inr (i, q) ↦ rw q ((read_message-Sparing u h.conversation_id m).spares w)
            ])
          ])
        ])
      ];
}

within_tx-Spares {ℓ κ} :
    {V : Type ℓ} {A : Type κ} (body : Exec (V × World) A)
    → ((v : V) (w : World) → Spares w (body (v, w)).1.1)
    → (v : V) (w : World) → Spares w (within_tx body (v, w)).1.1
unfolding within_tx undo rollback
within_tx-Spares body h v w =
    let s = h v (drop_fault w) in
    record {
      jobs = ground (arith, s.jobs);
      conversations = ground (arith, s.conversations);
      quiet = λ q. ground (arith, q, s.quiet);
    }

module _ (c : ModelCall) (w : World) where
  on_record-Spares :
      (method : Option ModelCall → Exec World ModelCall)
      → Spares w (method (some c) w).1
      → Spares w (on_record method (c, w)).1.1
  on_record-Spares method h = elim (Result-cases (method (some c) w).0) [
    | inl (d, p) ↦ rw p h
    | inr (e, p) ↦ rw p h
  ]

finish_failed-Spares :
    (u : ℕ) (e : Err) (operation : Text) (c : ModelCall) (w : World)
    → Spares w (finish_failed_model_call {A = ChatResult} u e operation (c, w)).1.1
unfolding finish_failed_model_call
finish_failed-Spares u e operation c w =
    let d = marked e operation c in
    on_record-Spares d w (ModelCallService.finish u) ((finish-Sparing u d).spares w)

assistant_body-Spares :
    (u k : ℕ) (result : ModelResult) (c : ModelCall) (w : World)
    → Spares w (assistant_body u k result (c, w)).1.1
unfolding MessageService.create_assistant_message
assistant_body-Spares u k result c w =
    let create = MessageService.create_assistant_message u k result.content in
    let first = (write_message-Sparing u k result.content role_assistant).spares w in
    elim (Result-cases (create w).0) [
      | inr (e, p) ↦ rw p first
      | inl (a, p) ↦
          let d = answered_by a result c in
          let v = (create w).1 in
          let second =
            on_record-Spares d v (ModelCallService.complete u) ((complete-Sparing u d).spares v) in
          rw p (elim (Result-cases (on_record (ModelCallService.complete u) (d, v)).0) [
            | inl (t, q) ↦ rw q (Spares-trans first second)
            | inr (e, q) ↦ rw q (Spares-trans first second)
          ])
    ]

save-Spares :
    (u k : ℕ) (result : ModelResult) (c : ModelCall) (w : World)
    → Spares w (save_assistant_and_complete u k result (c, w)).1.1
unfolding save_assistant_and_complete
save-Spares u k result =
    within_tx-Spares (assistant_body u k result) (assistant_body-Spares u k result)

module _ (p : Providers) where
  respond-Spares : (u k : ℕ) (c : ModelCall) (w : World) → Spares w (respond p u k (c, w)).1.1
  unfolding respond
  respond-Spares u k c w =
      let load = MessageService.list_recent u k default_message_limit in
      let first = (list_recent-Sparing u k default_message_limit).spares w in
      let w1 = (load w).1 in
      elim (Result-cases (load w).0) [
        | inr (e, x) ↦
            rw x (Spares-trans first (finish_failed-Spares u e (text "history_load") c w1))
        | inl (history, x) ↦
            let prepare = prepare_model_messages p.retrieve u c.request_message_id history in
            let second =
              Spares-trans first
                ((prepare-Sparing p.retrieve u c.request_message_id history).spares w1) in
            let w2 = (prepare w1).1 in
            rw x (elim (Result-cases (prepare w1).0) [
              | inr (e, y) ↦ rw y (
                  Spares-trans second
                    (finish_failed-Spares u e (text "prepare_model_message") c w2))
              | inl (messages, y) ↦ rw y (elim (Result-cases (p.generate w2 messages)) [
                | inr (e, z) ↦
                    rw z (Spares-trans second (finish_failed-Spares u e (text "llm") c w2))
                | inl (result, z) ↦
                    let third = Spares-trans second (save-Spares u k result c w2) in
                    let save = save_assistant_and_complete u k result (c, w2) in
                    rw z (elim (Result-cases save.0) [
                      | inl (a, q) ↦ rw q third
                      | inr (e, q) ↦ rw q (
                          Spares-trans third (
                            finish_failed-Spares u e (text "model_call_complete") save.1.0
                              save.1.1))
                    ])
              ])
            ])
      ]

  chat-Spares : (u k m : ℕ) (w : World) → Spares w (chat_from_existing_message p u k m w).1
  unfolding chat_from_existing_message start_model_call_for_existing_message
  chat-Spares u k m w =
      let d = record (new_record k m) { requested_model = some p.model; provider = p.provider } in
      let first = on_record-Spares d w (ModelCallService.start u) ((start-Sparing u d).spares w) in
      let started = on_record (ModelCallService.start u) (d, w) in
      elim (Result-cases started.0) [
        | inl (t, x) ↦ rw x (Spares-trans first (respond-Spares u k started.1.0 started.1.1))
        | inr (e, x) ↦ rw x first
      ]

  -- The chat as the worker of internal/chatjob calls it.
  abbrev some_result : Result ChatResult → Result (Option ChatResult)
  some_result (ok r) = ok (some r)
  some_result (err e) = err e

  unfoldable pub processor : ChatProcessor
  processor u k m w = let r = chat_from_existing_message p u k m w in (some_result r.0, r.1)

  -- ChatFromExistingMessage, whatever fails in it and whatever the model and the retriever answer,
  -- leaves all jobs and conversations as they are, and no fault comes up on a connection that works.
  pub processor-KeepsJobs : KeepsJobs processor
  unfolding processor
  processor-KeepsJobs = record {
    jobs = λ u k m w. (chat-Spares u k m w).jobs;
    conversations = λ u k m w. (chat-Spares u k m w).conversations;
    quiet = λ u k m w. (chat-Spares u k m w).quiet;
  }

  -- The worker with the chat service itself, over a connection that works: a pending job is
  -- acknowledged and has ended after as many deliveries as it has attempts left, or one where it has
  -- none, whatever the model and the retriever answer, which may be different at each attempt.
  pub jobs_end :
      (max_attempts fuel i : ℕ) (w : World) (claimable : IsClaimable i w.db)
      → i ≢ 0
      → w.faults ≡ []
      → 0 < fuel
      → max_attempts ≤ fuel + claimable.job.attempt_count
      → (v : World) × (redeliver (process max_attempts processor) fuel i w ≡ some v)
        × IsEnded (job_of i v)
  jobs_end max_attempts = redeliver_ends max_attempts processor processor-KeepsJobs
