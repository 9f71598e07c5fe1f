-- ===== src/Examples/ChatRuns.antt =====
-- The theorems about messages, calls of the model and the chat at a small database.
use gopher_agent_platform.Prelude.{
  if◌then◌else◌, ltb, ◌≢◌, ℕ, ◌*◌, ◌≡◌, refl, none, some, List, [], ◌∷◌, arith, take,
}
use gopher_agent_platform.Errors.{
  sentinel, conversation_not_found, message_not_found, not_configured,
}
use gopher_agent_platform.Exec.{ok, err}
use gopher_agent_platform.Text.{text, trim_space}
use gopher_agent_platform.Database.{World}
use gopher_agent_platform.Database.Rows.{ChatJob, Message, ModelCall, CallStatus, role_user}
use gopher_agent_platform.Database.Table.{find}
use gopher_agent_platform.Conversations.Sql.{owned_conversation}
use gopher_agent_platform.Messages.Service
use gopher_agent_platform.Conversations.Service as ConversationService
use gopher_agent_platform.Conversations.Deletion.{KeepsOthers, delete_cascades}
use gopher_agent_platform.Messages.Pages.{IsOpen, IsHistory, Answers, read_pages, pages_served}
use gopher_agent_platform.Messages.Writing.{get_by_id-create_message, stranger_refused, written}
use gopher_agent_platform.ModelCalls.Ended.{HasEnded, Use, after_all, ended_is_final}
use gopher_agent_platform.Database.{is_bigint, is_storable}
use gopher_agent_platform.Database.Table.{conversation_key}
use gopher_agent_platform.Chat.Model.{Providers, ModelResult}
use gopher_agent_platform.Chat.Turns.{processor, processor-KeepsJobs, jobs_end}
use gopher_agent_platform.Jobs.Liveness.{KeepsJobs}
use gopher_agent_platform.Jobs.Consumer.{redeliver}
use gopher_agent_platform.Jobs.Service.{process}
use gopher_agent_platform.Jobs.Rows.{IsEnded}
use gopher_agent_platform.Jobs.Success.{job_of}
use gopher_agent_platform.Examples.JobRuns.{owner, sample, calm, waiting-IsClaimable}

abbrev greeting : Message
greeting = record {
  id = 4;
  conversation_id = 1;
  role = role_user;
  content = text "hello";
  created_at = 50;
}

abbrev ended_call : ModelCall
ended_call = record {
  id = 2;
  conversation_id = 1;
  request_message_id = 4;
  assistant_message_id = none;
  provider = text "openai";
  provider_response_id = none;
  requested_model = none;
  actual_model = none;
  status = CallStatus.failed;
  input_tokens = none;
  output_tokens = none;
  total_tokens = none;
  error_code = some (text "llm_failed");
  started_at = some 60;
  finished_at = some 61;
}

abbrev spoken : World
spoken = record calm {
  db = record sample { messages = greeting ∷ []; model_calls = ended_call ∷ [] };
}

spoken-IsOpen : IsOpen 7 1 spoken
unfolding owned_conversation find is_bigint
spoken-IsOpen = record {
  conversation = owner;
  owned = refl;
  user = λ e. cc;
  id = λ e. cc;
  user_fits = refl;
  id_fits = refl;
  quiet = refl;
}

pages_served_example :
    (xs : List Message) × IsHistory 1 spoken.db.messages xs
    × Answers (read_pages 7 1 10 2 spoken) (take (2 * 10) xs) spoken
pages_served_example =
    pages_served 7 1 10 2 spoken spoken-IsOpen (omega arith) (omega arith) (omega arith)

get_by_id-create_message_example :
    let r = Service.create_message 7 1 (text "hello") role_user spoken in
    (r.0 ≡ ok (written 7 1 (text "hello") role_user spoken.db))
    × ((Service.get_by_id 7 1 5 r.1).0 ≡ ok (written 7 1 (text "hello") role_user spoken.db))
unfolding trim_space is_bigint is_storable
get_by_id-create_message_example =
    get_by_id-create_message 7 1 (text "hello") role_user spoken spoken-IsOpen refl
      (omega arith, omega arith) (omega arith, tt) (omega arith) refl

not_owned : owned_conversation spoken.db 8 1 ≡ none
unfolding owned_conversation find
not_owned = refl

stranger_refused_example :
    let write = Service.create_message 8 1 (text "hello") role_user spoken in
    let read = Service.get_by_id 8 1 4 spoken in
    let list = Service.list 8 1 1 10 spoken in
    ((write.0 ≡ err (sentinel conversation_not_found)) × (write.1.db ≡ spoken.db))
    × ((read.0 ≡ err (sentinel message_not_found)) × (read.1.db ≡ spoken.db))
    × ((list.0 ≡ err (sentinel conversation_not_found)) × (list.1.db ≡ spoken.db))
unfolding trim_space is_bigint is_storable
stranger_refused_example =
    stranger_refused 8 1 4 1 10 (text "hello") role_user spoken not_owned refl refl refl refl refl
      (λ e. cc) (λ e. cc) (λ e. cc) (omega arith, omega arith) (omega arith) (omega arith)
      (omega arith) (omega arith)

spoken-HasEnded : HasEnded ended_call spoken.db
unfolding find
spoken-HasEnded = record { found = refl; ended = refl }

abbrev late_uses : List Use
late_uses = Use.complete 7 (some ended_call) ∷ Use.finish 7 (some ended_call) ∷ []

ended_is_final_example : HasEnded ended_call (after_all late_uses spoken).db
ended_is_final_example = ended_is_final ended_call late_uses spoken spoken-HasEnded

abbrev answer : ModelResult
answer = record {
  content = text "here";
  model = text "gpt";
  input_tokens = 3;
  output_tokens = 1;
  total_tokens = 4;
}

-- A model that fails the first call of a run and answers those that follow.
abbrev pub recovering : Providers
recovering = record {
  F = ℕ;
  provider = text "openai";
  model = text "gpt";
  generate =
      λ w ms. if ltb w.db.next_model_call 3 then err (sentinel not_configured) else ok answer;
  retrieve = some (λ w user_id query count. ok []);
}

processor-KeepsJobs_example : KeepsJobs (processor recovering)
processor-KeepsJobs_example = processor-KeepsJobs recovering

jobs_end_example :
    (v : World) × (redeliver (process 3 (processor recovering)) 3 3 calm ≡ some v)
    × IsEnded (job_of 3 v)
unfolding waiting-IsClaimable
jobs_end_example =
    jobs_end recovering 3 3 3 calm waiting-IsClaimable (λ e. cc) refl (omega arith) (omega arith)

delete_cascades_example :
    let r = ConversationService.delete 7 1 spoken in
    (r.0 ≡ ok tt)
    × (find 1 r.1.db.conversations ≡ none)
    × ((ConversationService.get_by_id 7 1 r.1).0 ≡ err (sentinel conversation_not_found))
    × ((k : ℕ) → k ≢ 1 → find k r.1.db.conversations ≡ find k spoken.db.conversations)
    × KeepsOthers (λ (m : Message). m.conversation_id) 1 spoken.db.messages r.1.db.messages
    × KeepsOthers (λ (m : ModelCall). m.conversation_id) 1 spoken.db.model_calls r.1.db.model_calls
    × KeepsOthers (λ (j : ChatJob). j.conversation_id) 1 spoken.db.chat_jobs r.1.db.chat_jobs
delete_cascades_example = delete_cascades 7 1 spoken spoken-IsOpen
