-- ===== src/Examples/JobRuns.antt =====
-- The theorems about internal/chatjob at a small database.
use gopher_agent_platform.Prelude.{◌≡◌, ◌≢◌, refl, inl, none, some, List, [], ◌∷◌, arith}
use gopher_agent_platform.Errors.{is}
use gopher_agent_platform.Exec.{ok}
use gopher_agent_platform.Text.{text}
use gopher_agent_platform.Database.{Db, World, healthy, lost_before, broken, query_row}
use gopher_agent_platform.Database.Rows.{Conversation, ChatJob, JobStatus}
use gopher_agent_platform.Database.Table.{find, replace}
use gopher_agent_platform.Conversations.Sql.{owned_conversation}
use gopher_agent_platform.Jobs.Sql.{
  claim_pending_chat_job, retry_chat_job, ensure_chat_job_request_message, owned_job, claimed,
}
use gopher_agent_platform.Jobs.Outcome.{
  complete_chat_job, fail_chat_job, get_completed_assistant_message_id, latest_answer,
}
use gopher_agent_platform.Jobs.Repository
use gopher_agent_platform.Jobs.Service.{
  ChatProcessor, process, after_claim, after_ensure, after_lookup, after_chat, finish, give_up,
  retry_or_fail, retry_and_report, handle_attempt_failure,
}
use gopher_agent_platform.Jobs.Rows.{IsEnded}
use gopher_agent_platform.Jobs.Success.{job_of, IsClaimable, process-IsEnded}
use gopher_agent_platform.Jobs.Liveness.{KeepsJobs, Settles, process-Settles}
use gopher_agent_platform.Jobs.Redelivery.{process_not_pending, stranded}
use gopher_agent_platform.Jobs.Machine.{Op, Effect, apply, run, row}
use gopher_agent_platform.Jobs.Effects.{apply-Effect}
use gopher_agent_platform.Jobs.History.{run_ended, run-Sound, claim_exclusive, Sound}

abbrev pub owner : Conversation
owner = record { id = 1; user_id = 7; title = text "go"; created_at = 0; updated_at = 0 }

abbrev pub waiting : ChatJob
waiting = record {
  id = 3;
  conversation_id = 1;
  content = text "hi";
  status = JobStatus.pending;
  request_message_id = none;
  assistant_message_id = none;
  error_code = none;
  attempt_count = 0;
  created_at = 0;
  started_at = none;
  finished_at = none;
}

abbrev pub sample : Db
sample = record {
  users = [];
  conversations = owner ∷ [];
  messages = [];
  model_calls = [];
  chat_jobs = waiting ∷ [];
  next_user = 8;
  next_conversation = 2;
  next_message = 5;
  next_model_call = 1;
  next_chat_job = 4;
  now = 100;
}

abbrev pub calm : World
calm = record { db = sample; faults = []; queue = [] }

-- A chat service that has no result to give.
abbrev silent : ChatProcessor
silent u c m w = (ok none, w)

silent_keeps : KeepsJobs silent
silent_keeps = record {
  jobs = λ u c m w. refl;
  conversations = λ u c m w. refl;
  quiet = λ u c m w q. q;
}

unfoldable pub waiting-IsClaimable : IsClaimable 3 sample
unfolding find
waiting-IsClaimable = record {
  job = waiting;
  conversation = owner;
  found = refl;
  has_conversation = refl;
  pending = refl;
}

-- What a run of `process` over the sample computes with.
process_runs : Unit {0}
unfolding process after_claim after_ensure after_lookup after_chat finish give_up retry_or_fail
    retry_and_report handle_attempt_failure Repository.claim_for_processing Repository.retry
    Repository.ensure_request_message Repository.find_completed_assistant_id Repository.complete
    Repository.fail Repository.scan query_row claim_pending_chat_job retry_chat_job
    ensure_chat_job_request_message get_completed_assistant_message_id complete_chat_job
    fail_chat_job owned_job owned_conversation latest_answer find replace is
process_runs = tt

silent_run : (process 3 silent 3 calm).0 ≡ ok tt
unfolding process_runs
silent_run = refl

process-IsEnded_example : IsEnded (job_of 3 (process 3 silent 3 calm).1)
process-IsEnded_example = process-IsEnded 3 silent 3 calm waiting-IsClaimable silent_run

process-Settles_example : Settles 3 3 1 (process 3 silent 3 calm)
unfolding waiting-IsClaimable
process-Settles_example =
    process-Settles 3 silent silent_keeps 3 calm waiting-IsClaimable (λ e. cc) refl

-- The same database with the job answered.
abbrev answered_job : ChatJob
answered_job = record waiting {
  status = JobStatus.completed;
  assistant_message_id = some 6;
  attempt_count = 1;
  started_at = some 90;
  finished_at = some 95;
}

abbrev pub done : World
done = record { db = record sample { chat_jobs = answered_job ∷ [] }; faults = []; queue = [] }

process_not_pending_example :
    ((process 3 silent 3 done).0 ≡ ok tt) × ((process 3 silent 3 done).1.db ≡ done.db)
unfolding find
process_not_pending_example = process_not_pending 3 silent 3 done (λ e. cc) refl refl refl

abbrev shaky : World
shaky = record calm { faults = healthy ∷ lost_before (broken 1) ∷ lost_before (broken 2) ∷ [] }

stranded_example :
    ((process 3 silent 3 shaky).0 ≢ ok tt)
    × (job_of 3 (process 3 silent 3 shaky).1 ≡ some (claimed 100 waiting))
    × ((process 3 silent 3 (process 3 silent 3 shaky).1).0 ≡ ok tt)
    × (job_of 3 (process 3 silent 3 (process 3 silent 3 shaky).1).1 ≡ some (claimed 100 waiting))
unfolding waiting-IsClaimable
stranded_example =
    stranded 3 silent 3 shaky (broken 1) (broken 2) waiting-IsClaimable (λ e. cc) refl (omega arith)

apply-Effect_example : Effect (Op.claim 3) (row 3 sample) (row 3 (apply (Op.claim 3) sample))
apply-Effect_example = apply-Effect sample 3 (Op.claim 3)

abbrev attack : List Op
attack = Op.claim 3 ∷ Op.fail 3 (text "late") ∷ Op.retry 3 ∷ []

run_ended_example : row 3 (run attack done.db) ≡ row 3 done.db
unfolding find
run_ended_example = run_ended attack 3 done.db (inl refl)

run-Sound_example : Sound (row 3 (run attack sample))
unfolding find
run-Sound_example =
    run-Sound attack 3 sample (record { lifecycle = (refl, refl, refl, refl); counted = inl refl })

first_claim : (claim_pending_chat_job 3 sample).0 ≡ ok (some (claimed 100 waiting, 7))
unfolding claim_pending_chat_job find
first_claim = refl

claim_exclusive_example :
    (claim_pending_chat_job 3 (run (Op.claim 3 ∷ []) (apply (Op.claim 3) sample))).0 ≡ ok none
claim_exclusive_example =
    claim_exclusive (Op.claim 3 ∷ []) 3 sample (claimed 100 waiting, 7) first_claim ((λ e. cc), tt)
