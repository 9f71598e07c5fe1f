-- ===== src/Chat/Jobs.antt =====
-- What a chat leaves alone: jobs, conversations, and a connection that works. This is what the worker
-- of internal/chatjob relies on.
use gopher_agent_platform.Prelude.{ℕ, ◌≡◌, refl, ◌∙◌, ◌⊎◌, inl, inr, Option, some, List, [], arith}
use gopher_agent_platform.Errors.{
  Sentinel, conversation_not_found, message_not_found, model_call_not_found, model_call_repository,
}
use gopher_agent_platform.Exec.{Result, Exec, Result-cases}
use gopher_agent_platform.Text.{Text, trim_space}
use gopher_agent_platform.Database.Rows.{ModelCall, Role}
use gopher_agent_platform.Database.{Db, World, Statement, query_row, round_trip}
use gopher_agent_platform.Messages.Sql.{insert_message, get_message}
use gopher_agent_platform.ModelCalls.Sql.{
  insert_running_model_call, complete_model_call, finish_model_call,
}
use gopher_agent_platform.Jobs.Repository.{scan}
use gopher_agent_platform.Messages.Repository.{scan_row, scan_rows}
use gopher_agent_platform.Messages.Repository as MessageRepository
use gopher_agent_platform.Messages.Service as MessageService
use gopher_agent_platform.ModelCalls.Repository as ModelCallRepository
use gopher_agent_platform.ModelCalls.Service as ModelCallService

-- From one world to a later one, jobs and conversations stay, and no fault comes up.
pub record Spares (v w : World) : Type 0 where
  pub jobs : w.db.chat_jobs ≡ v.db.chat_jobs
  pub conversations : w.db.conversations ≡ v.db.conversations
  pub quiet : v.faults ≡ [] → w.faults ≡ []

pub Spares-refl : (w : World) → Spares w w
Spares-refl w = record { jobs = refl; conversations = refl; quiet = λ q. q }

pub Spares-trans : {u v w : World} → Spares u v → Spares v w → Spares u w
Spares-trans a b = record {
  jobs = b.jobs ∙ a.jobs;
  conversations = b.conversations ∙ a.conversations;
  quiet = λ q. b.quiet (a.quiet q);
}

-- A program that spares, wherever it starts.
pub record Sparing {ℓ} {A : Type ℓ} (m : Exec World A) : Type 0 where
  pub spares : (w : World) → Spares w (m w).1

-- A statement that writes other tables.
pub record Elsewhere {ℓ} {A : Type ℓ} (m : Exec Db A) : Type 0 where
  pub jobs : (db : Db) → (m db).1.chat_jobs ≡ db.chat_jobs
  pub conversations : (db : Db) → (m db).1.conversations ≡ db.conversations

round_trip-Sparing {ℓ} : {A : Type ℓ} (m : Exec Db A) → Elsewhere m → Sparing (round_trip m)
unfolding round_trip
round_trip-Sparing m e = record {
  spares = λ w. record {
    jobs = ground (arith, e.jobs w.db);
    conversations = ground (arith, e.conversations w.db);
    quiet = λ q. ground (arith, q);
  };
}

query_row-Sparing {ℓ} : {A : Type ℓ} (m : Statement A) → Elsewhere m → Sparing (query_row m)
unfolding query_row
query_row-Sparing m e = record {
  spares = λ w. record {
    jobs = ground (arith, e.jobs w.db);
    conversations = ground (arith, e.conversations w.db);
    quiet = λ q. ground (arith, q);
  };
}

scan-Sparing {ℓ} :
    {A : Type ℓ} (m : Statement A) (s t : Sentinel) → Elsewhere m → Sparing (scan m s t)
unfolding scan
scan-Sparing m s t e = record { spares = λ w. (query_row-Sparing m e).spares w }

pub scan_row-Sparing {ℓ} :
    {A : Type ℓ} (m : Statement A) (t : Sentinel) → Elsewhere m → Sparing (scan_row m t)
unfolding scan_row
scan_row-Sparing m t e = record { spares = λ w. (query_row-Sparing m e).spares w }

pub scan_rows-Sparing {ℓ} :
    {A : Type ℓ} (m : Exec Db (List A)) → Elsewhere m → Sparing (scan_rows m)
unfolding scan_rows
scan_rows-Sparing m e = record { spares = λ w. (round_trip-Sparing m e).spares w }

-- A program that stops at once, or goes as far as another one.
pub either-Spares : {v w x : World} → Spares v w → (x ≡ v) ⊎ (x ≡ w) → Spares v x
either-Spares {v} h (inl p) = rw p (Spares-refl v)
either-Spares h (inr p) = rw p h

insert_message-Elsewhere : (u c : ℕ) (r : Role) (t : Text) → Elsewhere (insert_message u c r t)
unfolding insert_message
insert_message-Elsewhere u c r t = record {
  jobs = λ db. ground arith;
  conversations = λ db. ground arith;
}

insert_call-Elsewhere :
    (c u m : ℕ) (t : Text) (o : Option Text) → Elsewhere (insert_running_model_call c u m t o)
unfolding insert_running_model_call
insert_call-Elsewhere c u m t o = record {
  jobs = λ db. ground arith;
  conversations = λ db. ground arith;
}

complete_call-Elsewhere : (u : ℕ) (c : ModelCall) → Elsewhere (complete_model_call u c)
unfolding complete_model_call
complete_call-Elsewhere u c = record {
  jobs = λ db. ground arith;
  conversations = λ db. ground arith;
}

finish_call-Elsewhere : (u : ℕ) (c : ModelCall) → Elsewhere (finish_model_call u c)
unfolding finish_model_call
finish_call-Elsewhere u c = record { jobs = λ db. ground arith; conversations = λ db. ground arith }

pub reading-Elsewhere {ℓ} : {A : Type ℓ} (read : Db → Result A) → Elsewhere (λ db. (read db, db))
reading-Elsewhere read = record { jobs = λ db. refl; conversations = λ db. refl }

pub write_message-Sparing :
    (u c : ℕ) (content : Text) (role : Role)
    → Sparing (MessageService.create_message u c content role)
unfolding MessageService.create_message MessageRepository.create
write_message-Sparing u c content role = record {
  spares = λ w.
      either-Spares
        ((scan_row-Sparing (insert_message u c role (trim_space content)) conversation_not_found
            (insert_message-Elsewhere u c role (trim_space content))).spares
          w)
        (ground arith);
}

pub read_message-Sparing : (u c m : ℕ) → Sparing (MessageService.get_by_id u c m)
unfolding MessageService.get_by_id MessageRepository.get_by_id get_message
read_message-Sparing u c m = record {
  spares = λ w.
      either-Spares
        ((scan_row-Sparing (get_message m c u) message_not_found (reading-Elsewhere _)).spares w)
        (ground arith);
}

pub start-Sparing : (u : ℕ) (call : ModelCall) → Sparing (ModelCallService.start u (some call))
unfolding ModelCallService.start ModelCallRepository.create
start-Sparing u call =
    let m =
      insert_running_model_call call.conversation_id u call.request_message_id
        (trim_space call.provider) call.requested_model in
    record {
      spares = λ w.
          either-Spares
            ((scan-Sparing m model_call_not_found model_call_repository (
                insert_call-Elsewhere call.conversation_id u call.request_message_id
                  (trim_space call.provider) call.requested_model)).spares
              w)
            (elim (Result-cases (scan m model_call_not_found model_call_repository w).0) [
              | inl (row, p) ↦ ground (arith, p)
              | inr (e, p) ↦ ground (arith, p)
            ]);
    }

pub complete-Sparing :
    (u : ℕ) (call : ModelCall) → Sparing (ModelCallService.complete u (some call))
unfolding ModelCallService.complete ModelCallRepository.complete
complete-Sparing u call =
    let m = complete_model_call u call in
    record {
      spares = λ w.
          either-Spares
            ((scan-Sparing m model_call_not_found model_call_repository
                (complete_call-Elsewhere u call)).spares
              w)
            (elim (Result-cases (scan m model_call_not_found model_call_repository w).0) [
              | inl (row, p) ↦ ground (arith, p)
              | inr (e, p) ↦ ground (arith, p)
            ]);
    }

pub finish-Sparing : (u : ℕ) (call : ModelCall) → Sparing (ModelCallService.finish u (some call))
unfolding ModelCallService.finish ModelCallRepository.finish
finish-Sparing u call =
    let m = finish_model_call u call in
    record {
      spares = λ w.
          either-Spares
            ((scan-Sparing m model_call_not_found model_call_repository
                (finish_call-Elsewhere u call)).spares
              w)
            (elim (Result-cases (scan m model_call_not_found model_call_repository w).0) [
              | inl (row, p) ↦ ground (arith, p)
              | inr (e, p) ↦ ground (arith, p)
            ]);
    }
