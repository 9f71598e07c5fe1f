-- ===== src/ModelCalls/Ended.antt =====
-- A call of the model ends once: what any use of internal/modelcall does to a call that has ended.
use gopher_agent_platform.Prelude.{
  ℕ, ◌≡◌, ◌≢◌, refl, ◌∙◌, ap, sym, inl, inr, true, false, Option, none, some, List, [], ◌∷◌, arith,
  Option-cases,
}
use gopher_agent_platform.Errors.{Sentinel, model_call_not_found, model_call_repository}
use gopher_agent_platform.Exec.{Exec, Result-cases}
use gopher_agent_platform.Text.{Text, trim_space}
use gopher_agent_platform.Database.Rows.{ModelCall, is_running}
use gopher_agent_platform.Database.Table.{
  model_call_key, find, replace, find-key, find-replace_ne, find-append_old,
}
use gopher_agent_platform.Database.{Db, World, Statement}
use gopher_agent_platform.Database.Laws.{query_row-db}
use gopher_agent_platform.ModelCalls.Sql.{
  insert_running_model_call, complete_model_call, finish_model_call, owned_running, request_of,
  running_call, completed_call, finished_call,
}
use gopher_agent_platform.ModelCalls.Repository
use gopher_agent_platform.ModelCalls.Service
use gopher_agent_platform.Jobs.Repository.{scan}

-- The call `c` stands at its id, and it has ended.
pub record HasEnded (c : ModelCall) (db : Db) : Type 0 where
  pub found : find c.id db.model_calls ≡ some c
  pub ended : is_running c.status ≡ false

running_found :
    (db : Db) (user_id k : ℕ) {d : ModelCall}
    → owned_running db user_id k ≡ some d
    → (find k db.model_calls ≡ some d) × (is_running d.status ≡ true)
running_found db user_id k h = ground arith

module _ (c : ModelCall) (db : Db) (h : HasEnded c db) where
  update_keeps :
      (user_id k : ℕ) (d v : ModelCall)
      → owned_running db user_id k ≡ some d
      → v.id ≡ d.id
      → find c.id (replace v.id v db.model_calls) ≡ some c
  update_keeps user_id k d v r e =
      let (f, q) = running_found db user_id k r in
      let id : d.id ≡ k = find-key k db.model_calls f in
      let other : v.id ≢ c.id = λ s.
        let same : some d ≡ some c =
          sym f ∙ ap (λ n. find n db.model_calls) (sym id ∙ sym e ∙ s) ∙ h.found in
        ground (arith, same, q, h.ended) in
      find-replace_ne v.id c.id v db.model_calls refl other ∙ h.found

  insert_keeps :
      (conversation_id user_id message_id : ℕ) (provider : Text) (model : Option Text)
      → HasEnded c
          (insert_running_model_call conversation_id user_id message_id provider model db).1
  unfolding insert_running_model_call
  insert_keeps conversation_id user_id message_id provider model = record {
    found = elim (Option-cases (request_of db user_id conversation_id message_id)) [
      | inl p ↦ rw p h.found
      | inr (m, p) ↦
          let row = running_call conversation_id m.id provider model db in
          let old = find-append_old c.id db.model_calls (row ∷ []) h.found in
          rw p (ground (arith, old, h.found))
    ];
    ended = h.ended;
  }

  complete_keeps :
      (user_id : ℕ) (call : ModelCall) → HasEnded c (complete_model_call user_id call db).1
  unfolding complete_model_call
  complete_keeps user_id call = record {
    found = elim (Option-cases (owned_running db user_id call.id)) [
      | inl p ↦ rw p h.found
      | inr (d, p) ↦
          let u = update_keeps user_id call.id d (completed_call call db.now d) p refl in
          rw p (ground (arith, u, h.found))
    ];
    ended = h.ended;
  }

  finish_keeps : (user_id : ℕ) (call : ModelCall) → HasEnded c (finish_model_call user_id call db).1
  unfolding finish_model_call
  finish_keeps user_id call = record {
    found = elim (Option-cases (owned_running db user_id call.id)) [
      | inl p ↦ rw p h.found
      | inr (d, p) ↦
          let u = update_keeps user_id call.id d (finished_call call db.now d) p refl in
          rw p (ground (arith, u, h.found))
    ];
    ended = h.ended;
  }

-- A program keeps a call that has ended.
abbrev pub Keeps {ℓ} : {A : Type ℓ} → ModelCall → Exec World A → World → Type 0
Keeps c m w = HasEnded c (m w).1.db

scan-Keeps {ℓ} :
    {A : Type ℓ} (c : ModelCall) (m : Statement A) (s t : Sentinel) (w : World)
    → HasEnded c (m w.db).1
    → HasEnded c w.db
    → Keeps c (scan m s t) w
unfolding scan
scan-Keeps c m s t w k h = elim (query_row-db m w) [
  | inl e ↦ record { found = rw e k.found; ended = h.ended }
  | inr e ↦ record { found = rw e h.found; ended = h.ended }
]

module _ (c : ModelCall) where
  start-Keeps :
      (user_id : ℕ) (call : Option ModelCall) (w : World)
      → HasEnded c w.db
      → Keeps c (Service.start user_id call) w
  unfolding Service.start Repository.create
  start-Keeps user_id none w h = record { found = ground (arith, h.found); ended = h.ended }
  start-Keeps user_id (some call) w h =
      let m =
        insert_running_model_call call.conversation_id user_id call.request_message_id
          (trim_space call.provider) call.requested_model in
      let k =
        scan-Keeps c m model_call_not_found model_call_repository w
          (insert_keeps c w.db h call.conversation_id user_id call.request_message_id
            (trim_space call.provider) call.requested_model)
          h in
      record {
        found = elim (Result-cases (scan m model_call_not_found model_call_repository w).0) [
          | inl (row, p) ↦ ground (arith, p, k.found, h.found)
          | inr (e, p) ↦ ground (arith, p, k.found, h.found)
        ];
        ended = h.ended;
      }

  complete_service-Keeps :
      (user_id : ℕ) (call : Option ModelCall) (w : World)
      → HasEnded c w.db
      → Keeps c (Service.complete user_id call) w
  unfolding Service.complete Repository.complete
  complete_service-Keeps user_id none w h = record {
    found = ground (arith, h.found);
    ended = h.ended;
  }
  complete_service-Keeps user_id (some call) w h =
      let m = complete_model_call user_id call in
      let k =
        scan-Keeps c m model_call_not_found model_call_repository w
          (complete_keeps c w.db h user_id call) h in
      record {
        found = elim (Result-cases (scan m model_call_not_found model_call_repository w).0) [
          | inl (row, p) ↦ ground (arith, p, k.found, h.found)
          | inr (e, p) ↦ ground (arith, p, k.found, h.found)
        ];
        ended = h.ended;
      }

  finish_service-Keeps :
      (user_id : ℕ) (call : Option ModelCall) (w : World)
      → HasEnded c w.db
      → Keeps c (Service.finish user_id call) w
  unfolding Service.finish Repository.finish
  finish_service-Keeps user_id none w h = record {
    found = ground (arith, h.found);
    ended = h.ended;
  }
  finish_service-Keeps user_id (some call) w h =
      let m = finish_model_call user_id call in
      let k =
        scan-Keeps c m model_call_not_found model_call_repository w
          (finish_keeps c w.db h user_id call) h in
      record {
        found = elim (Result-cases (scan m model_call_not_found model_call_repository w).0) [
          | inl (row, p) ↦ ground (arith, p, k.found, h.found)
          | inr (e, p) ↦ ground (arith, p, k.found, h.found)
        ];
        ended = h.ended;
      }

-- A use of the service by anyone, with the arguments that they give.
pub data Use : Type 0 where
  start : ℕ → Option ModelCall → Use
  complete : ℕ → Option ModelCall → Use
  finish : ℕ → Option ModelCall → Use

abbrev pub after : Use → World → World
after (Use.start u c) w = (Service.start u c w).1
after (Use.complete u c) w = (Service.complete u c w).1
after (Use.finish u c) w = (Service.finish u c w).1

abbrev pub after_all : List Use → World → World
after_all [] w = w
after_all (u ∷ us) w = after_all us (after u w)

use_keeps : (c : ModelCall) (u : Use) (w : World) → HasEnded c w.db → HasEnded c (after u w).db
use_keeps c (Use.start u call) w h = start-Keeps c u call w h
use_keeps c (Use.complete u call) w h = complete_service-Keeps c u call w h
use_keeps c (Use.finish u call) w h = finish_service-Keeps c u call w h

-- The record of a call that is completed, failed, cancelled, timed out or incomplete is final:
-- whatever uses of Start, Complete and Finish follow, by any users, with any arguments and any
-- faults of the connection, its row stays as it is.
pub ended_is_final :
    (c : ModelCall) (us : List Use) (w : World) → HasEnded c w.db → HasEnded c (after_all us w).db
ended_is_final c [] w h = h
ended_is_final c (u ∷ us) w h = ended_is_final c us (after u w) (use_keeps c u w h)
