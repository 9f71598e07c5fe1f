-- ===== src/ModelCalls/Sql.antt =====
-- internal/platform/postgresql/model_calls_sql.go, over the constraints of the migrations. A token count
-- stands as the 64 bits of its two's complement, which are negative from 2 ^ 63 on.
use gopher_agent_platform.Prelude.{
  ℕ, suc, Bool, true, false, not, Option, none, some, List, [], ◌∷◌, ◌++◌, ◌==◌, ◌&&◌, leb, ltb,
  ◌^◌, if◌then◌else◌, length, any,
}
use gopher_agent_platform.Errors.{opaque}
use gopher_agent_platform.Exec.{ok, err}
use gopher_agent_platform.Text.{Text}
use gopher_agent_platform.Database.Rows.{
  Message, ModelCall, CallStatus, is_role_user, is_role_assistant, is_running,
}
use gopher_agent_platform.Database.Table.{message_key, model_call_key, and_then, find, replace}
use gopher_agent_platform.Database.{Db, Statement}
use gopher_agent_platform.Conversations.Sql.{owned_conversation}

abbrev too_long : ℕ
too_long = 22001

abbrev unique_violation : ℕ
unique_violation = 23505

abbrev check_violation : ℕ
check_violation = 23514

-- VARCHAR(n), for a column that may be NULL.
abbrev fits : ℕ → Option Text → Bool
fits n none = true
fits n (some t) = leb (length t) n

-- Status.IsFailureTerminal
abbrev pub is_failure_terminal : CallStatus → Bool
is_failure_terminal CallStatus.failed = true
is_failure_terminal CallStatus.cancelled = true
is_failure_terminal CallStatus.timed_out = true
is_failure_terminal CallStatus.incomplete = true
is_failure_terminal _ = false

abbrev pub running_call : ℕ → ℕ → Text → Option Text → Db → ModelCall
running_call conversation_id request_message_id provider requested_model db = record {
  id = db.next_model_call;
  conversation_id = conversation_id;
  request_message_id = request_message_id;
  assistant_message_id = none;
  provider = provider;
  provider_response_id = none;
  requested_model = requested_model;
  actual_model = none;
  status = CallStatus.running;
  input_tokens = none;
  output_tokens = none;
  total_tokens = none;
  error_code = none;
  started_at = some db.now;
  finished_at = none;
}

abbrev pub request_of : Db → ℕ → ℕ → ℕ → Option Message
request_of db user_id conversation_id request_message_id =
    and_then (owned_conversation db user_id conversation_id) (λ c.
      and_then (find request_message_id db.messages) (λ (m : Message).
        if m.conversation_id == c.id && is_role_user m.role then some m else none))

abbrev insert_call : Option Message → ℕ → Text → Option Text → Statement ModelCall
insert_call none conversation_id provider requested_model db = (ok none, db)
insert_call (some m) conversation_id provider requested_model db =
    let row = running_call conversation_id m.id provider requested_model db in
    if leb (length provider) 50 && fits 200 requested_model
    then (
      ok (some row),
      record db {
        model_calls = db.model_calls ++ row ∷ [];
        next_model_call = suc db.next_model_call;
      },
    )
    else (err (opaque too_long), db)

-- InsertRunningModelCall
unfoldable pub insert_running_model_call : ℕ → ℕ → ℕ → Text → Option Text → Statement ModelCall
insert_running_model_call conversation_id user_id request_message_id provider requested_model db =
    insert_call (request_of db user_id conversation_id request_message_id) conversation_id provider
      requested_model db

-- A call joined with the conversation of a user.
abbrev pub owned_call : Db → ℕ → ℕ → Option ModelCall
owned_call db user_id call_id =
    and_then (find call_id db.model_calls)
      (λ c. and_then (owned_conversation db user_id c.conversation_id) (λ _. some c))

abbrev pub owned_running : Db → ℕ → ℕ → Option ModelCall
owned_running db user_id call_id =
    and_then (owned_call db user_id call_id) (λ c. if is_running c.status then some c else none)

-- The columns that both updates set, from the record of the caller.
abbrev pub with_outcome : ModelCall → ℕ → ModelCall → ModelCall
with_outcome call now c = record c {
  actual_model = call.actual_model;
  provider_response_id = call.provider_response_id;
  input_tokens = call.input_tokens;
  output_tokens = call.output_tokens;
  total_tokens = call.total_tokens;
  finished_at = some now;
}

abbrev widths_fit : ModelCall → Bool
widths_fit call = fits 200 call.actual_model && fits 255 call.provider_response_id

-- `input_tokens IS NULL OR input_tokens >= 0`
abbrev not_negative : Option ℕ → Bool
not_negative none = true
not_negative (some n) = ltb n (2 ^ 63)

-- The widths of the columns and the CHECKs of the token counts.
abbrev outcome_fits : ModelCall → Bool
outcome_fits call =
    widths_fit call
    && not_negative call.input_tokens
    && not_negative call.output_tokens
    && not_negative call.total_tokens

-- The error of an outcome that does not fit.
abbrev misfit : ModelCall → ℕ
misfit call = if widths_fit call then check_violation else too_long

abbrev pub completed_call : ModelCall → ℕ → ModelCall → ModelCall
completed_call call now c = record (with_outcome call now c) {
  status = CallStatus.completed;
  assistant_message_id = call.assistant_message_id;
  error_code = none;
}

abbrev pub finished_call : ModelCall → ℕ → ModelCall → ModelCall
finished_call call now c = record (with_outcome call now c) {
  status = call.status;
  error_code = call.error_code;
}

abbrev write_call : ModelCall → Db → Db
write_call c db = record db { model_calls = replace c.id c db.model_calls }

-- An assistant message of the conversation of a call.
abbrev answers_in : Option Message → ℕ → Bool
answers_in none conversation_id = false
answers_in (some m) conversation_id =
    m.conversation_id == conversation_id && is_role_assistant m.role

abbrev assistant_exists : Db → Option ℕ → ℕ → Bool
assistant_exists db none conversation_id = false
assistant_exists db (some m) conversation_id = answers_in (find m db.messages) conversation_id

abbrev names : Option ℕ → Option ℕ → Bool
names (some a) (some b) = a == b
names none b = false
names (some a) none = false

-- idx_model_calls_assistant_message
abbrev taken_by_other : ℕ → Option ℕ → List ModelCall → Bool
taken_by_other call_id assistant cs =
    any (λ (c : ModelCall). not (c.id == call_id) && names assistant c.assistant_message_id) cs

abbrev complete_found : ModelCall → Option ModelCall → Statement ModelCall
complete_found call none db = (ok none, db)
complete_found call (some c) db =
    if assistant_exists db call.assistant_message_id c.conversation_id
    then if outcome_fits call
      then if taken_by_other c.id call.assistant_message_id db.model_calls
        then (err (opaque unique_violation), db)
        else (
          ok (some (completed_call call db.now c)),
          write_call (completed_call call db.now c) db,
        )
      else (err (opaque (misfit call)), db)
    else (ok none, db)

-- CompleteModelCall
unfoldable pub complete_model_call : ℕ → ModelCall → Statement ModelCall
complete_model_call user_id call db = complete_found call (owned_running db user_id call.id) db

abbrev finish_found : ModelCall → Option ModelCall → Statement ModelCall
finish_found call none db = (ok none, db)
finish_found call (some c) db =
    if outcome_fits call && fits 100 call.error_code
    then if is_failure_terminal call.status
      then (ok (some (finished_call call db.now c)), write_call (finished_call call db.now c) db)
      else (err (opaque check_violation), db)
    else (err (opaque (if fits 100 call.error_code then misfit call else too_long)), db)

-- FinishModelCall
unfoldable pub finish_model_call : ℕ → ModelCall → Statement ModelCall
finish_model_call user_id call db = finish_found call (owned_running db user_id call.id) db

-- GetModelCallByIDAndUserID
unfoldable pub get_model_call : ℕ → ℕ → Statement ModelCall
get_model_call call_id user_id db = (ok (owned_call db user_id call_id), db)
