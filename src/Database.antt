-- ===== src/Database.antt =====
-- The PostgreSQL database under internal/platform/postgresql: the tables of migrations/, statements,
-- transactions (tx_manager.go), and a connection on which any statement may fail.
pub mod Rows
pub mod Table
pub mod Order
pub mod Laws
use gopher_agent_platform.Prelude.{
  ◌^◌, Bool, true, false, not, ltb, all, ◌==◌, ℕ, Option, none, some, List, [], ◌∷◌,
}
use gopher_agent_platform.Errors.{
  Err, Sentinel, sentinel, opaque, wrap, join, deadline_exceeded, canceled, no_rows,
  tx_begin_failed, tx_commit_failed,
}
use gopher_agent_platform.Exec.{Result, ok, err, Exec, ◌>>=◌, pure, raise}
use gopher_agent_platform.Text.{Text}
use Rows.{User, Conversation, Message, ModelCall, ChatJob}

-- The `next_` fields are the sequences of the BIGSERIAL columns, and `now` is NOW().
pub record Db : Type 0 where
  pub users : List User
  pub conversations : List Conversation
  pub messages : List Message
  pub model_calls : List ModelCall
  pub chat_jobs : List ChatJob
  pub next_user : ℕ
  pub next_conversation : ℕ
  pub next_message : ℕ
  pub next_model_call : ℕ
  pub next_chat_job : ℕ
  pub now : ℕ

-- An error that the driver reports by itself, such as a lost connection or an ended context.
pub data DriverErr : Type 0 where
  broken : ℕ → DriverErr
  timed_out cancelled : DriverErr

abbrev pub driver_err : DriverErr → Err
driver_err (broken n) = opaque n
driver_err timed_out = sentinel deadline_exceeded
driver_err cancelled = sentinel canceled

-- What happens to the next round trip: it works, it fails before the server acts, or the server
-- acts and the reply is lost.
pub data Fault : Type 0 where
  healthy : Fault
  lost_before : DriverErr → Fault
  lost_after : DriverErr → Fault

-- The database, the faults of the round trips to come (none when the list has ended), and the
-- messages on the queue of the broker.
pub record World : Type 0 where
  pub db : Db
  pub faults : List Fault
  pub queue : List ℕ

abbrev next_fault : List Fault → Fault
next_fault [] = healthy
next_fault (f ∷ fs) = f

abbrev later_faults : List Fault → List Fault
later_faults [] = []
later_faults (f ∷ fs) = fs

abbrev run_under {ℓ} : {A : Type ℓ} → Fault → Exec Db A → Exec World A
run_under healthy m w = ((m w.db).0, record w { db = (m w.db).1 })
run_under (lost_before e) m w = (err (driver_err e), w)
run_under (lost_after e) m w = (err (driver_err e), record w { db = (m w.db).1 })

abbrev pub drop_fault : World → World
drop_fault w = record w { faults = later_faults w.faults }

-- One round trip to the server, which carries out a statement atomically.
unfoldable pub round_trip {ℓ} : {A : Type ℓ} → Exec Db A → Exec World A
round_trip m w = run_under (next_fault w.faults) m (drop_fault w)

-- A statement gives its first row, if there is one; the server's own error is an `err`.
abbrev pub Statement {ℓ} : Type ℓ → Type ℓ
Statement A = Exec Db (Option A)

-- The statements that the ids and texts of a client reach first check that these encode, which is
-- written out there; the others are sent the ids of rows, and addresses that mail.ParseAddress took.
--
-- What pgx encodes as a BIGINT.
unfoldable pub is_bigint : ℕ → Bool
is_bigint n = ltb n (2 ^ 63)

-- A TEXT of PostgreSQL holds no U+0000.
unfoldable pub is_storable : Text → Bool
is_storable t = all (λ c. not (c == 0)) t

-- The error of arguments that do not encode, or that the server does not take.
abbrev unencoded : ℕ
unencoded = 22021

-- A statement that reads, and one that writes, with arguments that must encode.
abbrev pub reading {ℓ} : {A : Type ℓ} → Bool → Result A → Result A
reading true r = r
reading false r = err (opaque unencoded)

abbrev pub writing {ℓ} : {A : Type ℓ} → Bool → Statement A → Statement A
writing true m db = m db
writing false m db = (err (opaque unencoded), db)

abbrev or_no_rows {ℓ} : {A : Type ℓ} → Option A → Exec World A
or_no_rows none = raise (sentinel no_rows)
or_no_rows (some a) = pure a

-- `pool.QueryRow(ctx, sql, args...).Scan(...)`
unfoldable pub query_row {ℓ} : {A : Type ℓ} → Statement A → Exec World A
unfolding round_trip
query_row m = round_trip m >>= or_no_rows

-- A rollback takes back the rows, and the sequences keep their values.
abbrev pub restore_tables : Db → Db → Db
restore_tables old new = record new {
  users = old.users;
  conversations = old.conversations;
  messages = old.messages;
  model_calls = old.model_calls;
  chat_jobs = old.chat_jobs;
}

unfoldable pub rollback : Db → World → World
rollback old w = record w { db = restore_tables old w.db }

-- The deferred Rollback of an open transaction; its own error is joined to the one that is returned.
abbrev undo_with {ℓ} : {A : Type ℓ} → Db → Fault → Err → Exec World A
undo_with old healthy e w = (err e, rollback old w)
undo_with old (lost_before d) e w = (err (join e (driver_err d)), rollback old w)
undo_with old (lost_after d) e w = (err (join e (driver_err d)), rollback old w)

unfoldable pub undo {ℓ} : {A : Type ℓ} → Db → Err → Exec World A
unfolding rollback
undo old e w = undo_with old (next_fault w.faults) e (drop_fault w)

-- A commit that never reached the server leaves the transaction to be rolled back.
abbrev commit_with {ℓ} : {A : Type ℓ} → Db → Fault → A → Exec World A
commit_with old healthy a w = (ok a, w)
commit_with old (lost_before d) a w = (err (wrap tx_commit_failed (driver_err d)), rollback old w)
commit_with old (lost_after d) a w = (err (wrap tx_commit_failed (driver_err d)), w)

abbrev finish_tx {ℓ} : {A : Type ℓ} → Db → Result A → Exec World A
finish_tx old (ok a) w = commit_with old (next_fault w.faults) a (drop_fault w)
finish_tx old (err e) w = undo old e w

-- The variables of Go that the body writes, which a rollback leaves as they are, stand before the
-- world.
abbrev begin_with {ℓ κ} :
    {V : Type ℓ} {A : Type κ} → Fault → Exec (V × World) A → Exec (V × World) A
begin_with healthy body (v, w) =
    let r = body (v, w) in let ended = finish_tx w.db r.0 r.1.1 in (ended.0, (r.1.0, ended.1))
begin_with (lost_before d) body (v, w) = (err (wrap tx_begin_failed (driver_err d)), (v, w))
begin_with (lost_after d) body (v, w) = (err (wrap tx_begin_failed (driver_err d)), (v, w))

-- `TxManager.WithinTx`: all that the body writes to the tables, or nothing of it.
unfoldable pub within_tx {ℓ κ} : {V : Type ℓ} {A : Type κ} → Exec (V × World) A → Exec (V × World) A
unfolding undo rollback
within_tx body (v, w) = begin_with (next_fault w.faults) body (v, drop_fault w)
