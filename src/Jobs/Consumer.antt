-- ===== src/Jobs/Consumer.antt =====
-- internal/platform/rabbitmq/consumer.go: the loop over the deliveries of the queue, which come one at
-- a time, and the broker's redelivery of a job that goes back. Errors of Ack, Nack and Reject are
-- ignored there too. A body is what json.Unmarshal makes of it.
use gopher_agent_platform.Prelude.{
  ℕ, zero, suc, Bool, true, false, Option, none, some, List, [], ◌∷◌, if◌then◌else◌, ◌==◌,
}
use gopher_agent_platform.Errors.{Err, sentinel, context, wrap, channel_connection}
use gopher_agent_platform.Exec.{Result, ok, err, Exec}
use gopher_agent_platform.Database.{World}

-- `ChatJobHandler`
abbrev pub ChatJobHandler : Type 0
ChatJobHandler = ℕ → Exec World (Unit {0})

-- What the broker hears: Reject without and Nack with a return to the queue, and Ack.
pub data Acknowledgement : Type 0 where
  rejected requeued acknowledged : Acknowledgement

abbrev pub answer_of : Result (Unit {0}) → Acknowledgement
answer_of (ok _) = acknowledged
answer_of (err e) = requeued

-- One round of the loop; `none` is a body that does not decode.
unfoldable pub deliver : ChatJobHandler → Option ℕ → World → Acknowledgement × World
deliver handler none w = (rejected, w)
deliver handler (some job_id) w =
    if job_id == 0 then (rejected, w) else (answer_of (handler job_id w).0, (handler job_id w).1)

-- The loop over deliveries.
unfoldable pub deliver_all : ChatJobHandler → List (Option ℕ) → World → List Acknowledgement × World
unfolding deliver
deliver_all handler [] w = ([], w)
deliver_all handler (body ∷ bodies) w =
    let r = deliver handler body w in
    let rest = deliver_all handler bodies r.1 in (r.0 ∷ rest.0, rest.1)

-- The end of ConsumeChatJobs: whether the context has ended, and the error of the channel, where one
-- has come by then.
abbrev pub ending : Bool → Option Err → Result (Unit {0})
ending true closed = ok tt
ending false none = err (sentinel channel_connection)
ending false (some e) = err (wrap channel_connection e)

-- The three calls that open the channel, set the prefetch and start the deliveries.
abbrev consumed :
    ChatJobHandler → Bool → Option Err → Result (List (Option ℕ)) → Exec World (Unit {0})
consumed handler ended closed (err e) w = (err (context e), w)
consumed handler ended closed (ok bodies) w =
    (ending ended closed, (deliver_all handler bodies w).1)

-- ConsumeChatJobs
unfoldable pub consume_chat_jobs :
    ChatJobHandler → Result (List (Option ℕ)) → Bool → Option Err → Exec World (Unit {0})
unfolding deliver_all
consume_chat_jobs handler deliveries ended closed = consumed handler ended closed deliveries

-- What comes after an answer to the broker: only a requeued job is delivered again.
abbrev pub after_answer : Acknowledgement → Option World → World → Option World
after_answer requeued again w = again
after_answer rejected again w = some w
after_answer acknowledged again w = some w

-- The deliveries of one job until it does not go back to the queue.
unfoldable pub redeliver : ChatJobHandler → ℕ → ℕ → World → Option World
unfolding deliver
redeliver handler zero job_id w = none
redeliver handler (suc fuel) job_id w =
    let r = deliver handler (some job_id) w in
    let again = redeliver handler fuel job_id r.1 in after_answer r.0 again r.1
