-- ===== src/Jobs/Publisher.antt =====
-- internal/platform/rabbitmq/publisher.go: the publication of a job, whose message the broker returns
-- or confirms. json.Marshal of a number does not fail.
use gopher_agent_platform.Prelude.{
  ◌++◌, [], ◌∷◌, true, false, ℕ, Bool, Option, none, some, not, ◌==◌,
}
use gopher_agent_platform.Errors.{
  sentinel, context, wrap, job_id_invalid, publish_failed, publish_not_confirmed,
  publish_unroutable,
}
use gopher_agent_platform.Exec.{Result, ok, err, Exec, ◌>>=◌, ◌>>◌, lift, reject_if}
use gopher_agent_platform.Database.{World}

-- The answers of the broker for one publication, one for each call, and whether the message comes into
-- the queue.
pub record Broker : Type 0 where
  pub channel : Result (Unit {0})
  pub confirm : Result (Unit {0})
  pub publication : Result (Unit {0})
  pub wait : Result Bool
  pub returned : Option ℕ
  pub queued : Bool

abbrev in_context : {A : Type 0} → Result A → Result A
in_context (ok a) = ok a
in_context (err e) = err (context e)

abbrev as_failed : Result (Unit {0}) → Result (Unit {0})
as_failed (ok _) = ok tt
as_failed (err e) = err (wrap publish_failed e)

-- A message that no queue takes comes back before it is confirmed.
abbrev not_returned : Option ℕ → Result (Unit {0})
not_returned none = ok tt
not_returned (some code) = err (context (sentinel publish_unroutable))

-- What the broker does with the message, whatever it answers.
abbrev enqueue : Bool → ℕ → Exec World (Unit {0})
enqueue true job_id w = (ok tt, record w { queue = w.queue ++ job_id ∷ [] })
enqueue false job_id w = (ok tt, w)

-- PublishChatJob, with the answers that the broker gives for a job.
unfoldable pub publish_chat_job : (ℕ → Broker) → ℕ → Exec World (Unit {0})
publish_chat_job broker job_id = do
  reject_if (job_id == 0) job_id_invalid
  lift (in_context (broker job_id).channel)
  lift (in_context (broker job_id).confirm)
  enqueue (broker job_id).queued job_id
  lift (as_failed (broker job_id).publication)
  acked ← lift (in_context (broker job_id).wait)
  reject_if (not acked) publish_not_confirmed
  lift (not_returned (broker job_id).returned)
