-- ===== src/Jobs/History.antt =====
-- What holds of a job over every sequence of statements, whichever workers send them.
use gopher_agent_platform.Prelude.{
  ℕ, ◌≡◌, ◌≢◌, ◌<◌, refl, sym, subst, ◌⊎◌, inl, inr, true, false, Option, none, some, List, [], ◌∷◌,
  arith, Option-cases, ◌∙◌, All,
}
use gopher_agent_platform.Exec.{ok}
use gopher_agent_platform.Text.{Text, is_empty}
use gopher_agent_platform.Database.Rows.{ChatJob, JobStatus, is_pending}
use gopher_agent_platform.Database.Table.{chat_job_key, find-key}
use gopher_agent_platform.Database.{Db}
use gopher_agent_platform.Jobs.Sql.{claim_pending_chat_job}
use gopher_agent_platform.Jobs.Redelivery.{claim_not_pending}
use gopher_agent_platform.Jobs.Rows.{IsEnded, claim-processing}
use gopher_agent_platform.Jobs.Machine.{
  JobStep, IsNew, Effect, unchanged, created, stepped, Op, apply, run, row,
}
use gopher_agent_platform.Jobs.Effects.{apply-Effect}

-- The machine has no edge out of `completed` or `failed`.
JobStep_ended : {o : Op} {j k : ChatJob} → JobStep o j k → IsEnded (some j) → ⊥
JobStep_ended (JobStep.claim now o p) h = ground arith
JobStep_ended (JobStep.retry o p) h = ground arith
JobStep_ended (JobStep.bind u m o p r) h = ground arith
JobStep_ended (JobStep.complete now m o p) h = ground arith
JobStep_ended (JobStep.fail now code o p n) h = ground arith

Effect-ended :
    {o : Op} {before after : Option ChatJob}
    → Effect o before after
    → IsEnded before
    → after ≡ before
Effect-ended unchanged h = refl
Effect-ended {before} (created e n) h = absurd (subst IsEnded e h)
Effect-ended {before} (stepped e s) h = absurd (JobStep_ended s (subst IsEnded e h))

-- A job that is completed or failed keeps its whole row, whatever statements follow.
pub run_ended : (os : List Op) (i : ℕ) (db : Db) → IsEnded (row i db) → row i (run os db) ≡ row i db
unfolding run
run_ended [] i db h = refl
run_ended (o ∷ os) i db h =
    let e = Effect-ended (apply-Effect db i o) h in
    run_ended os i (apply o db) (subst IsEnded (sym e) h) ∙ e

-- chat_jobs_lifecycle_check and chat_jobs_result_check of the migrations.
abbrev pub Lifecycle : JobStatus → ChatJob → Type 0
Lifecycle JobStatus.pending j =
    (j.started_at ≡ none)
    × (j.finished_at ≡ none)
    × (j.assistant_message_id ≡ none)
    × (j.error_code ≡ none)
Lifecycle JobStatus.processing j =
    (j.started_at ≢ none)
    × (j.finished_at ≡ none)
    × (j.assistant_message_id ≡ none)
    × (j.error_code ≡ none)
Lifecycle JobStatus.completed j =
    (j.started_at ≢ none)
    × (j.finished_at ≢ none)
    × (j.assistant_message_id ≢ none)
    × (j.error_code ≡ none)
Lifecycle JobStatus.failed j =
    (j.started_at ≢ none)
    × (j.finished_at ≢ none)
    × (j.assistant_message_id ≡ none)
    × (j.error_code ≢ none)
    × (j.error_code ≢ some [])

code_ne_nil : (code : Text) → is_empty code ≡ false → code ≢ []
code_ne_nil code n h = ground arith

-- The checks, with the count of a job that has been started.
pub record IsSound (j : ChatJob) : Type 0 where
  pub lifecycle : Lifecycle j.status j
  pub counted : (is_pending j.status ≡ true) ⊎ (0 < j.attempt_count)

abbrev pub Sound : Option ChatJob → Type 0
Sound none = Unit
Sound (some j) = IsSound j

JobStep-IsSound : {o : Op} {j k : ChatJob} → JobStep o j k → IsSound j → IsSound k
JobStep-IsSound (JobStep.claim now o p) h = ground arith
JobStep-IsSound (JobStep.retry o p) h = ground arith
JobStep-IsSound (JobStep.bind u m o p r) h = ground arith
JobStep-IsSound (JobStep.complete now m o p) h = ground arith
JobStep-IsSound {j} (JobStep.fail now code o p n) h = ground (arith, code_ne_nil code n)

IsNew-IsSound : {j : ChatJob} → IsNew j → IsSound j
IsNew-IsSound h = ground arith

Effect-Sound :
    {o : Op} {before after : Option ChatJob} → Effect o before after → Sound before → Sound after
Effect-Sound unchanged h = h
Effect-Sound (created e n) h = IsNew-IsSound n
Effect-Sound {before} (stepped e s) h = JobStep-IsSound s (subst Sound e h)

-- Every statement keeps the CHECK constraints of chat_jobs, and the count of a started job, for
-- every job, in any sequence: no statement of the program is ever refused by these constraints.
pub run-Sound : (os : List Op) (i : ℕ) (db : Db) → Sound (row i db) → Sound (row i (run os db))
unfolding run
run-Sound [] i db h = h
run-Sound (o ∷ os) i db h = run-Sound os i (apply o db) (Effect-Sound (apply-Effect db i o) h)

-- The job is there and no worker can claim it.
abbrev pub NotPending : Option ChatJob → Type 0
NotPending none = ⊥
NotPending (some j) = is_pending j.status ≡ false

abbrev pub Others : ℕ → Op → Type 0
Others i o = o ≢ Op.retry i

JobStep-NotPending :
    {o : Op} {j k : ChatJob} → JobStep o j k → o ≢ Op.retry j.id → NotPending (some k)
JobStep-NotPending (JobStep.claim now e p) n = refl
JobStep-NotPending (JobStep.retry e p) n = absurd (n e)
JobStep-NotPending (JobStep.bind u m e p r) n = ground arith
JobStep-NotPending (JobStep.complete now m e p) n = refl
JobStep-NotPending (JobStep.fail now code e p c) n = refl

Effect-NotPending :
    {o : Op} {before after : Option ChatJob} (i : ℕ)
    → Effect o before after
    → ((j : ChatJob) → before ≡ some j → j.id ≡ i)
    → Others i o
    → NotPending before
    → NotPending after
Effect-NotPending i unchanged id n h = h
Effect-NotPending i (created e new) id n h = absurd (subst NotPending e h)
Effect-NotPending {o} i (stepped {j} e s) id n h =
    JobStep-NotPending s (subst (λ k. o ≢ Op.retry k) (sym (id j e)) n)

-- While nobody hands a job back by Retry, it does not become pending again.
pub run-NotPending :
    (os : List Op) (i : ℕ) (db : Db)
    → All (Others i) os
    → NotPending (row i db)
    → NotPending (row i (run os db))
unfolding run
run-NotPending [] i db n h = h
run-NotPending (o ∷ os) i db n h =
    run-NotPending os i (apply o db) n.1
      (Effect-NotPending i (apply-Effect db i o) (λ j e. find-key i db.chat_jobs e) n.0 h)

second_claim : (i : ℕ) (db : Db) → NotPending (row i db) → (claim_pending_chat_job i db).0 ≡ ok none
second_claim i db h = elim (Option-cases (row i db)) [
  | inl e ↦ absurd (subst NotPending e h)
  | inr (j, e) ↦ (claim_not_pending db i e (subst NotPending e h)).0
]

claim_wins :
    (i : ℕ) (db : Db) (p : ChatJob × ℕ)
    → (claim_pending_chat_job i db).0 ≡ ok (some p)
    → NotPending (row i (apply (Op.claim i) db))
unfolding apply
claim_wins i db p h = let (j, e) = claim-processing db i p h in subst NotPending (sym e) refl

-- Two workers never hold a job at once: after a claim that gave the job to one of them, and any
-- statements of the others but a Retry of that job, a further claim of it gives no row.
pub claim_exclusive :
    (os : List Op) (i : ℕ) (db : Db) (p : ChatJob × ℕ)
    → (claim_pending_chat_job i db).0 ≡ ok (some p)
    → All (Others i) os
    → (claim_pending_chat_job i (run os (apply (Op.claim i) db))).0 ≡ ok none
claim_exclusive os i db p h n = second_claim i _ (run-NotPending os i _ n (claim_wins i db p h))
