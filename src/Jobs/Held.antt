-- ===== src/Jobs/Held.antt =====
-- One statement of a worker that holds a job, over a connection that works: what it does to the job.
use gopher_agent_platform.Prelude.{
  ℕ, ◌≡◌, ◌≢◌, refl, ◌⊎◌, inl, inr, false, some, [], arith, ap, ◌∙◌,
}
use gopher_agent_platform.Errors.{
  Err, Sentinel, job_not_processing, update_chat_job_failed, fail_chat_job_failed,
  job_not_completable, complete_chat_job_failed,
}
use gopher_agent_platform.Exec.{ok, err, Result-cases}
use gopher_agent_platform.Text.{Text, is_empty}
use gopher_agent_platform.Database.Rows.{ChatJob, JobStatus, Conversation}
use gopher_agent_platform.Database.Table.{chat_job_key, conversation_key, find}
use gopher_agent_platform.Database.{World, Statement}
use gopher_agent_platform.Database.Laws.{query_row_healthy, answered}
use gopher_agent_platform.Jobs.Sql.{retry_chat_job, retried, ensure_chat_job_request_message}
use gopher_agent_platform.Jobs.Outcome.{
  complete_chat_job, fail_chat_job, get_completed_assistant_message_id,
}
use gopher_agent_platform.Jobs.Rows.{
  fail-found, retry-found, complete_found_refused, ensure-found, retry-conversations,
  ensure-conversations, complete-conversations,
}
use gopher_agent_platform.Jobs.Repository
use gopher_agent_platform.Jobs.Repository.{scan, translate}
use gopher_agent_platform.Jobs.Success.{job_of, IsClaimable}

-- A worker has claimed the job for the attempt `a`, and the connection works.
pub record IsHeld (i a : ℕ) (w : World) : Type 0 where
  pub job : ChatJob
  pub conversation : Conversation
  pub found : job_of i w ≡ some job
  pub has_conversation : find job.conversation_id w.db.conversations ≡ some conversation
  pub processing : job.status ≡ JobStatus.processing
  pub attempts : job.attempt_count ≡ a
  pub quiet : w.faults ≡ []

-- The job waits for the next delivery, after `a` attempts.
pub record IsWaiting (i a : ℕ) (w : World) : Type 0 where
  pub claimable : IsClaimable i w.db
  pub attempts : claimable.job.attempt_count ≡ a
  pub quiet : w.faults ≡ []

pub scan_healthy {ℓ} :
    {A : Type ℓ} (m : Statement A) (s t : Sentinel) (w : World)
    → w.faults ≡ []
    → ((scan m s t w).0 ≡ translate s t (answered (m w.db).0))
      × ((scan m s t w).1.db ≡ (m w.db).1)
      × ((scan m s t w).1.faults ≡ [])
unfolding scan
scan_healthy m s t w q = ground (arith, query_row_healthy m w q)

-- The job in the database that a held job's world turns into.
IsHeld-after :
    {i a : ℕ} {w : World} (h : IsHeld i a w) (v : ChatJob) (w' : World)
    → job_of i w' ≡ some v
    → v.conversation_id ≡ h.job.conversation_id
    → v.status ≡ JobStatus.processing
    → v.attempt_count ≡ h.job.attempt_count
    → w'.db.conversations ≡ w.db.conversations
    → w'.faults ≡ []
    → IsHeld i a w'
IsHeld-after h v w' f c p n k q = record {
  job = v;
  conversation = h.conversation;
  found = f;
  has_conversation = rw (c, k) h.has_conversation;
  processing = p;
  attempts = n ∙ h.attempts;
  quiet = q;
}

-- A scan that reports an error over a working connection had no row.
refused_answer :
    (m : Statement ℕ) (w : World)
    → w.faults ≡ []
    → (e : Err) (n : ℕ) → (scan m job_not_completable complete_chat_job_failed w).0 ≡ err e
    → (m w.db).0 ≢ ok (some n)
refused_answer m w q e n p r =
    ground (arith, scan_healthy m job_not_completable complete_chat_job_failed w q)

module _ {i a : ℕ} {w : World} (h : IsHeld i a w) where
  -- Retry hands the job back.
  pub retry_held :
      ((Repository.retry i w).0 ≡ ok tt)
      × (job_of i (Repository.retry i w).1 ≡ some (retried h.job))
      × ((Repository.retry i w).1.db.conversations ≡ w.db.conversations)
      × ((Repository.retry i w).1.faults ≡ [])
  unfolding Repository.retry
  retry_held = ground (
    arith,
    scan_healthy (retry_chat_job i) job_not_processing update_chat_job_failed w h.quiet,
    retry-found w.db i h.found h.processing,
    retry-conversations w.db i,
  )

  pub retry-IsWaiting : IsWaiting i a (Repository.retry i w).1
  retry-IsWaiting = record {
    claimable = record {
      job = retried h.job;
      conversation = h.conversation;
      found = retry_held.1;
      has_conversation = rw (retry_held.2) h.has_conversation;
      pending = refl;
    };
    attempts = h.attempts;
    quiet = retry_held.3;
  }

  pub fail_held : (code : Text) → is_empty code ≡ false → (Repository.fail i code w).0 ≡ ok tt
  unfolding Repository.fail
  fail_held code e = ground (
    arith,
    scan_healthy (fail_chat_job i code) job_not_processing fail_chat_job_failed w h.quiet,
    fail-found w.db i h.found code e h.processing,
  )

  -- A completion ends the job, or it is refused and the job is still held.
  pub complete-IsHeld :
      (m : ℕ)
      → ((Repository.complete i m w).0 ≡ ok tt)
        ⊎ ((e : Err) × ((Repository.complete i m w).0 ≡ err e)
            × IsHeld i a (Repository.complete i m w).1)
  unfolding Repository.complete
  complete-IsHeld m =
      let s = complete_chat_job i m in
      let q = scan_healthy s job_not_completable complete_chat_job_failed w h.quiet in
      elim (Result-cases (scan s job_not_completable complete_chat_job_failed w).0) [
        | inl (n, p) ↦ inl (rw p)
        | inr (e, p) ↦
            let kept =
              complete_found_refused w.db i h.found m
                (λ n r. refused_answer (complete_chat_job i m) w h.quiet e n p r) in
            inr (
              e,
              rw p,
              rw p (
                  IsHeld-after h h.job _ (rw (q.1) kept) refl h.processing refl
                    (rw (q.1) (complete-conversations w.db i m)) q.2),
            )
      ]

  pub ensure-IsHeld : (user_id : ℕ) → IsHeld i a (Repository.ensure_request_message user_id i w).1
  unfolding Repository.ensure_request_message
  ensure-IsHeld user_id =
      let q = query_row_healthy (ensure_chat_job_request_message user_id i) w h.quiet in
      elim (ensure-found w.db i h.found user_id) [
        | inl e ↦
            IsHeld-after h h.job _ (rw (q.1) e) refl h.processing refl
              (rw (q.1) (ensure-conversations w.db i user_id)) q.2
        | inr e ↦
            IsHeld-after h (record h.job { request_message_id = some w.db.next_message }) _
              (rw (q.1) e) refl h.processing refl (rw (q.1) (ensure-conversations w.db i user_id))
              q.2
      ]

  pub lookup-IsHeld :
      (user_id : ℕ) → IsHeld i a (Repository.find_completed_assistant_id user_id i w).1
  unfolding Repository.find_completed_assistant_id get_completed_assistant_message_id
  lookup-IsHeld user_id =
      let q = query_row_healthy (get_completed_assistant_message_id user_id i) w h.quiet in
      IsHeld-after h h.job _ (rw (q.1) h.found) refl h.processing refl
        (ap (λ d. d.conversations) q.1) q.2
