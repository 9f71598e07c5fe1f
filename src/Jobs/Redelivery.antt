-- ===== src/Jobs/Redelivery.antt =====
-- A delivery of a job that no worker can claim: one that has ended, or one that is processing, by a
-- worker that still runs or by one that lost its connection.
use gopher_agent_platform.Prelude.{
  ℕ, ◌+◌, ◌≡◌, ◌≢◌, ◌<◌, refl, inl, inr, true, false, none, some, List, [], ◌∷◌, arith, Bool-cases,
  ltb, ◌==◌,
}
use gopher_agent_platform.Errors.{
  Err, is, no_rows, update_chat_job_failed, job_not_claimable, claim_pending_chat_job_failed,
}
use gopher_agent_platform.Exec.{ok, err}
use gopher_agent_platform.Database.Rows.{ChatJob, is_pending}
use gopher_agent_platform.Database.Table.{chat_job_key, conversation_key, find}
use gopher_agent_platform.Database.{Db, World, Fault, DriverErr, driver_err, healthy, lost_before}
use gopher_agent_platform.Database.Laws.{query_row_lost, query_row-answered, driver_err-is-not}
use gopher_agent_platform.Jobs.Sql.{
  claim_pending_chat_job, claimed, ensure_chat_job_request_message, retry_chat_job,
}
use gopher_agent_platform.Jobs.Repository
use gopher_agent_platform.Jobs.Repository.{scan}
use gopher_agent_platform.Jobs.Service.{
  ChatProcessor, process, after_claim, after_ensure, retry_or_fail, retry_and_report,
}
use gopher_agent_platform.Jobs.Rows.{claim-found}
use gopher_agent_platform.Jobs.Success.{job_of, IsClaimable}
use gopher_agent_platform.Jobs.Held.{scan_healthy}

module _ (db : Db) (i : ℕ) {j : ChatJob} (found : find i db.chat_jobs ≡ some j) where
  pub claim_not_pending :
      is_pending j.status ≡ false
      → ((claim_pending_chat_job i db).0 ≡ ok none) × ((claim_pending_chat_job i db).1 ≡ db)
  unfolding claim_pending_chat_job
  claim_not_pending p = ground arith

claim_unclaimable :
    (i : ℕ) (w : World) {j : ChatJob}
    → w.faults ≡ []
    → job_of i w ≡ some j
    → is_pending j.status ≡ false
    → ((Repository.claim_for_processing i w).0 ≡ err (Err.sentinel job_not_claimable))
      × ((Repository.claim_for_processing i w).1.db ≡ w.db)
unfolding Repository.claim_for_processing is
claim_unclaimable i w q f p = ground (
  arith,
  scan_healthy (claim_pending_chat_job i) job_not_claimable claim_pending_chat_job_failed w q,
  claim_not_pending w.db i f p,
)

-- The worlds after the claim, and after the two statements that fail.
abbrev after_loss : ℕ → List Fault → World → World
after_loss i fs w = record w { db = (claim_pending_chat_job i w.db).1; faults = fs }

claim_answered :
    (i : ℕ) (w : World) (fs : List Fault) (p : ChatJob × ℕ)
    → w.faults ≡ healthy ∷ fs
    → (claim_pending_chat_job i w.db).0 ≡ ok (some p)
    → Repository.claim_for_processing i w ≡ (ok p, after_loss i fs w)
unfolding Repository.claim_for_processing scan
claim_answered i w fs p h e = rw (query_row-answered (claim_pending_chat_job i) w fs h, e)

ensure_lost :
    (i u : ℕ) (w : World) (d : DriverErr) (fs : List Fault)
    → w.faults ≡ lost_before d ∷ fs
    → Repository.ensure_request_message u i w
      ≡ (err (Err.context (driver_err d)), record w { faults = fs })
unfolding Repository.ensure_request_message
ensure_lost i u w d fs h = rw (query_row_lost (ensure_chat_job_request_message u i) w d fs h)

retry_lost :
    (i : ℕ) (w : World) (d : DriverErr) (fs : List Fault)
    → w.faults ≡ lost_before d ∷ fs
    → Repository.retry i w
      ≡ (err (Err.wrap update_chat_job_failed (driver_err d)), record w { faults = fs })
unfolding Repository.retry scan
retry_lost i w d fs h =
    rw (query_row_lost (retry_chat_job i) w d fs h, driver_err-is-not d no_rows refl)

module _ (max_attempts : ℕ) (chat : ChatProcessor) where
  not_claimable-ok :
      (i : ℕ) (w : World)
      → (Repository.claim_for_processing i w).0 ≡ err (Err.sentinel job_not_claimable)
      → i ≢ 0
      → process max_attempts chat i w ≡ (ok tt, (Repository.claim_for_processing i w).1)
  unfolding process after_claim is
  not_claimable-ok i w e n = elim (Bool-cases (i == 0)) [
    | inl z ↦ absurd (n (ground arith))
    | inr z ↦ rw (z, e)
  ]

  -- A delivery of a job that is not pending is acknowledged, and the database stays as it is: a
  -- second delivery of a job that has ended does no harm, and neither the chat nor any write runs.
  pub process_not_pending :
      (i : ℕ) (w : World) {j : ChatJob}
      → i ≢ 0
      → w.faults ≡ []
      → job_of i w ≡ some j
      → is_pending j.status ≡ false
      → ((process max_attempts chat i w).0 ≡ ok tt) × ((process max_attempts chat i w).1.db ≡ w.db)
  process_not_pending i w n q f p =
      let c = claim_unclaimable i w q f p in rw (not_claimable-ok i w c.0 n) (refl, c.1)

  first_delivery :
      (i : ℕ) (w : World) (d e : DriverErr) (c : IsClaimable i w.db)
      → i ≢ 0
      → w.faults ≡ healthy ∷ lost_before d ∷ lost_before e ∷ []
      → c.job.attempt_count + 1 < max_attempts
      → let first = process max_attempts chat i w in
        (first.0 ≢ ok tt)
        × (job_of i first.1 ≡ some (claimed w.db.now c.job))
        × (first.1.faults ≡ [])
  unfolding process after_claim after_ensure retry_or_fail retry_and_report
  first_delivery i w d e c n q l =
      let f = claim-found w.db i c.found c.has_conversation c.pending in
      let j = claimed w.db.now c.job in
      let u = c.conversation.user_id in
      let more : ltb j.attempt_count max_attempts ≡ true = ground arith in
      elim (Bool-cases (i == 0)) [
        | inl z ↦ absurd (n (ground arith))
        | inr z ↦
            rw (z, claim_answered i w (lost_before d ∷ lost_before e ∷ []) (j, u) q f.0)
              (rw
                (ensure_lost j.id u (after_loss i (lost_before d ∷ lost_before e ∷ []) w) d
                  (lost_before e ∷ []) refl)
                (rw more (
                  rw (retry_lost j.id (after_loss i (lost_before e ∷ []) w) e [] refl)
                    ((λ h. cc), f.1, refl))))
      ]

  -- The window in which a job is lost: the worker has claimed it, its next statement fails, and so
  -- does the Retry that should hand it back. The error of `Process` has the delivery requeued, the
  -- job stays in processing, and the next delivery is acknowledged with the job left there.
  pub stranded :
      (i : ℕ) (w : World) (d e : DriverErr) (c : IsClaimable i w.db)
      → i ≢ 0
      → w.faults ≡ healthy ∷ lost_before d ∷ lost_before e ∷ []
      → c.job.attempt_count + 1 < max_attempts
      → let first = process max_attempts chat i w in
        let second = process max_attempts chat i first.1 in
        (first.0 ≢ ok tt)
        × (job_of i first.1 ≡ some (claimed w.db.now c.job))
        × (second.0 ≡ ok tt)
        × (job_of i second.1 ≡ some (claimed w.db.now c.job))
  stranded i w d e c n q l =
      let (r, f, z) = first_delivery i w d e c n q l in
      let s = process_not_pending i (process max_attempts chat i w).1 n z f refl in
      (r, f, s.0, rw (s.1) f)
