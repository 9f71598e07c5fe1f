-- ===== src/Jobs/Success.antt =====
-- `Process` returns nil only over a job that has ended.
use gopher_agent_platform.Prelude.{
  ℕ, ◌≡◌, ◌≢◌, refl, sym, subst, ◌⊎◌, inl, inr, false, Option, none, some, arith, Bool-cases, ltb,
  ◌==◌,
}
use gopher_agent_platform.Errors.{
  Err, Sentinel, wrap, is, no_rows, job_not_claimable, claim_pending_chat_job_failed,
}
use gopher_agent_platform.Exec.{Result, ok, err, Exec, ◌>>=◌, pure, Result-cases}
use gopher_agent_platform.Text.{Text}
use gopher_agent_platform.Database.Rows.{ChatJob, JobStatus, Conversation}
use gopher_agent_platform.Database.Table.{chat_job_key, conversation_key, find, find-key}
use gopher_agent_platform.Database.{Db, World, Statement, DriverErr, driver_err}
use gopher_agent_platform.Database.Laws.{query_row-ok, query_row-some, driver_err-is-not}
use gopher_agent_platform.Chat.Model.{ChatResult}
use gopher_agent_platform.Jobs.Sql.{claim_pending_chat_job}
use gopher_agent_platform.Jobs.Outcome.{complete_chat_job, fail_chat_job}
use gopher_agent_platform.Jobs.Rows.{IsEnded, fail-IsEnded, complete-IsEnded, claim-found}
use gopher_agent_platform.Jobs.Repository
use gopher_agent_platform.Jobs.Repository.{scan, translate}
use gopher_agent_platform.Jobs.Service.{
  ChatProcessor, process, after_claim, after_ensure, after_lookup, after_chat, finish, give_up,
  retry_or_fail, retry_and_report, handle_attempt_failure, over_max_retry_time, complete_failed,
  invalid_chat_result_code, chat_error_code,
}

-- The row of a job, as a world has it.
abbrev pub job_of : ℕ → World → Option ChatJob
job_of i w = find i w.db.chat_jobs

-- The method returned nil, and the job has ended.
abbrev pub EndsIfOk : ℕ → Exec World (Unit {0}) → World → Type 0
EndsIfOk i m w = (m w).0 ≡ ok tt → IsEnded (job_of i (m w).1)

scan-ok {ℓ} :
    {A : Type ℓ} (m : Statement A) (s t : Sentinel) (w : World) (a : A)
    → (scan m s t w).0 ≡ ok a
    → ((m w.db).0 ≡ ok (some a)) × ((scan m s t w).1.db ≡ (m w.db).1)
unfolding scan
scan-ok m s t w a h = ground (arith, query_row-ok m w a)

-- A scan that only reports its success.
scan_ends :
    (i : ℕ) (m : Statement ℕ) (s t : Sentinel) (w : World)
    → ((n : ℕ) → (m w.db).0 ≡ ok (some n) → IsEnded (find i (m w.db).1.chat_jobs))
    → EndsIfOk i (do _ ← scan m s t; pure tt) w
scan_ends i m s t w ends h = elim (Result-cases (scan m s t w).0) [
  | inl (n, p) ↦
      let q = scan-ok m s t w n p in
      rw p (subst (λ d. IsEnded (find i d.chat_jobs)) (sym q.1) (ends n q.0))
  | inr (e, p) ↦ let q = rw p at h in cc
]

retry_and_report-ne-ok : (e : Err) (j : ChatJob) (w : World) → (retry_and_report e j w).0 ≢ ok tt
unfolding retry_and_report
retry_and_report-ne-ok e j w h = cc

module _ (i : ℕ) where
  pub fail_ends : (code : Text) (w : World) → EndsIfOk i (Repository.fail i code) w
  unfolding Repository.fail
  fail_ends code w = scan_ends i (fail_chat_job i code) _ _ w (fail-IsEnded w.db i code)

  pub complete_ends : (m : ℕ) (w : World) → EndsIfOk i (Repository.complete i m) w
  unfolding Repository.complete
  complete_ends m w = scan_ends i (complete_chat_job i m) _ _ w (complete-IsEnded w.db i m)

  give_up_ends : (e : Err) (code : Text) (w : World) → EndsIfOk i (give_up e i code) w
  unfolding give_up
  give_up_ends e code w h = elim (Result-cases (Repository.fail i code w).0) [
    | inl (t, p) ↦ rw p (fail_ends code w p)
    | inr (f, p) ↦ let q = rw p at h in cc
  ]

module _ (max_attempts : ℕ) where
  retry_or_fail_ends :
      (j : ChatJob) (i : ℕ) (e : Err) (w : World) → EndsIfOk i (retry_or_fail max_attempts j i e) w
  unfolding retry_or_fail
  retry_or_fail_ends j i e w h = elim (Bool-cases (ltb j.attempt_count max_attempts)) [
    | inl p ↦ absurd (retry_and_report-ne-ok e j w (rw p at h))
    | inr p ↦ rw p (give_up_ends i e over_max_retry_time w (rw p at h))
  ]

  handle_attempt_failure_ends :
      (j : ChatJob) (e : Err) (w : World)
      → EndsIfOk j.id (handle_attempt_failure max_attempts j e) w
  unfolding handle_attempt_failure
  handle_attempt_failure_ends j e w h = elim (Bool-cases (ltb j.attempt_count max_attempts)) [
    | inl p ↦ absurd (retry_and_report-ne-ok e j w (rw p at h))
    | inr p ↦ rw p (give_up_ends j.id e complete_failed w (rw p at h))
  ]

  module _ (j : ChatJob) where
    finish_ends : (m : ℕ) (w : World) → EndsIfOk j.id (finish max_attempts j j.id m) w
    unfolding finish
    finish_ends m w h = elim (Result-cases (Repository.complete j.id m w).0) [
      | inl (t, p) ↦ rw p (complete_ends j.id m w p)
      | inr (e, p) ↦
          rw p (handle_attempt_failure_ends j e (Repository.complete j.id m w).1 (rw p at h))
    ]

    after_result_ends :
        (o : Option ChatResult) (w : World)
        → EndsIfOk j.id (after_chat max_attempts j j.id (ok o)) w
    unfolding after_chat
    after_result_ends none w h = give_up_ends j.id _ invalid_chat_result_code w h
    after_result_ends (some r) w h = elim (Bool-cases (r.id == 0)) [
      | inl p ↦ rw p (give_up_ends j.id _ invalid_chat_result_code w (rw p at h))
      | inr p ↦ rw p (finish_ends r.id w (rw p at h))
    ]

    after_chat_ends :
        (r : Result (Option ChatResult)) (w : World)
        → EndsIfOk j.id (after_chat max_attempts j j.id r) w
    unfolding after_chat
    after_chat_ends (ok o) w h = after_result_ends o w h
    after_chat_ends (err e) w h = elim (Bool-cases (ltb j.attempt_count max_attempts)) [
      | inl p ↦ absurd (retry_and_report-ne-ok e j w (rw p at h))
      | inr p ↦ rw p (give_up_ends j.id e (chat_error_code e) w (rw p at h))
    ]

    module _ (chat : ChatProcessor) (user_id : ℕ) where
      after_lookup_ends :
          (request : ℕ) (r : Result (Option ℕ)) (w : World)
          → EndsIfOk j.id (after_lookup max_attempts chat j j.id user_id request r) w
      unfolding after_lookup
      after_lookup_ends request (err e) w h = retry_or_fail_ends j j.id e w h
      after_lookup_ends request (ok (some a)) w h = finish_ends a w h
      after_lookup_ends request (ok none) w h =
          let s = chat user_id j.conversation_id request w in after_chat_ends s.0 s.1 h

      after_ensure_ends :
          (r : Result ℕ) (w : World)
          → EndsIfOk j.id (after_ensure max_attempts chat j j.id user_id r) w
      unfolding after_ensure
      after_ensure_ends (err e) w h = retry_or_fail_ends j j.id e w h
      after_ensure_ends (ok request) w h =
          let s = Repository.find_completed_assistant_id user_id j.id w in
          after_lookup_ends request s.0 s.1 h

      pub after_claim_ends :
          (w : World) → EndsIfOk j.id (after_claim max_attempts chat j.id (ok (j, user_id))) w
      unfolding after_claim
      after_claim_ends w h =
          let s = Repository.ensure_request_message user_id j.id w in after_ensure_ends s.0 s.1 h

-- A job that ClaimPendingChatJob can take: it is pending, and its conversation exists.
pub record IsClaimable (i : ℕ) (db : Db) : Type 0 where
  pub job : ChatJob
  pub conversation : Conversation
  pub found : find i db.chat_jobs ≡ some job
  pub has_conversation : find job.conversation_id db.conversations ≡ some conversation
  pub pending : job.status ≡ JobStatus.pending

abbrev refusal : DriverErr → Err
refusal d = wrap claim_pending_chat_job_failed (driver_err d)

refusal-is-not : (d : DriverErr) → is (refusal d) job_not_claimable ≡ false
unfolding is
refusal-is-not d = driver_err-is-not d job_not_claimable refl

-- Where the server has a row to give, a claim gives it or reports the driver's own error, which is
-- not that of a job that cannot be claimed.
claim-some :
    (i : ℕ) (w : World) (p : ChatJob × ℕ)
    → (claim_pending_chat_job i w.db).0 ≡ ok (some p)
    → ((Repository.claim_for_processing i w).0 ≡ ok p)
      ⊎ ((e : Err) × ((Repository.claim_for_processing i w).0 ≡ err e)
          × (is e job_not_claimable ≡ false))
unfolding Repository.claim_for_processing scan
claim-some i w p h = elim (query_row-some (claim_pending_chat_job i) w p h) [
  | inl q ↦ inl (rw q)
  | inr (d, q) ↦ inr (refusal d, rw (q, driver_err-is-not d no_rows refl), refusal-is-not d)
]

module _ (max_attempts : ℕ) (chat : ChatProcessor) where
  claimed_ends :
      (i user_id : ℕ) (j : ChatJob) (w : World)
      → j.id ≡ i
      → EndsIfOk i (after_claim max_attempts chat i (ok (j, user_id))) w
  claimed_ends i user_id j w e =
      subst (λ k. EndsIfOk k (after_claim max_attempts chat k (ok (j, user_id))) w) e
        (after_claim_ends max_attempts j chat user_id w)

  refused_claim-ne-ok :
      (i : ℕ) (e : Err) (w : World)
      → is e job_not_claimable ≡ false
      → (after_claim max_attempts chat i (err e) w).0 ≢ ok tt
  unfolding after_claim
  refused_claim-ne-ok i e w n h = let q = rw n at h in cc

  -- Whatever fails on the way, and whatever the chat does: where `Process` returns nil for a job
  -- that could be claimed, so that the broker drops the delivery, the job is completed or failed.
  pub process-IsEnded :
      (i : ℕ) (w : World)
      → IsClaimable i w.db
      → (process max_attempts chat i w).0 ≡ ok tt
      → IsEnded (job_of i (process max_attempts chat i w).1)
  unfolding process
  process-IsEnded i w c h = elim (Bool-cases (i == 0)) [
    | inl z ↦ let q = rw z at h in cc
    | inr z ↦
        let claim = Repository.claim_for_processing i w in
        rw z (elim (claim-some i w _ (claim-found w.db i c.found c.has_conversation c.pending).0) [
          | inl p ↦
              rw p (claimed_ends i _ _ claim.1 (find-key i w.db.chat_jobs c.found) (rw (z, p) at h))
          | inr (e, p, n) ↦ absurd (refused_claim-ne-ok i e claim.1 n (rw (z, p) at h))
        ])
  ]
