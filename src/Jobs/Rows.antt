-- ===== src/Jobs/Rows.antt =====
-- What the statements of Jobs.Sql and Jobs.Outcome do to the job that they name.
use gopher_agent_platform.Prelude.{
  ℕ, ◌≡◌, ◌≢◌, refl, sym, subst, ◌∙◌, ◌⊎◌, inl, inr, false, Option, none, some, arith, Option-cases,
}
use gopher_agent_platform.Exec.{ok}
use gopher_agent_platform.Text.{Text, is_empty}
use gopher_agent_platform.Database.Rows.{ChatJob, JobStatus, Conversation}
use gopher_agent_platform.Database.Table.{
  chat_job_key, conversation_key, find, replace, find-key, find-replace_self,
}
use gopher_agent_platform.Database.{Db}
use gopher_agent_platform.Jobs.Sql.{
  claim_pending_chat_job, retry_chat_job, claimed, retried, write_job,
  ensure_chat_job_request_message, owned_job,
}
use gopher_agent_platform.Jobs.Outcome.{complete_chat_job, fail_chat_job, completed_job, failed_job}

-- A job that has ended.
abbrev pub IsEnded : Option ChatJob → Type 0
IsEnded none = ⊥
IsEnded (some j) = (j.status ≡ JobStatus.completed) ⊎ (j.status ≡ JobStatus.failed)

-- The row of a job, written back, is what the next statement finds.
find-write_job :
    (db : Db) (i : ℕ) {j : ChatJob} (v : ChatJob)
    → find i db.chat_jobs ≡ some j
    → v.id ≡ j.id
    → find i (write_job v db).chat_jobs ≡ some v
find-write_job db i {j} v h e =
    let p : v.id ≡ i = e ∙ find-key i db.chat_jobs h in
    subst (λ k. find i (replace k v db.chat_jobs) ≡ some v) (sym p)
      (find-replace_self i v db.chat_jobs h p)

module _ (db : Db) (i : ℕ) {j : ChatJob} (found : find i db.chat_jobs ≡ some j) where
  pub claim-found :
      {c : Conversation}
      → find j.conversation_id db.conversations ≡ some c
      → j.status ≡ JobStatus.pending
      → ((claim_pending_chat_job i db).0 ≡ ok (some (claimed db.now j, c.user_id)))
        × (find i (claim_pending_chat_job i db).1.chat_jobs ≡ some (claimed db.now j))
  unfolding claim_pending_chat_job
  claim-found c p = ground (arith, find-write_job db i (claimed db.now j) found refl)

  pub retry-found :
      j.status ≡ JobStatus.processing
      → ((retry_chat_job i db).0 ≡ ok (some j.id))
        × (find i (retry_chat_job i db).1.chat_jobs ≡ some (retried j))
  unfolding retry_chat_job
  retry-found p = ground (arith, find-write_job db i (retried j) found refl)

  pub fail-found :
      (error_code : Text)
      → is_empty error_code ≡ false
      → j.status ≡ JobStatus.processing
      → ((fail_chat_job i error_code db).0 ≡ ok (some j.id))
        × (find i (fail_chat_job i error_code db).1.chat_jobs
            ≡ some (failed_job db.now error_code j))
  unfolding fail_chat_job
  fail-found error_code e p =
      ground (arith, find-write_job db i (failed_job db.now error_code j) found refl)

  fail_found-IsEnded :
      (error_code : Text) (n : ℕ)
      → (fail_chat_job i error_code db).0 ≡ ok (some n)
      → IsEnded (find i (fail_chat_job i error_code db).1.chat_jobs)
  unfolding fail_chat_job
  fail_found-IsEnded error_code n h =
      ground (arith, find-write_job db i (failed_job db.now error_code j) found refl)

  complete_found-IsEnded :
      (m n : ℕ)
      → (complete_chat_job i m db).0 ≡ ok (some n)
      → IsEnded (find i (complete_chat_job i m db).1.chat_jobs)
  unfolding complete_chat_job
  complete_found-IsEnded m n h =
      ground (arith, find-write_job db i (completed_job db.now m j) found refl)

  -- A completion that the server refuses leaves the job as it was.
  pub complete_found_refused :
      (m : ℕ)
      → ((n : ℕ) → (complete_chat_job i m db).0 ≢ ok (some n))
      → find i (complete_chat_job i m db).1.chat_jobs ≡ some j
  unfolding complete_chat_job
  complete_found_refused m h = ground (arith, h j.id)

  -- The statement binds a new message to the job, or leaves the job as it is.
  pub ensure-found :
      (user_id : ℕ)
      → let after = (ensure_chat_job_request_message user_id i db).1 in
        (find i after.chat_jobs ≡ some j)
        ⊎ (find i after.chat_jobs ≡ some (record j { request_message_id = some db.next_message }))
  unfolding ensure_chat_job_request_message owned_job
  ensure-found user_id = ground (
    arith,
    find-write_job db i (record j { request_message_id = some db.next_message }) found refl,
  )

  claim_found-processing :
      (p : ChatJob × ℕ)
      → (claim_pending_chat_job i db).0 ≡ ok (some p)
      → find i (claim_pending_chat_job i db).1.chat_jobs ≡ some (claimed db.now j)
  unfolding claim_pending_chat_job
  claim_found-processing p h = ground (arith, find-write_job db i (claimed db.now j) found refl)

module _ (db : Db) (i : ℕ) where
  -- After a claim that gave a row the job is processing.
  pub claim-processing :
      (p : ChatJob × ℕ)
      → (claim_pending_chat_job i db).0 ≡ ok (some p)
      → (j : ChatJob) × (find i (claim_pending_chat_job i db).1.chat_jobs ≡ some (claimed db.now j))
  claim-processing p h = elim (Option-cases (find i db.chat_jobs)) [
    | inl e ↦ absurd (missing e h)
    | inr (j, e) ↦ (j, claim_found-processing db i e p h)
  ]
    where
      missing : find i db.chat_jobs ≡ none → (claim_pending_chat_job i db).0 ≢ ok (some p)
      missing e q = unfold claim_pending_chat_job in ground arith

  pub fail-IsEnded :
      (error_code : Text) (n : ℕ)
      → (fail_chat_job i error_code db).0 ≡ ok (some n)
      → IsEnded (find i (fail_chat_job i error_code db).1.chat_jobs)
  fail-IsEnded error_code n h = elim (Option-cases (find i db.chat_jobs)) [
    | inl e ↦ absurd (missing e h)
    | inr (j, e) ↦ fail_found-IsEnded db i e error_code n h
  ]
    where
      missing : find i db.chat_jobs ≡ none → (fail_chat_job i error_code db).0 ≢ ok (some n)
      missing e p = unfold fail_chat_job in ground arith

  pub complete-IsEnded :
      (m n : ℕ)
      → (complete_chat_job i m db).0 ≡ ok (some n)
      → IsEnded (find i (complete_chat_job i m db).1.chat_jobs)
  complete-IsEnded m n h = elim (Option-cases (find i db.chat_jobs)) [
    | inl e ↦ absurd (missing e h)
    | inr (j, e) ↦ complete_found-IsEnded db i e m n h
  ]
    where
      missing : find i db.chat_jobs ≡ none → (complete_chat_job i m db).0 ≢ ok (some n)
      missing e p = unfold complete_chat_job in ground arith

-- The statements on jobs leave the conversations alone.
module _ (db : Db) (i : ℕ) where
  pub claim-conversations : (claim_pending_chat_job i db).1.conversations ≡ db.conversations
  unfolding claim_pending_chat_job
  claim-conversations = ground arith

  pub retry-conversations : (retry_chat_job i db).1.conversations ≡ db.conversations
  unfolding retry_chat_job
  retry-conversations = ground arith

  pub fail-conversations :
      (error_code : Text) → (fail_chat_job i error_code db).1.conversations ≡ db.conversations
  unfolding fail_chat_job
  fail-conversations error_code = ground arith

  pub complete-conversations :
      (m : ℕ) → (complete_chat_job i m db).1.conversations ≡ db.conversations
  unfolding complete_chat_job
  complete-conversations m = ground arith

  pub ensure-conversations :
      (user_id : ℕ)
      → (ensure_chat_job_request_message user_id i db).1.conversations ≡ db.conversations
  unfolding ensure_chat_job_request_message
  ensure-conversations user_id = ground arith
