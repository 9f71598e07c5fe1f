-- ===== src/Jobs/Effects.antt =====
-- Every statement on chat_jobs makes a step of the machine, a new job, or nothing.
use gopher_agent_platform.Prelude.{
  ℕ, ◌≡◌, refl, sym, ap, subst, inl, inr, true, some, [], ◌∷◌, arith, Bool-cases, Option-cases,
  ◌==◌, ◌∙◌, ◌++◌, ◌&&◌,
}
use gopher_agent_platform.Text.{Text, is_empty}
use gopher_agent_platform.Database.Rows.{ChatJob, JobStatus, is_pending, is_processing}
use gopher_agent_platform.Database.Table.{
  chat_job_key, conversation_key, message_key, find, replace, find-key, find-replace_self,
  find-replace_ne, find-append_old, find-append_new, find-append_ne,
}
use gopher_agent_platform.Database.{Db, is_bigint, is_storable}
use gopher_agent_platform.Conversations.Sql.{owned_conversation}
use gopher_agent_platform.Jobs.Sql.{
  insert_pending_chat_job, claim_pending_chat_job, retry_chat_job, ensure_chat_job_request_message,
  owned_job, claimed, retried, new_job,
}
use gopher_agent_platform.Jobs.Outcome.{
  complete_chat_job, fail_chat_job, completed_job, failed_job, is_answer, taken_by_other,
}
use gopher_agent_platform.Jobs.Machine.{
  JobStep, IsNew, Effect, unchanged, created, stepped, Op, apply, row,
}

-- A write to the job `k` steps that job, and no other.
write-Effect :
    (o : Op) (db : Db) (i k : ℕ) {j : ChatJob} (v : ChatJob)
    → row k db ≡ some j
    → v.id ≡ j.id
    → (j.id ≡ k → JobStep o j v)
    → Effect o (row i db) (find i (replace j.id v db.chat_jobs))
write-Effect o db i k {j} v f e s =
    let p : j.id ≡ k = find-key k db.chat_jobs f in
    elim (Bool-cases (k == i)) [
      | inl q ↦
          let r : k ≡ i = ground arith in
          subst (λ x. Effect o (row i db) x)
            (sym (
              subst (λ x. find x (replace j.id v db.chat_jobs) ≡ some v) (p ∙ r)
                (find-replace_self j.id v db.chat_jobs (subst (λ x. row x db ≡ some j) (sym p) f)
                  e)))
            (stepped (subst (λ x. row x db ≡ some j) r f) (s p))
      | inr q ↦
          subst (λ x. Effect o (row i db) x)
            (sym (find-replace_ne j.id i v db.chat_jobs e (ground arith))) unchanged
    ]

pending_of : (s : JobStatus) → is_pending s ≡ true → s ≡ JobStatus.pending
pending_of s h = ground arith

processing_of : (s : JobStatus) → is_processing s ≡ true → s ≡ JobStatus.processing
processing_of s h = ground arith

module _ (db : Db) (i : ℕ) where
  abbrev EffectOf : Op → Db → Type 0
  EffectOf o db' = Effect o (row i db) (row i db')

  claim-Effect : (k : ℕ) → EffectOf (Op.claim k) (claim_pending_chat_job k db).1
  unfolding claim_pending_chat_job
  claim-Effect k = elim (Option-cases (find k db.chat_jobs)) [
    | inl e ↦ rw e unchanged
    | inr (j, e) ↦ elim (Option-cases (find j.conversation_id db.conversations)) [
      | inl f ↦ rw (e, f) unchanged
      | inr (c, f) ↦ elim (Bool-cases (is_pending j.status)) [
        | inl p ↦
            rw (e, f, p)
              (write-Effect (Op.claim k) db i k (claimed db.now j) e refl
                (λ e. JobStep.claim db.now (ap Op.claim (sym e)) (pending_of j.status p)))
        | inr p ↦ rw (e, f, p) unchanged
      ]
    ]
  ]

  retry-Effect : (k : ℕ) → EffectOf (Op.retry k) (retry_chat_job k db).1
  unfolding retry_chat_job
  retry-Effect k = elim (Option-cases (find k db.chat_jobs)) [
    | inl e ↦ rw e unchanged
    | inr (j, e) ↦ elim (Bool-cases (is_processing j.status)) [
      | inl p ↦
          rw (e, p)
            (write-Effect (Op.retry k) db i k (retried j) e refl
              (λ e. JobStep.retry (ap Op.retry (sym e)) (processing_of j.status p)))
      | inr p ↦ rw (e, p) unchanged
    ]
  ]

  fail-Effect : (k : ℕ) (code : Text) → EffectOf (Op.fail k code) (fail_chat_job k code db).1
  unfolding fail_chat_job
  fail-Effect k code = elim (Option-cases (find k db.chat_jobs)) [
    | inl e ↦ rw e unchanged
    | inr (j, e) ↦ elim (Bool-cases (is_processing j.status)) [
      | inl p ↦ elim (Bool-cases (is_empty code)) [
        | inl q ↦ rw (e, p, q) unchanged
        | inr q ↦
            rw (e, p, q)
              (write-Effect (Op.fail k code) db i k (failed_job db.now code j) e refl (λ e.
                JobStep.fail db.now code (ap (λ n. Op.fail n code) (sym e))
                  (processing_of j.status p) q))
      ]
      | inr p ↦ rw (e, p) unchanged
    ]
  ]

  complete-Effect : (k m : ℕ) → EffectOf (Op.complete k m) (complete_chat_job k m db).1
  unfolding complete_chat_job
  complete-Effect k m = elim (Option-cases (find k db.chat_jobs)) [
    | inl e ↦ rw e unchanged
    | inr (j, e) ↦ elim (Bool-cases (is_processing j.status)) [
      | inr p ↦ rw (e, p) unchanged
      | inl p ↦ elim (Option-cases (find m db.messages)) [
        | inl f ↦ rw (e, p, f) unchanged
        | inr (a, f) ↦ elim (Bool-cases (is_answer j a)) [
          | inr q ↦ rw (e, p, f, q) unchanged
          | inl q ↦ elim (Bool-cases (taken_by_other j.id m db.chat_jobs)) [
            | inl t ↦ rw (e, p, f, q, t) unchanged
            | inr t ↦
                rw (e, p, f, q, t)
                  (write-Effect (Op.complete k m) db i k (completed_job db.now m j) e refl (λ e.
                    JobStep.complete db.now m (ap (λ n. Op.complete n m) (sym e))
                      (processing_of j.status p)))
          ]
        ]
      ]
    ]
  ]

  ensure-Effect : (u k : ℕ) → EffectOf (Op.ensure u k) (ensure_chat_job_request_message u k db).1
  unfolding ensure_chat_job_request_message owned_job
  ensure-Effect u k = elim (Option-cases (find k db.chat_jobs)) [
    | inl e ↦ rw e unchanged
    | inr (j, e) ↦ elim (Option-cases (owned_conversation db u j.conversation_id)) [
      | inl f ↦ rw (e, f) unchanged
      | inr (c, f) ↦ elim (Bool-cases (is_processing j.status)) [
        | inr p ↦ rw (e, f, p) unchanged
        | inl p ↦ elim (Option-cases j.request_message_id) [
          | inr (m, b) ↦ rw (e, f, p) (simp b unchanged)
          | inl b ↦
              rw (e, f, p)
                (simp b (
                  write-Effect (Op.ensure u k) db i k
                    (record j { request_message_id = some db.next_message }) e refl
                    (λ e.
                      JobStep.bind u db.next_message (ap (Op.ensure u) (sym e))
                        (processing_of j.status p) b)))
        ]
      ]
    ]
  ]

  append-Effect :
      (o : Op) (v : ChatJob) → IsNew v → Effect o (row i db) (find i (db.chat_jobs ++ v ∷ []))
  append-Effect o v new = elim (Option-cases (find i db.chat_jobs)) [
    | inr (r, e) ↦ rw (e, find-append_old i db.chat_jobs (v ∷ []) e) unchanged
    | inl e ↦ elim (Bool-cases (v.id == i)) [
      | inl p ↦ rw (find-append_new i db.chat_jobs v e (ground arith)) (created e new)
      | inr p ↦ rw (find-append_ne i db.chat_jobs v (ground arith)) unchanged
    ]
  ]

  insert-Effect :
      (u c : ℕ) (content : Text)
      → EffectOf (Op.insert u c content) (insert_pending_chat_job u c content db).1
  unfolding insert_pending_chat_job
  insert-Effect u c content =
      elim (Bool-cases (is_bigint u && is_bigint c && is_storable content)) [
        | inr b ↦ rw b unchanged
        | inl b ↦ elim (Option-cases (owned_conversation db u c)) [
          | inl e ↦ rw (b, e) unchanged
          | inr (v, e) ↦ elim (Bool-cases (is_empty content)) [
            | inl p ↦ rw (b, e, p) unchanged
            | inr p ↦
                rw (b, e, p)
                  (append-Effect (Op.insert u c content) (new_job v content db) (record {
                    pending = refl;
                    unbound = refl;
                    unanswered = refl;
                    no_error = refl;
                    untried = refl;
                    unstarted = refl;
                    unfinished = refl;
                  }))
          ]
        ]
      ]

  -- Each statement, with any arguments: what it did to any one job is an edge of the machine, a new
  -- pending job where there was none, or nothing. An edge says all columns that it sets.
  pub apply-Effect : (o : Op) → EffectOf o (apply o db)
  unfolding apply
  apply-Effect (Op.insert u c content) = insert-Effect u c content
  apply-Effect (Op.claim k) = claim-Effect k
  apply-Effect (Op.retry k) = retry-Effect k
  apply-Effect (Op.ensure u k) = ensure-Effect u k
  apply-Effect (Op.complete k m) = complete-Effect k m
  apply-Effect (Op.fail k code) = fail-Effect k code
