-- ===== src/Jobs/Liveness.antt =====
-- Over a connection that works, `Process` settles the job: it ends it, or hands it back with fewer
-- attempts left, so that the redeliveries come to an end.
use gopher_agent_platform.Prelude.{
  ℕ, zero, suc, ◌+◌, ◌≡◌, ◌≢◌, ◌<◌, ◌≤◌, refl, subst, inl, inr, false, Option, none, some, [],
  arith, Bool-cases, if◌then◌else◌, ltb, ◌==◌,
}
use gopher_agent_platform.Errors.{
  Err, sentinel, invalid_chat_result, job_not_claimable, claim_pending_chat_job_failed,
}
use gopher_agent_platform.Exec.{Result, ok, err}
use gopher_agent_platform.Text.{Text, is_empty}
use gopher_agent_platform.Database.Rows.{ChatJob}
use gopher_agent_platform.Database.Table.{chat_job_key, conversation_key, find-key}
use gopher_agent_platform.Database.{World}
use gopher_agent_platform.Chat.Model.{ChatResult}
use gopher_agent_platform.Jobs.Sql.{claim_pending_chat_job, claimed}
use gopher_agent_platform.Jobs.Rows.{IsEnded, claim-found, claim-conversations}
use gopher_agent_platform.Jobs.Repository
use gopher_agent_platform.Jobs.Repository.{scan, translate}
use gopher_agent_platform.Jobs.Service.{
  ChatProcessor, process, after_claim, after_ensure, after_lookup, after_chat, finish, give_up,
  retry_or_fail, retry_and_report, handle_attempt_failure, over_max_retry_time, complete_failed,
  invalid_chat_result_code, chat_error_code,
}
use gopher_agent_platform.Jobs.Consumer.{deliver, redeliver, after_answer, answer_of}
use gopher_agent_platform.Jobs.Success.{job_of, IsClaimable, fail_ends, complete_ends}
use gopher_agent_platform.Jobs.Held.{
  IsHeld, IsWaiting, retry-IsWaiting, fail_held, complete-IsHeld, ensure-IsHeld, lookup-IsHeld,
  scan_healthy,
}

-- What the worker relies on of the chat service: it leaves jobs and conversations alone, and brings
-- no fault of its own to a connection that works.
pub record KeepsJobs (chat : ChatProcessor) : Type 0 where
  pub jobs : (u c m : ℕ) (w : World) → (chat u c m w).1.db.chat_jobs ≡ w.db.chat_jobs
  pub conversations :
      (u c m : ℕ) (w : World) → (chat u c m w).1.db.conversations ≡ w.db.conversations
  pub quiet : (u c m : ℕ) (w : World) → w.faults ≡ [] → (chat u c m w).1.faults ≡ []

-- nil over a job that has ended, or an error over a job that waits and has attempts left.
abbrev pub Settles : ℕ → ℕ → ℕ → Result (Unit {0}) × World → Type 0
Settles max_attempts i a (ok _, w) = IsEnded (job_of i w)
Settles max_attempts i a (err _, w) = IsWaiting i a w × (a < max_attempts)

module _ (max_attempts : ℕ) (j : ChatJob) where
  abbrev Held : World → Type 0
  Held = IsHeld j.id j.attempt_count

  abbrev Good : Result (Unit {0}) × World → Type 0
  Good = Settles max_attempts j.id j.attempt_count

  retry_settles :
      (e : Err) (w : World)
      → Held w
      → j.attempt_count < max_attempts
      → Good (retry_and_report e j w)
  unfolding retry_and_report
  retry_settles e w h l = (retry-IsWaiting h, l)

  give_up_settles :
      (e : Err) (code : Text) (w : World)
      → Held w
      → is_empty code ≡ false
      → Good (give_up e j.id code w)
  unfolding give_up
  give_up_settles e code w h n =
      rw (fail_held h code n) (fail_ends j.id code w (fail_held h code n))

  -- One more attempt or the end, by the count of attempts.
  retry_or_give_up_settles :
      (e f : Err) (code : Text) (w : World)
      → Held w
      → is_empty code ≡ false
      → Good (
          (if ltb j.attempt_count max_attempts then retry_and_report e j else give_up f j.id code)
            w)
  retry_or_give_up_settles e f code w h n = elim (Bool-cases (ltb j.attempt_count max_attempts)) [
    | inl p ↦ rw p (retry_settles e w h (ground arith))
    | inr p ↦ rw p (give_up_settles f code w h n)
  ]

  finish_settles : (m : ℕ) (w : World) → Held w → Good (finish max_attempts j j.id m w)
  unfolding finish handle_attempt_failure
  finish_settles m w h = elim (complete-IsHeld h m) [
    | inl p ↦ rw p (complete_ends j.id m w p)
    | inr (e, p, k) ↦ rw p (retry_or_give_up_settles e e complete_failed _ k refl)
  ]

  retry_or_fail_settles :
      (e : Err) (w : World) → Held w → Good (retry_or_fail max_attempts j j.id e w)
  unfolding retry_or_fail
  retry_or_fail_settles e w h = retry_or_give_up_settles e e over_max_retry_time w h refl

  after_chat_settles :
      (r : Result (Option ChatResult)) (w : World)
      → Held w
      → Good (after_chat max_attempts j j.id r w)
  unfolding after_chat
  after_chat_settles (ok none) w h = give_up_settles _ invalid_chat_result_code w h refl
  after_chat_settles (ok (some r)) w h = elim (Bool-cases (r.id == 0)) [
    | inl p ↦
        rw p (give_up_settles (sentinel invalid_chat_result) invalid_chat_result_code w h refl)
    | inr p ↦ rw p (finish_settles r.id w h)
  ]
  after_chat_settles (err e) w h =
      retry_or_give_up_settles e e (chat_error_code e) w h (ground arith)

  module _ (chat : ChatProcessor) (keeps : KeepsJobs chat) (user_id : ℕ) where
    chat-Held : (c m : ℕ) (w : World) → Held w → Held (chat user_id c m w).1
    chat-Held c m w h = record {
      job = h.job;
      conversation = h.conversation;
      found = rw (keeps.jobs user_id c m w) h.found;
      has_conversation = rw (keeps.conversations user_id c m w) h.has_conversation;
      processing = h.processing;
      attempts = h.attempts;
      quiet = keeps.quiet user_id c m w h.quiet;
    }

    after_lookup_settles :
        (m : ℕ) (r : Result (Option ℕ)) (w : World)
        → Held w
        → Good (after_lookup max_attempts chat j j.id user_id m r w)
    unfolding after_lookup
    after_lookup_settles m (err e) w h = retry_or_fail_settles e w h
    after_lookup_settles m (ok (some a)) w h = finish_settles a w h
    after_lookup_settles m (ok none) w h =
        after_chat_settles _ _ (chat-Held j.conversation_id m w h)

    after_ensure_settles :
        (r : Result ℕ) (w : World)
        → Held w
        → Good (after_ensure max_attempts chat j j.id user_id r w)
    unfolding after_ensure
    after_ensure_settles (err e) w h = retry_or_fail_settles e w h
    after_ensure_settles (ok m) w h = after_lookup_settles m _ _ (lookup-IsHeld h user_id)

    pub after_claim_settles :
        (w : World) → Held w → Good (after_claim max_attempts chat j.id (ok (j, user_id)) w)
    unfolding after_claim
    after_claim_settles w h = after_ensure_settles _ _ (ensure-IsHeld h user_id)

-- A claim over a working connection gives the job to the worker.
claim-IsHeld :
    (i : ℕ) (w : World) (c : IsClaimable i w.db)
    → w.faults ≡ []
    → let j = claimed w.db.now c.job in
      ((Repository.claim_for_processing i w).0 ≡ ok (j, c.conversation.user_id))
      × IsHeld i (c.job.attempt_count + 1) (Repository.claim_for_processing i w).1
unfolding Repository.claim_for_processing
claim-IsHeld i w c q =
    let s =
      scan_healthy (claim_pending_chat_job i) job_not_claimable claim_pending_chat_job_failed w q in
    let f = claim-found w.db i c.found c.has_conversation c.pending in
    (
      rw (s.0, f.0),
      record {
        job = claimed w.db.now c.job;
        conversation = c.conversation;
        found = rw (s.1) (f.1);
        has_conversation = rw (s.1, claim-conversations w.db i) c.has_conversation;
        processing = refl;
        attempts = refl;
        quiet = s.2;
      },
    )

module _ (max_attempts : ℕ) (chat : ChatProcessor) (keeps : KeepsJobs chat) where
  -- `Process` over a working connection, for a job that can be claimed: nil, and the job has ended;
  -- or an error, and the job is pending again with its attempt counted and attempts left.
  pub process-Settles :
      (i : ℕ) (w : World) (c : IsClaimable i w.db)
      → i ≢ 0
      → w.faults ≡ []
      → Settles max_attempts i (c.job.attempt_count + 1) (process max_attempts chat i w)
  unfolding process
  process-Settles i w c n q =
      let (e, h) = claim-IsHeld i w c q in
      let j = claimed w.db.now c.job in
      elim (Bool-cases (i == 0)) [
        | inl z ↦ absurd (n (ground arith))
        | inr z ↦
            rw (z, e)
              (subst
                (λ k.
                  IsHeld k j.attempt_count (Repository.claim_for_processing i w).1
                  → Settles max_attempts k j.attempt_count (
                      after_claim max_attempts chat k (ok (j, c.conversation.user_id))
                        (Repository.claim_for_processing i w).1))
                (find-key i w.db.chat_jobs c.found)
                (after_claim_settles max_attempts j chat keeps c.conversation.user_id _) h)
      ]

  abbrev EndsWithin : ℕ → ℕ → World → Type 0
  EndsWithin fuel i w =
      (v : World) × (redeliver (process max_attempts chat) fuel i w ≡ some v) × IsEnded (job_of i v)

  acknowledge_or_requeue :
      (fuel i a : ℕ) (r : Result (Unit {0})) (w : World)
      → Settles max_attempts i a (r, w)
      → (IsWaiting i a w → a < max_attempts → EndsWithin fuel i w)
      → (v : World) × (after_answer (answer_of r) (redeliver (process max_attempts chat) fuel i w) w
          ≡ some v)
        × IsEnded (job_of i v)
  acknowledge_or_requeue fuel i a (ok _) w s again = (w, refl, s)
  acknowledge_or_requeue fuel i a (err _) w s again = again s.0 s.1

  -- A pending job is acknowledged and ended after at most as many deliveries as it has attempts
  -- left, and one where it has none.
  pub redeliver_ends :
      (fuel i : ℕ) (w : World) (c : IsClaimable i w.db)
      → i ≢ 0
      → w.faults ≡ []
      → 0 < fuel
      → max_attempts ≤ fuel + c.job.attempt_count
      → (w' : World) × (redeliver (process max_attempts chat) fuel i w ≡ some w')
        × IsEnded (job_of i w')
  unfolding redeliver deliver
  redeliver_ends zero i w c n q p m = absurd (omega arith)
  redeliver_ends (suc fuel) i w c n q p m =
      let z : (i == 0) ≡ false = ground (arith, n) in
      rw z (
        acknowledge_or_requeue fuel i _ _ _ (process-Settles i w c n q) λ k l.
          redeliver_ends fuel i _ k.claimable n k.quiet (omega (arith, k.attempts))
            (omega (arith, k.attempts)))
