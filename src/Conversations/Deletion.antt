-- ===== src/Conversations/Deletion.antt =====
-- What the deletion of a conversation takes with it, and what it leaves.
use gopher_agent_platform.Prelude.{
  ℕ, ◌≡◌, ◌≢◌, refl, Bool, true, false, none, List, [], ◌∷◌, ◌==◌, if◌then◌else◌, filter, arith,
  All, Bool-cases, inl, inr,
}
use gopher_agent_platform.Errors.{sentinel, is, conversation_not_found}
use gopher_agent_platform.Exec.{ok, err}
use gopher_agent_platform.Database.Rows.{Message, ModelCall, ChatJob}
use gopher_agent_platform.Database.{Db, World, is_bigint}
use gopher_agent_platform.Database.Table.{conversation_key, find, find-remove, find-remove_ne}
use gopher_agent_platform.Conversations.Sql.{
  owned_conversation, get_conversation, delete_conversation, cascade,
}
use gopher_agent_platform.Conversations.Repository
use gopher_agent_platform.Conversations.Service
use gopher_agent_platform.Messages.Pages.{IsOpen, scan_row_healthy, owned_id}

-- The rows of a table that belong to another conversation, or to this one.
module _ {ℓ} {A : Type ℓ} (parent : A → ℕ) (conversation_id : ℕ) where
  abbrev pub others : List A → List A
  others rows = filter (λ r. if parent r == conversation_id then Bool.false else Bool.true) rows

  abbrev pub Foreign : A → Type 0
  Foreign r = parent r ≢ conversation_id

  others-Foreign : (rows : List A) → All Foreign (others rows)
  others-Foreign [] = tt
  others-Foreign (r ∷ rows) = elim (Bool-cases (parent r == conversation_id)) [
    | inl p ↦ rw p (others-Foreign rows)
    | inr p ↦ rw p ((λ e. ground arith), others-Foreign rows)
  ]

-- A conversation that is not there for a user is not found, and looking for it changes nothing.
pub get_by_id_absent :
    (user_id conversation_id : ℕ) (w : World)
    → owned_conversation w.db user_id conversation_id ≡ none
    → w.faults ≡ []
    → user_id ≢ 0
    → conversation_id ≢ 0
    → is_bigint user_id ≡ true
    → is_bigint conversation_id ≡ true
    → let r = Service.get_by_id user_id conversation_id w in
      (r.0 ≡ err (sentinel conversation_not_found)) × (r.1.db ≡ w.db)
unfolding Service.get_by_id Repository.get_by_id_and_user_id get_conversation is
get_by_id_absent user_id conversation_id w none_owned quiet user id fu fi =
    let u : (user_id == 0) ≡ false = ground (arith, user) in
    let i : (conversation_id == 0) ≡ false = ground (arith, id) in
    let a =
      scan_row_healthy (get_conversation conversation_id user_id) conversation_not_found w quiet in
    rw (u, i) (ground (arith, a, none_owned, fu, fi))

-- The rows of a table that is left after the deletion: those of other conversations, all of them.
abbrev pub KeepsOthers {ℓ} : {A : Type ℓ} → (A → ℕ) → ℕ → List A → List A → Type ℓ
KeepsOthers parent conversation_id before after =
    (after ≡ others parent conversation_id before) × All (Foreign parent conversation_id) after

not_there :
    (user_id conversation_id : ℕ) (db : Db)
    → find conversation_id db.conversations ≡ none
    → owned_conversation db user_id conversation_id ≡ none
unfolding owned_conversation
not_there user_id conversation_id db h = rw h refl

deleted :
    (user_id conversation_id : ℕ) (w : World)
    → IsOpen user_id conversation_id w
    → let r = Service.delete user_id conversation_id w in
      (r.0 ≡ ok tt) × (r.1.db ≡ cascade conversation_id w.db) × (r.1.faults ≡ [])
unfolding Service.delete Repository.delete_by_id_and_user_id delete_conversation
deleted user_id conversation_id w o =
    let u : (user_id == 0) ≡ false = ground (arith, o.user) in
    let i : (conversation_id == 0) ≡ false = ground (arith, o.id) in
    let same = owned_id w.db user_id conversation_id o.owned in
    let a =
      scan_row_healthy (delete_conversation conversation_id user_id) conversation_not_found w
        o.quiet in
    rw (u, i) (ground (arith, a, o.owned, same, o.user_fits, o.id_fits))

-- The owner of a conversation deletes it, over a connection that works and with ids that fit a BIGINT:
-- the call succeeds, the conversation is gone and is then not found, no other conversation is, no
-- message, no model call and no job of it is left, and those of the other conversations are all there.
pub delete_cascades :
    (user_id conversation_id : ℕ) (w : World)
    → IsOpen user_id conversation_id w
    → let r = Service.delete user_id conversation_id w in
      (r.0 ≡ ok tt)
      × (find conversation_id r.1.db.conversations ≡ none)
      × ((Service.get_by_id user_id conversation_id r.1).0 ≡ err (sentinel conversation_not_found))
      × ((k : ℕ) → k ≢ conversation_id → find k r.1.db.conversations ≡ find k w.db.conversations)
      × KeepsOthers
          (λ (m : Message). m.conversation_id)
          conversation_id
          w.db.messages
          r.1.db.messages
      × KeepsOthers
          (λ (m : ModelCall). m.conversation_id)
          conversation_id
          w.db.model_calls
          r.1.db.model_calls
      × KeepsOthers
          (λ (j : ChatJob). j.conversation_id)
          conversation_id
          w.db.chat_jobs
          r.1.db.chat_jobs
delete_cascades user_id conversation_id w o =
    let (a, b, c) = deleted user_id conversation_id w o in
    let v = (Service.delete user_id conversation_id w).1 in
    let gone : find conversation_id v.db.conversations ≡ none =
      rw b (find-remove conversation_id w.db.conversations) in
    (
      a,
      gone,
      (get_by_id_absent user_id conversation_id v (not_there user_id conversation_id v.db gone) c
          o.user o.id o.user_fits o.id_fits).0,
      λ k n. rw b (find-remove_ne conversation_id k w.db.conversations n),
      rw b (refl, others-Foreign _ _ w.db.messages),
      rw b (refl, others-Foreign _ _ w.db.model_calls),
      rw b (refl, others-Foreign _ _ w.db.chat_jobs),
    )
