-- ===== src/Database/Table.antt =====
-- Tables with a primary key: lookup, insertion at a fresh key, and UPDATE … WHERE … RETURNING.
use gopher_agent_platform.Prelude.{
  false, ℕ, ◌<◌, ◌≡◌, ◌≢◌, refl, Option, none, some, List, [], ◌∷◌, ◌++◌, ◌==◌, if◌then◌else◌,
  arith, All, ==-refl, Bool-cases, inl, inr,
}
use gopher_agent_platform.Database.Rows.{User, Conversation, Message, ModelCall, ChatJob}

pub record Keyed {ℓ} (A : Type ℓ) : Type ℓ where
  pub key : A → ℕ

instance abbrev pub user_key : Keyed User
user_key = record { key = λ r. r.id }

instance abbrev pub conversation_key : Keyed Conversation
conversation_key = record { key = λ r. r.id }

instance abbrev pub message_key : Keyed Message
message_key = record { key = λ r. r.id }

instance abbrev pub model_call_key : Keyed ModelCall
model_call_key = record { key = λ r. r.id }

instance abbrev pub chat_job_key : Keyed ChatJob
chat_job_key = record { key = λ r. r.id }

abbrev pub and_then {ℓ κ} : {A : Type ℓ} {B : Type κ} → Option A → (A → Option B) → Option B
and_then none f = none
and_then (some a) f = f a

module _ {ℓ} {A : Type ℓ} ⦃k : Keyed A⦄ where
  -- WHERE id = i
  unfoldable pub find : ℕ → List A → Option A
  find i [] = none
  find i (r ∷ rs) = if k.key r == i then some r else find i rs

  -- The row with the primary key `i` is written anew.
  unfoldable pub replace : ℕ → A → List A → List A
  replace i v [] = []
  replace i v (r ∷ rs) = if k.key r == i then v ∷ rs else r ∷ replace i v rs

  -- DELETE … WHERE id = i
  unfoldable pub remove : ℕ → List A → List A
  remove i [] = []
  remove i (r ∷ rs) = let rest = remove i rs in if k.key r == i then rest else r ∷ rest

  pub find-remove : (i : ℕ) (rs : List A) → find i (remove i rs) ≡ none
  unfolding find remove
  find-remove i [] = refl
  find-remove i (r ∷ rs) = elim (Bool-cases (k.key r == i)) [
    | inl p ↦ rw p (find-remove i rs)
    | inr p ↦ rw p (rw p (find-remove i rs))
  ]

  pub find-remove_ne : (i j : ℕ) (rs : List A) → j ≢ i → find j (remove i rs) ≡ find j rs
  unfolding find remove
  find-remove_ne i j [] n = refl
  find-remove_ne i j (r ∷ rs) n = elim (Bool-cases (k.key r == i)) [
    | inl p ↦
        let q : (k.key r == j) ≡ false = ground (arith, n) in rw (p, q) (find-remove_ne i j rs n)
    | inr p ↦ elim (Bool-cases (k.key r == j)) [
      | inl q ↦ rw (p, q) refl
      | inr q ↦ rw (p, q) (find-remove_ne i j rs n)
    ]
  ]

  pub find-key : (i : ℕ) (rs : List A) {r : A} → find i rs ≡ some r → k.key r ≡ i
  unfolding find
  find-key i [] h = cc
  find-key i (x ∷ rs) {r} h = ground (arith, find-key i rs {r = r})

  pub find-replace_self :
      (i : ℕ) (v : A) (rs : List A) {r : A}
      → find i rs ≡ some r
      → k.key v ≡ i
      → find i (replace i v rs) ≡ some v
  unfolding find replace
  find-replace_self i v [] h e = cc
  find-replace_self i v (x ∷ rs) h e = elim (Bool-cases (k.key x == i)) [
    | inl p ↦ rw (p, e, ==-refl i)
    | inr p ↦ rw (p, p) (find-replace_self i v rs (rw p at h) e)
  ]

  pub find-replace_ne :
      (i j : ℕ) (v : A) (rs : List A) → k.key v ≡ i → i ≢ j → find j (replace i v rs) ≡ find j rs
  unfolding find replace
  find-replace_ne i j v [] e n = refl
  find-replace_ne i j v (x ∷ rs) e n = ground (arith, find-replace_ne i j v rs e n)

  -- No row has the key that the sequence gives next.
  pub find-fresh : (n : ℕ) (rs : List A) → All (λ r. k.key r < n) rs → find n rs ≡ none
  unfolding find
  find-fresh n [] h = refl
  find-fresh n (x ∷ rs) h = ground (arith, find-fresh n rs h.1, h.0)

  pub find-append_old :
      (i : ℕ) (rs ss : List A) {r : A} → find i rs ≡ some r → find i (rs ++ ss) ≡ some r
  unfolding find
  find-append_old i [] ss h = cc
  find-append_old i (x ∷ rs) ss {r} h = ground (arith, find-append_old i rs ss {r = r})

  pub find-append_new :
      (i : ℕ) (rs : List A) (v : A)
      → find i rs ≡ none
      → k.key v ≡ i
      → find i (rs ++ v ∷ []) ≡ some v
  unfolding find
  find-append_new i [] v h e = rw (e, ==-refl i)
  find-append_new i (x ∷ rs) v h e = ground (arith, find-append_new i rs v)

  pub find-append_ne :
      (i : ℕ) (rs : List A) (v : A) → k.key v ≢ i → find i (rs ++ v ∷ []) ≡ find i rs
  unfolding find
  find-append_ne i [] v e = ground arith
  find-append_ne i (x ∷ rs) v e = ground (arith, find-append_ne i rs v e)
