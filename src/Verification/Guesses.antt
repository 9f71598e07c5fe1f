-- ===== src/Verification/Guesses.antt =====
-- What a code is worth: it is accepted once, and wrong guesses use it up.
use gopher_agent_platform.Prelude.{
  ℕ, suc, ◌+◌, ◌-◌, ◌<◌, ◌≤◌, ◌≡◌, ◌≢◌, refl, ◌∙◌, true, false, none, some, List, [], ◌∷◌, ◌++◌,
  leb, ltb, sym, subst, ◌⊎◌, arith, length, Bool-cases, inl, inr, All,
}
use gopher_agent_platform.Text.{Text, text_eq}
use gopher_agent_platform.Text.Laws.{text_eq_refl, text_eq→eq}
use gopher_agent_platform.Redis.{Value, str, num, counted}
use gopher_agent_platform.Verification.Store.{
  Platform, Reply, accepted, refused, exhausted, expired, verify_script, code_key, attempts_key,
}
use gopher_agent_platform.Verification.Tries.{
  stored_code, Apart, tried, stored, verify_right, verify_absent, verify_wrong, verify_last,
  incremented,
}

abbrev pub NotAccepted : Reply → Type 0
NotAccepted r = r ≢ accepted

-- How many of the replies accept.
abbrev pub accepted_count : List Reply → ℕ
accepted_count [] = 0
accepted_count (accepted ∷ rs) = suc (accepted_count rs)
accepted_count (r ∷ rs) = accepted_count rs

none_accepted : (rs : List Reply) → All NotAccepted rs → accepted_count rs ≡ 0
none_accepted [] h = refl
none_accepted (accepted ∷ rs) h = absurd (h.0 refl)
none_accepted (refused ∷ rs) h = none_accepted rs h.1
none_accepted (exhausted ∷ rs) h = none_accepted rs h.1
none_accepted (expired ∷ rs) h = none_accepted rs h.1

first_refused :
    (r : Reply) (rs : List Reply) → NotAccepted r → accepted_count (r ∷ rs) ≡ accepted_count rs
first_refused accepted rs h = absurd (h refl)
first_refused refused rs h = refl
first_refused exhausted rs h = refl
first_refused expired rs h = refl

module _ (p : Platform) (code_at attempts_at : Text) (apart : Apart code_at attempts_at) where
  open p use {redis}

  -- A sequence of guesses, each with the milliseconds that pass before it.
  unfoldable pub guesses : ℕ → List (ℕ × Text) → redis.State → List Reply × redis.State
  guesses m [] s = ([], s)
  guesses m ((d, g) ∷ gs) s =
      let first = verify_script p code_at attempts_at g m (redis.elapse s d) in
      let rest = guesses m gs first.1 in (first.0 ∷ rest.0, rest.1)

  abbrev IsWrong : Text → ℕ × Text → Type 0
  IsWrong code g = text_eq code g.1 ≡ false

  absent_still :
      (s : redis.State) (d : ℕ)
      → redis.entry s code_at ≡ none
      → redis.entry (redis.elapse s d) code_at ≡ none
  absent_still s d e = rw (redis.entry-elapse s d code_at, e) refl

  -- A key with `suc t` milliseconds left, `d` milliseconds later.
  abbrev Later : ℕ → ℕ → ℕ → Type 0
  Later t d u = d + suc u ≡ suc t

  live_on :
      (s : redis.State) (d t u : ℕ) (k : Text) (v : Value)
      → redis.entry s k ≡ some (record { value = v; ttl = some (suc t) })
      → Later t d u
      → redis.entry (redis.elapse s d) k ≡ some (record { value = v; ttl = some (suc u) })
  live_on s d t u k v e l =
      let q : ltb d (suc t) ≡ true = ground arith in
      let r : suc t - d ≡ suc u = omega arith in rw (redis.entry-elapse s d k, e, q, r) refl

  -- A code that is stored p code_at attempts_at apart has expired after a while, or lives on.
  expired_or_alive :
      (s : redis.State) (d t : ℕ) (code : Text)
      → redis.entry s code_at ≡ stored_code code (suc t)
      → (redis.entry (redis.elapse s d) code_at ≡ none)
        ⊎ ((u : ℕ) × Later t d u
            × (redis.entry (redis.elapse s d) code_at ≡ stored_code code (suc u)))
  expired_or_alive s d t code e = elim (Bool-cases (ltb d (suc t))) [
    | inr q ↦ inl (rw (redis.entry-elapse s d code_at, e, q) refl)
    | inl q ↦
        let l : Later t d (t - d) = ground arith in
        inr (t - d, l, live_on s d t (t - d) code_at (str code) e l)
  ]

  -- Without a stored p code_at attempts_at apart code nothing is accepted.
  guesses_absent :
      (m : ℕ) (gs : List (ℕ × Text)) (s : redis.State)
      → redis.entry s code_at ≡ none
      → All NotAccepted (guesses m gs s).0
  unfolding guesses
  guesses_absent m [] s e = tt
  guesses_absent m ((d, g) ∷ gs) s e =
      let a =
        verify_absent p code_at attempts_at apart g m (redis.elapse s d) (absent_still s d e) in
      ((λ h. cc (a.0, h)), guesses_absent m gs _ (a.1))

  -- A count of failures that lives as long as the code does.
  abbrev Counts : ℕ → ℕ → redis.State → Type 0
  Counts n t s = redis.entry s attempts_at ≡ some (record { value = num n; ttl = some (suc t) })

  -- After a wrong code that is not the last, the count has gone up and expires with the code.
  missed :
      (code guess : Text) (t m : ℕ) (s : redis.State)
      → text_eq code guess ≡ false
      → redis.entry s code_at ≡ stored_code code (suc t)
      → counted (redis.entry s attempts_at) + 1 < m
      → Counts
          (counted (redis.entry s attempts_at) + 1)
          t
          (tried p code_at attempts_at apart guess m s).1
  missed code guess t m s w e l =
      let q : leb m (counted (redis.entry s attempts_at) + 1) ≡ false = ground arith in
      rw (stored p code_at attempts_at apart code guess t m s e, w)
        (rw (incremented p code_at attempts_at apart s) (
          rw q (
            rw
              (
                redis.entry-pexpire (redis.incr s attempts_at) attempts_at (suc t) attempts_at,
                text_eq_refl attempts_at,
              )
              (rw (redis.entry-incr s attempts_at attempts_at, text_eq_refl attempts_at) refl))))

  -- One wrong code, tried p code_at attempts_at apart now: with `left` more failures to come, or none, what follows.
  one_wrong :
      (code guess : Text) (t m : ℕ) (s : redis.State)
      → text_eq code guess ≡ false
      → redis.entry s code_at ≡ stored_code code (suc t)
      → NotAccepted (tried p code_at attempts_at apart guess m s).0
        × ((redis.entry (tried p code_at attempts_at apart guess m s).1 code_at ≡ none)
            ⊎ ((redis.entry (tried p code_at attempts_at apart guess m s).1 code_at
                  ≡ stored_code code (suc t))
                × Counts
                    (counted (redis.entry s attempts_at) + 1)
                    t
                    (tried p code_at attempts_at apart guess m s).1
                × (counted (redis.entry s attempts_at) + 1 < m)))
  one_wrong code guess t m s w e =
      elim (Bool-cases (leb m (counted (redis.entry s attempts_at) + 1))) [
        | inl q ↦
            let a = verify_last p code_at attempts_at apart code guess t m s w e (ground arith) in
            ((λ h. cc (a.0, h)), inl (a.1))
        | inr q ↦
            let more : counted (redis.entry s attempts_at) + 1 < m = ground arith in
            let a = verify_wrong p code_at attempts_at apart code guess t m s w e more in
            ((λ h. cc (a.0, h)), inr (a.1, missed code guess t m s w e more, more))
      ]

  -- `left` failures are left before the code is deleted, and the count lives as long as the code.
  guesses_counted :
      (code : Text) (t m n left : ℕ) (wrong rest : List (ℕ × Text)) (s : redis.State)
      → redis.entry s code_at ≡ stored_code code (suc t)
      → Counts n t s
      → n < m
      → m ≤ n + left
      → length wrong ≡ left
      → All (IsWrong code) wrong
      → All NotAccepted (guesses m (wrong ++ rest) s).0
  unfolding guesses
  guesses_counted code t m n left [] rest s e c k l z w = absurd (omega arith)
  guesses_counted code t m n left ((d, g) ∷ wrong) rest s e c k l z w =
      elim (expired_or_alive s d t code e) [
        | inl gone ↦
            let a = verify_absent p code_at attempts_at apart g m (redis.elapse s d) gone in
            ((λ h. cc (a.0, h)), guesses_absent m (wrong ++ rest) _ (a.1))
        | inr (u, v, live) ↦
            let c' = live_on s d t u attempts_at (num n) c v in
            let number : counted (redis.entry (redis.elapse s d) attempts_at) ≡ n = rw c' refl in
            let a = one_wrong code g u m (redis.elapse s d) w.0 live in
            (
              a.0,
              elim a.1 [
                | inl gone ↦ guesses_absent m (wrong ++ rest) _ gone
                | inr (f, h, j) ↦
                    guesses_counted code u m (n + 1) (left - 1) wrong rest _ f (rw number at h)
                      (rw number at j) (omega arith) (omega arith) w.1
              ],
            )
      ]

  -- The first wrong code, whatever was counted before.
  guesses_wrong_first :
      (code : Text) (t m : ℕ) (wrong rest : List (ℕ × Text)) (s : redis.State)
      → redis.entry s code_at ≡ stored_code code (suc t)
      → 0 < m
      → length wrong ≡ m
      → All (IsWrong code) wrong
      → All NotAccepted (guesses m (wrong ++ rest) s).0
  unfolding guesses
  guesses_wrong_first code t m [] rest s e l n w = absurd (omega arith)
  guesses_wrong_first code t m ((d, g) ∷ wrong) rest s e l n w =
      elim (expired_or_alive s d t code e) [
        | inl gone ↦
            let a = verify_absent p code_at attempts_at apart g m (redis.elapse s d) gone in
            ((λ h. cc (a.0, h)), guesses_absent m (wrong ++ rest) _ (a.1))
        | inr (u, v, live) ↦
            let a = one_wrong code g u m (redis.elapse s d) w.0 live in
            (
              a.0,
              elim a.1 [
                | inl gone ↦ guesses_absent m (wrong ++ rest) _ gone
                | inr (f, h, j) ↦
                    guesses_counted code u m _ (m - 1) wrong rest _ f h j (omega arith)
                      (omega arith) w.1
              ],
            )
      ]

  -- A code is accepted once at most, whatever codes are tried, in whatever order and however late.
  accepted_once :
      (code : Text) (t m : ℕ) (gs : List (ℕ × Text)) (s : redis.State)
      → redis.entry s code_at ≡ stored_code code (suc t)
      → accepted_count (guesses m gs s).0 ≤ 1
  unfolding guesses
  accepted_once code t m [] s e = omega arith
  accepted_once code t m ((d, g) ∷ gs) s e = elim (expired_or_alive s d t code e) [
    | inl gone ↦
        let a = verify_absent p code_at attempts_at apart g m (redis.elapse s d) gone in
        let z = none_accepted _ (guesses_absent m gs _ (a.1)) in rw (a.0) (omega (arith, z))
    | inr (u, v, live) ↦ elim (Bool-cases (text_eq code g)) [
      | inl q ↦
          let same : code ≡ g = text_eq→eq code g q in
          let a =
            verify_right p code_at attempts_at apart g u m (redis.elapse s d) (rw (← same) live) in
          let z = none_accepted _ (guesses_absent m gs _ (a.1)) in rw (a.0) (ground (arith, z))
      | inr q ↦
          let a = one_wrong code g u m (redis.elapse s d) q live in
          elim a.1 [
            | inl gone ↦
                let r = tried p code_at attempts_at apart g m (redis.elapse s d) in
                let z : accepted_count (r.0 ∷ (guesses m gs r.1).0) ≡ 0 =
                  first_refused r.0 _ a.0 ∙ none_accepted _ (guesses_absent m gs r.1 gone) in
                omega (arith, z)
            | inr (f, h, j) ↦
                let more = accepted_once code u m gs _ f in
                subst (λ k. k ≤ 1) (sym (first_refused _ _ a.0)) more
          ]
    ]
  ]

-- The two keys of an address that a verification uses are different.
abbrev pub keys_apart :
    (p : Platform) (email : Text) → Apart (code_key p email) (attempts_key p email)
keys_apart p email = record { forth = refl; back = refl }

-- The verifications of one address, over its own keys.
abbrev pub verifications :
    (p : Platform) → Text → ℕ → List (ℕ × Text) → p.redis.State → List Reply × p.redis.State
verifications p email = guesses p (code_key p email) (attempts_key p email) (keys_apart p email)

-- While a code is stored, any sequence of verifications of its address, however much time passes between
-- them, accepts at most one.
pub verifications_accept_once :
    (p : Platform) (email code : Text) (t m : ℕ) (gs : List (ℕ × Text)) (s : p.redis.State)
    → p.redis.entry s (code_key p email) ≡ stored_code code (suc t)
    → accepted_count (verifications p email m gs s).0 ≤ 1
verifications_accept_once p email =
    accepted_once p (code_key p email) (attempts_key p email) (keys_apart p email)

-- Once as many wrong codes as the limit, which is 1 at least, have been tried p code_at attempts_at apart on a code that is stored,
-- however much time passes between any two verifications, nothing that follows is accepted, the right
-- code included.
pub verifications_give_up :
    (p : Platform) (email code : Text) (t m : ℕ) (wrong rest : List (ℕ × Text)) (s : p.redis.State)
    → p.redis.entry s (code_key p email) ≡ stored_code code (suc t)
    → 0 < m
    → length wrong ≡ m
    → All (λ (g : ℕ × Text). text_eq code g.1 ≡ false) wrong
    → All NotAccepted (verifications p email m (wrong ++ rest) s).0
verifications_give_up p email code t m wrong rest s e h n w =
    guesses_wrong_first p (code_key p email) (attempts_key p email) (keys_apart p email) code t m
      wrong rest s e h n w
