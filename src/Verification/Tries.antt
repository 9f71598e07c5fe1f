-- ===== src/Verification/Tries.antt =====
-- One try of a code: the branches of the script that verifies it.
use gopher_agent_platform.Prelude.{
  ℕ, suc, ◌+◌, ◌<◌, ◌≤◌, ◌≡◌, refl, ◌∙◌, true, false, Option, none, some, if◌then◌else◌, leb, arith,
}
use gopher_agent_platform.Text.{Text, text_eq}
use gopher_agent_platform.Text.Laws.{text_eq_refl}
use gopher_agent_platform.Redis.{Entry, str, counted}
use gopher_agent_platform.Verification.Store.{
  Platform, Reply, accepted, refused, exhausted, verify_script, both_deleted, miss,
}

-- A code that is stored, with `t` milliseconds left.
abbrev pub stored_code : Text → ℕ → Option Entry
stored_code code t = some (record { value = str code; ttl = some t })

-- Two keys of one address; they are different, and comparing them finds it, in either order.
pub record Apart (a b : Text) : Type 0 where
  pub forth : text_eq a b ≡ false
  pub back : text_eq b a ≡ false

module _ (p : Platform) (code_at attempts_at : Text) (apart : Apart code_at attempts_at) where
  open p use {redis}

  abbrev pub tried : Text → ℕ → redis.State → Reply × redis.State
  tried code m s = verify_script p code_at attempts_at code m s

  deleted_code :
      (s : redis.State) → redis.entry (both_deleted p code_at attempts_at s) code_at ≡ none
  deleted_code s =
      rw (redis.entry-del (redis.del s code_at) attempts_at code_at, apart.back)
        (rw (redis.entry-del s code_at code_at, text_eq_refl code_at))

  deleted_attempts :
      (s : redis.State) → redis.entry (both_deleted p code_at attempts_at s) attempts_at ≡ none
  deleted_attempts s =
      rw (redis.entry-del (redis.del s code_at) attempts_at attempts_at, text_eq_refl attempts_at)

  -- With a code stored, the script compares it and Counts a miss.
  pub stored :
      (code guess : Text) (t m : ℕ) (s : redis.State)
      → redis.entry s code_at ≡ stored_code code (suc t)
      → tried guess m s ≡ (
          if text_eq code guess
          then (accepted, both_deleted p code_at attempts_at s)
          else miss p code_at attempts_at (suc t) m s)
  unfolding verify_script
  stored code guess t m s e = rw e

  -- The right code is accepted, and afterwards neither it nor a count of failures is stored.
  pub verify_right :
      (code : Text) (t m : ℕ) (s : redis.State)
      → redis.entry s code_at ≡ stored_code code (suc t)
      → ((tried code m s).0 ≡ accepted)
        × (redis.entry (tried code m s).1 code_at ≡ none)
        × (redis.entry (tried code m s).1 attempts_at ≡ none)
  verify_right code t m s e =
      rw (stored code code t m s e)
        (rw (text_eq_refl code) (refl, deleted_code s, deleted_attempts s))

  pub verify_absent :
      (code : Text) (m : ℕ) (s : redis.State)
      → redis.entry s code_at ≡ none
      → ((tried code m s).0 ≡ refused) × (redis.entry (tried code m s).1 code_at ≡ none)
  unfolding verify_script
  verify_absent code m s e = rw e (refl, rw (redis.entry-del s attempts_at code_at, apart.back) e)

  abbrev counted_once : redis.State → ℕ → redis.State
  counted_once s t = redis.pexpire (redis.incr s attempts_at) attempts_at (suc t)

  counted_once_code :
      (s : redis.State) (t : ℕ) → redis.entry (counted_once s t) code_at ≡ redis.entry s code_at
  counted_once_code s t =
      rw (redis.entry-pexpire (redis.incr s attempts_at) attempts_at (suc t) code_at, apart.back)
        (rw (redis.entry-incr s attempts_at code_at, apart.back))

  pub incremented :
      (s : redis.State)
      → counted (redis.entry (redis.incr s attempts_at) attempts_at)
        ≡ counted (redis.entry s attempts_at) + 1
  incremented s = rw (redis.entry-incr s attempts_at attempts_at, text_eq_refl attempts_at)

  counted_once_attempts :
      (s : redis.State) (t : ℕ)
      → counted (redis.entry (counted_once s t) attempts_at)
        ≡ counted (redis.entry s attempts_at) + 1
  counted_once_attempts s t =
      rw
        (
          redis.entry-pexpire (redis.incr s attempts_at) attempts_at (suc t) attempts_at,
          text_eq_refl attempts_at,
        )
        (rw (redis.entry-incr s attempts_at attempts_at, text_eq_refl attempts_at))

  -- A wrong code is counted while there are attempts left; the last of them deletes the code.
  pub verify_wrong :
      (code guess : Text) (t m : ℕ) (s : redis.State)
      → text_eq code guess ≡ false
      → redis.entry s code_at ≡ stored_code code (suc t)
      → counted (redis.entry s attempts_at) + 1 < m
      → ((tried guess m s).0 ≡ refused)
        × (redis.entry (tried guess m s).1 code_at ≡ stored_code code (suc t))
        × (counted (redis.entry (tried guess m s).1 attempts_at)
            ≡ counted (redis.entry s attempts_at) + 1)
  verify_wrong code guess t m s w e l =
      let q : leb m (counted (redis.entry s attempts_at) + 1) ≡ false = ground arith in
      rw (stored code guess t m s e, w)
        (rw (incremented s) (rw q (refl, counted_once_code s t ∙ e, counted_once_attempts s t)))

  pub verify_last :
      (code guess : Text) (t m : ℕ) (s : redis.State)
      → text_eq code guess ≡ false
      → redis.entry s code_at ≡ stored_code code (suc t)
      → m ≤ counted (redis.entry s attempts_at) + 1
      → ((tried guess m s).0 ≡ exhausted) × (redis.entry (tried guess m s).1 code_at ≡ none)
  verify_last code guess t m s w e l =
      let q : leb m (counted (redis.entry s attempts_at) + 1) ≡ true = ground arith in
      rw (stored code guess t m s e, w)
        (rw (incremented s) (rw q (refl, deleted_code (counted_once s t))))
