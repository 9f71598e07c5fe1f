-- ===== src/Verification/Store.antt =====
-- internal/platform/redis/email_verification_repository.go: the code, the cooldown and the count of
-- failures of an address, under three keys of one Redis server.
use gopher_agent_platform.Prelude.{
  ℕ, zero, suc, ◌/◌, Bool, true, false, not, Option, none, some, ◌++◌, if◌then◌else◌, ltb, leb,
  ◌==◌, ◌&&◌, all,
}
use gopher_agent_platform.Errors.{
  sentinel, email_invalid, code_invalid, ttl_invalid, cooldown_invalid, max_attempts_invalid,
  send_too_frequent, code_invalid_or_expired, too_many_attempts, unexpected_ttl,
}
use gopher_agent_platform.Exec.{Result, ok, err, Exec, ◌>>=◌, ◌>>◌, reject_if}
use gopher_agent_platform.Text.{Text, text, text_eq, trim_space, is_empty, byte_len}
use gopher_agent_platform.Redis.{
  Redis, Entry, str, num, counted, pttl_of, Pttl, missing, persistent, left,
}

abbrev pub millisecond : ℕ
millisecond = 1000000

abbrev pub max_email_bytes : ℕ
max_email_bytes = 254

-- `code[i] < '0' || code[i] > '9'` for no index. A code of digits has a byte for each rune.
abbrev pub is_digit : ℕ → Bool
is_digit c = leb b'0' c && leb c b'9'

unfoldable pub valid_verification_code : Text → Bool
valid_verification_code code = byte_len code == 6 && all is_digit code

-- What the store takes from outside: the server, SHA-256 in hexadecimal, `strings.ToLower`, and
-- `mail.ParseAddress`, which gives the address of a text that it accepts.
pub record Platform : Type 1 where
  pub redis : Redis
  pub digest : Text → Text
  pub to_lower : Text → Text
  pub parse_address : Text → Option Text

-- The replies 1, 0, -1 and -2 of verifyAndConsumeEmailVerificationCodeScript.
pub data Reply : Type 0 where
  accepted refused exhausted expired : Reply

-- `stored == ARGV[1]`
abbrev pub holds : Entry → Text → Bool
holds e code = elim e.value [ str t ↦ text_eq t code | num n ↦ false ]

-- The milliseconds that PTTL gives, where they are positive.
abbrev pub positive_ttl : Pttl → Option ℕ
positive_ttl missing = none
positive_ttl persistent = none
positive_ttl (left zero) = none
positive_ttl (left (suc t)) = some (suc t)

abbrev pub exists : Option Entry → Bool
exists none = false
exists (some e) = true

abbrev pub parsed_as : Option Text → Text → Bool
parsed_as none t = false
parsed_as (some a) t = text_eq a t

module _ (p : Platform) where
  open p use {redis, digest, to_lower, parse_address}

  abbrev pub Store : Type 0
  Store = redis.State

  unfoldable pub valid_email_key_input : Text → Bool
  valid_email_key_input email =
      not (is_empty email)
      && text_eq email (trim_space email)
      && text_eq email (to_lower email)
      && leb (byte_len email) max_email_bytes
      && parsed_as (parse_address email) email

  abbrev pub key : Text → Text → Text
  key kind email = text "gopherai:email_verification:" ++ kind ++ text ":" ++ digest email

  abbrev pub code_key : Text → Text
  code_key email = key (text "code") email

  abbrev pub cooldown_key : Text → Text
  cooldown_key email = key (text "cooldown") email

  abbrev pub attempts_key : Text → Text
  attempts_key email = key (text "attempts") email

  -- saveEmailVerificationCodeScript; true stands for the reply 1, and false for 0.
  unfoldable pub save_script : Text → Text → Text → Text → ℕ → ℕ → Store → Bool × Store
  save_script code_at cooldown_at attempts_at code ttl cooldown s =
      if exists (redis.entry s cooldown_at)
      then (false, s)
      else let s1 = redis.set_px s code_at code ttl in
        let s2 = redis.set_px s1 cooldown_at (text "1") cooldown in (true, redis.del s2 attempts_at)

  abbrev pub both_deleted : Text → Text → Store → Store
  both_deleted code_at attempts_at s = redis.del (redis.del s code_at) attempts_at

  abbrev pub miss : Text → Text → ℕ → ℕ → Store → Reply × Store
  miss code_at attempts_at ttl max_attempts s =
      let s1 = redis.incr s attempts_at in
      let attempts = counted (redis.entry s1 attempts_at) in
      let s2 = redis.pexpire s1 attempts_at ttl in
      if leb max_attempts attempts
      then (exhausted, both_deleted code_at attempts_at s2)
      else (refused, s2)

  abbrev compare_stored : Text → Text → Text → ℕ → Option Entry → Option ℕ → Store → Reply × Store
  compare_stored code_at attempts_at code max_attempts none ttl s =
      (refused, redis.del s attempts_at)
  compare_stored code_at attempts_at code max_attempts (some e) none s =
      (expired, both_deleted code_at attempts_at s)
  compare_stored code_at attempts_at code max_attempts (some e) (some ttl) s =
      if holds e code
      then (accepted, both_deleted code_at attempts_at s)
      else miss code_at attempts_at ttl max_attempts s

  -- verifyAndConsumeEmailVerificationCodeScript
  unfoldable pub verify_script : Text → Text → Text → ℕ → Store → Reply × Store
  verify_script code_at attempts_at code max_attempts s =
      let stored = redis.entry s code_at in
      compare_stored code_at attempts_at code max_attempts stored (positive_ttl (pttl_of stored)) s

  abbrev delete_stored : Text → Text → Text → Text → Option Entry → Store → Store
  delete_stored code_at cooldown_at attempts_at code none s = s
  delete_stored code_at cooldown_at attempts_at code (some e) s =
      if holds e code
      then redis.del (redis.del (redis.del s code_at) cooldown_at) attempts_at
      else s

  -- deleteEmailVerificationCodeScript
  unfoldable pub delete_script : Text → Text → Text → Text → Store → Store
  delete_script code_at cooldown_at attempts_at code s =
      delete_stored code_at cooldown_at attempts_at code (redis.entry s code_at) s

  -- EmailVerificationCodeStore.Save, over a connection that works; the times are in nanoseconds.
  unfoldable pub save : Text → Text → ℕ → ℕ → Exec Store (Unit {0})
  save email code ttl cooldown = do
    reject_if (not (valid_email_key_input email)) email_invalid
    reject_if (not (valid_verification_code code)) code_invalid
    reject_if (ltb ttl millisecond) ttl_invalid
    reject_if (ltb cooldown millisecond) cooldown_invalid
    reject_if (ltb ttl cooldown) cooldown_invalid
    saved ← (λ s.
        let reply =
          save_script (code_key email) (cooldown_key email) (attempts_key email) code
            (ttl / millisecond) (cooldown / millisecond) s in
        (ok reply.0, reply.1))
    reject_if (not saved) send_too_frequent

  abbrev answer : Reply → Result (Unit {0})
  answer accepted = ok tt
  answer refused = err (sentinel code_invalid_or_expired)
  answer exhausted = err (sentinel too_many_attempts)
  answer expired = err (sentinel unexpected_ttl)

  -- EmailVerificationCodeStore.VerifyAndConsume
  unfoldable pub verify_and_consume : Text → Text → ℕ → Exec Store (Unit {0})
  verify_and_consume email code max_attempts = do
    reject_if (not (valid_email_key_input email)) email_invalid
    reject_if (not (valid_verification_code code)) code_invalid
    reject_if (max_attempts == 0) max_attempts_invalid
    (λ s.
        let reply = verify_script (code_key email) (attempts_key email) code max_attempts s in
        (answer reply.0, reply.1))

  -- EmailVerificationCodeStore.Delete
  unfoldable pub delete : Text → Text → Exec Store (Unit {0})
  delete email code = do
    reject_if (not (valid_email_key_input email)) email_invalid
    reject_if (not (valid_verification_code code)) code_invalid
    (λ s. (ok tt, delete_script (code_key email) (cooldown_key email) (attempts_key email) code s))
