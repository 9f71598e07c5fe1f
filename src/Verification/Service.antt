-- ===== src/Verification/Service.antt =====
-- internal/emailverification/service.go, over the store of Verification.Store.
use gopher_agent_platform.Prelude.{
  ℕ, ◌+◌, ◌/◌, ◌%◌, ◌^◌, Bool, not, Option, none, some, [], ◌∷◌, if◌then◌else◌, ltb, ◌==◌, ◌&&◌,
  ◌||◌, all,
}
use gopher_agent_platform.Errors.{
  Err, sentinel, wrap, is, join, invalid_email, invalid_code, invalid_code_store, invalid_sender,
  invalid_config, verification_not_configured, generate_code_failed, store_failed, send_failed,
  send_too_frequent, code_invalid_or_expired, too_many_attempts,
}
use gopher_agent_platform.Exec.{
  Result, ok, err, Exec, ◌>>=◌, ◌>>◌, pure, raise, fail, lift, attempt, reject_if,
}
use gopher_agent_platform.Text.{Text, trim_space, byte_len}
use gopher_agent_platform.Verification.Store.{
  Platform, Store, is_digit, parsed_as, save, verify_and_consume, delete,
}

abbrev pub code_length : ℕ
code_length = 6

abbrev pub code_range : ℕ
code_range = 1000000

abbrev pub max_email_bytes : ℕ
max_email_bytes = 254

-- Durations in nanoseconds; they are signed in Go, and a negative one is refused as 0 is.
pub record Config : Type 0 where
  pub code_ttl : ℕ
  pub resend_interval : ℕ
  pub max_attempts : ℕ

abbrev pub default_config : Config
default_config = record { code_ttl = 600000000000; resend_interval = 60000000000; max_attempts = 5 }

-- NewService: a service without a store and a sender is `none`, the one that is not configured.
unfoldable pub new_service : Bool → Bool → Config → Result (Option Config)
new_service has_codes has_sender config =
    if has_codes
    then if has_sender
      then if config.code_ttl == 0
          || config.resend_interval == 0
          || ltb config.code_ttl config.resend_interval
          || config.max_attempts == 0
        then err (sentinel invalid_config)
        else ok (some config)
      else err (sentinel invalid_sender)
    else if has_sender
    then err (sentinel invalid_code_store)
    else ok none

unfoldable pub valid_code : Text → Bool
valid_code code = byte_len code == code_length && all is_digit code

-- The digit of 10^k, as a code point.
abbrev pub digit : ℕ → ℕ → ℕ
digit n k = b'0' + n / 10 ^ k % 10

-- generateNumericCode, for the number that `crypto/rand` gives below `code_range`.
unfoldable pub generate_numeric_code : ℕ → Text
generate_numeric_code n = digit n 5 ∷ digit n 4 ∷ digit n 3 ∷ digit n 2 ∷ digit n 1 ∷ digit n 0 ∷ []

abbrev generated : Result ℕ → Result Text
generated (ok n) = ok (generate_numeric_code n)
generated (err e) = err (wrap generate_code_failed e)

-- An error of `Save` or of `VerifyAndConsume` that the caller knows goes through.
abbrev pub save_answer : Result (Unit {0}) → Result (Unit {0})
save_answer (ok _) = ok tt
save_answer (err e) = if is e send_too_frequent then err e else err (wrap store_failed e)

abbrev pub verify_answer : Result (Unit {0}) → Result (Unit {0})
verify_answer (ok _) = ok tt
verify_answer (err e) =
    if is e code_invalid_or_expired || is e too_many_attempts
    then err e
    else err (wrap store_failed e)

-- `errors.Join(sendErr, cleanupErr)`
abbrev pub send_error : Err → Result (Unit {0}) → Err
send_error e (ok _) = wrap send_failed e
send_error e (err f) = join (wrap send_failed e) (wrap store_failed f)

abbrev alive {ℓ} : {S : Type ℓ} → Option Err → Exec S (Unit {0})
alive none = pure tt
alive (some e) = raise e

abbrev configured {ℓ} : {S : Type ℓ} → Option Config → Exec S Config
configured none = fail verification_not_configured
configured (some c) = pure c

module _ (p : Platform) where
  unfoldable pub normalize_email : Text → Result Text
  normalize_email value =
      let normalized = p.to_lower (trim_space value) in
      if not (parsed_as (p.parse_address normalized) normalized)
        || ltb max_email_bytes (byte_len normalized)
      then err (sentinel invalid_email)
      else ok normalized

  -- The answer of the mail server, and the deletion of the code where it is an error.
  abbrev pub after_sending : Text → Text → Result (Unit {0}) → Exec (Store p) (Unit {0})
  after_sending email code (ok _) = pure tt
  after_sending email code (err e) = do r ← attempt (delete p email code); raise (send_error e r)

  -- Service.Send: `ended` is `ctx.Err()`, `random` the answer of `crypto/rand`, and `sender` that of
  -- the mail server for an address and a code.
  unfoldable pub send :
      Option Config
      → (Text → Text → Result (Unit {0}))
      → Option Err
      → Result ℕ
      → Text
      → Exec (Store p) (Unit {0})
  send service sender ended random value = do
    config ← configured service
    email ← lift (normalize_email value)
    alive ended
    code ← lift (generated random)
    reject_if (not (valid_code code)) generate_code_failed
    r ← attempt (save p email code config.code_ttl config.resend_interval)
    lift (save_answer r)
    after_sending email code (sender email code)

  -- Service.VerifyAndConsume
  unfoldable pub verify : Option Config → Option Err → Text → Text → Exec (Store p) (Unit {0})
  verify service ended value typed = do
    config ← configured service
    email ← lift (normalize_email value)
    let code = trim_space typed
    reject_if (not (valid_code code)) invalid_code
    alive ended
    r ← attempt (verify_and_consume p email code config.max_attempts)
    lift (verify_answer r)
