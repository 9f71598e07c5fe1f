-- ===== src/Users/Service.antt =====
-- internal/user/service.go
use gopher_agent_platform.Prelude.{ℕ, Bool, not, Option, none, some, ◌&&◌, leb, if◌then◌else◌}
use gopher_agent_platform.Errors.{
  sentinel, is, context, user_invalid_email, invalid_password, password_hash_failed, user_not_found,
  invalid_credentials, mismatched_password,
}
use gopher_agent_platform.Exec.{
  Result, ok, err, Exec, ◌>>=◌, ◌>>◌, fail, raise, lift, attempt, reject_if,
}
use gopher_agent_platform.Text.{Text, text_eq, trim_space, is_empty, byte_len}
use gopher_agent_platform.Database.Rows.{User}
use gopher_agent_platform.Database.{World}
use gopher_agent_platform.Users.Repository

-- What the service takes from outside: bcrypt, `strings.ToLower`, the address that
-- `mail.ParseAddress` reads, and the check of a code, where registration asks for one.
pub record Accounts : Type 0 where
  pub hash : Text → Result Text
  pub compare : Text → Text → Result (Unit {0})
  pub to_lower : Text → Text
  pub parse_address : Text → Option Text
  pub verifier : Option (Text → Text → Result (Unit {0}))

-- validPassword
unfoldable pub valid_password : Text → Bool
valid_password password = leb 8 (byte_len password) && leb (byte_len password) 72

abbrev parsed_as : Option Text → Text → Bool
parsed_as none t = Bool.false
parsed_as (some a) t = text_eq a t

-- `%v` leaves the cause out of the chain.
abbrev hashed : Result Text → Result Text
hashed (ok h) = ok h
hashed (err e) = err (context (sentinel password_hash_failed))

abbrev pub verified : Option (Text → Text → Result (Unit {0})) → Text → Text → Result (Unit {0})
verified none email code = ok tt
verified (some verify) email code = verify email code

-- The answer of bcrypt for the password of a user.
abbrev pub compared : User → Result (Unit {0}) → Result User
compared u (ok _) = ok u
compared u (err e) =
    if is e mismatched_password then err (sentinel invalid_credentials) else err (context e)

module _ (a : Accounts) where
  unfoldable pub valid : Text → Bool
  valid email = parsed_as (a.parse_address email) email

  abbrev pub normalized : Text → Text
  normalized email = a.to_lower (trim_space email)

  unfoldable pub register : Text → Text → Text → Exec World User
  register email password verification_code = do
    reject_if (is_empty email) user_invalid_email
    reject_if (not (valid_password password)) invalid_password
    reject_if (not (valid (normalized email))) user_invalid_email
    password_hash ← lift (hashed (a.hash password))
    lift (verified a.verifier (normalized email) verification_code)
    Repository.create (normalized email) password_hash

  -- The comparison with a dummy hash only takes the time of a comparison.
  abbrev checked : Text → Result User → Exec World User
  checked password (ok u) = lift (compared u (a.compare u.password_hash password))
  checked password (err e) = if is e user_not_found then fail invalid_credentials else raise e

  unfoldable pub login : Text → Text → Exec World User
  login email password = do
    reject_if (is_empty email) user_invalid_email
    reject_if (not (valid_password password)) invalid_password
    reject_if (not (valid (normalized email))) user_invalid_email
    r ← attempt (Repository.get_by_email (normalized email))
    checked password r

abbrev pub get_by_id : ℕ → Exec World User
get_by_id = Repository.get_by_id
