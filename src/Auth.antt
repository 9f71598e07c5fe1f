-- ===== src/Auth.antt =====
-- internal/auth/token.go. The JWT library is a parameter: it signs claims, and it reads a token back
-- where the signature, the issuer and the times are in order.
pub mod Numbers
pub mod Issued
use gopher_agent_platform.Prelude.{
  ℕ, ◌+◌, ◌/◌, ◌<◌, ◌≤◌, ◌≡◌, false, Option, none, some, if◌then◌else◌, ltb, ◌==◌,
}
use gopher_agent_platform.Errors.{Err, opaque, context}
use gopher_agent_platform.Exec.{Result, ok, err}
use gopher_agent_platform.Text.{Text, trim_space, is_empty, byte_len, decimal}
use gopher_agent_platform.Http.Request.{parse_uint}

-- `TokenManager`; the time to live is in nanoseconds, and a negative one is refused as 0 is.
pub record TokenManager : Type 0 where
  pub secret : Text
  pub issuer : Text
  pub ttl : ℕ

-- `jwt.RegisteredClaims`, with the times in seconds.
pub record Claims : Type 0 where
  pub subject : Text
  pub issuer : Text
  pub issued_at : ℕ
  pub expires_at : ℕ

-- The errors of this file are `errors.New` without a name.
abbrev pub plain_error : Err
plain_error = opaque 0

-- NewTokenManager
unfoldable pub new_token_manager : Text → Text → ℕ → Result TokenManager
new_token_manager secret issuer ttl =
    if ttl == 0
    then err plain_error
    else if is_empty (trim_space issuer)
    then err plain_error
    else if ltb (byte_len secret) 32
    then err plain_error
    else ok record { secret = secret; issuer = issuer; ttl = ttl }

abbrev pub second : ℕ
second = 1000000000

-- The library: `parse` takes the secret, the issuer and the time in seconds.
pub record Jwt : Type 0 where
  pub sign : Text → Claims → Result Text
  pub parse : Text → Text → ℕ → Text → Result Claims
  pub parse-sign :
      (secret token : Text) (claims : Claims) (now : ℕ)
      → sign secret claims ≡ ok token
      → claims.issued_at ≤ now
      → now < claims.expires_at
      → parse secret claims.issuer now token ≡ ok claims
  pub token_not_blank :
      (secret token : Text) (claims : Claims)
      → sign secret claims ≡ ok token
      → is_empty (trim_space token) ≡ false

abbrev signed : Result Text → Result Text
signed (ok token) = ok token
signed (err e) = err (context e)

abbrev pub positive_subject : Option ℕ → Result ℕ
positive_subject none = err plain_error
positive_subject (some user_id) = if user_id == 0 then err plain_error else ok user_id

abbrev pub subject_of : Result Claims → Result ℕ
subject_of (err e) = err (context e)
subject_of (ok claims) = positive_subject (parse_uint claims.subject)

module _ (jwt : Jwt) (manager : TokenManager) where
  -- The claims of a token that is issued at a time in nanoseconds; NumericDate cuts it to seconds.
  abbrev pub claims_of : ℕ → ℕ → Claims
  claims_of now user_id = record {
    subject = decimal user_id;
    issuer = manager.issuer;
    issued_at = now / second;
    expires_at = (now + manager.ttl) / second;
  }

  -- TokenManager.Issue
  unfoldable pub issue : ℕ → ℕ → Result Text
  unfolding decimal
  issue now user_id =
      if user_id == 0
      then err plain_error
      else signed (jwt.sign manager.secret (claims_of now user_id))

  -- TokenManager.Verify; the library reports a token that is not valid as an error.
  unfoldable pub verify : ℕ → Text → Result ℕ
  unfolding parse_uint trim_space
  verify now token =
      if is_empty (trim_space token)
      then err plain_error
      else subject_of (jwt.parse manager.secret manager.issuer (now / second) token)
