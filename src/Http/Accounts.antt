-- ===== src/Http/Accounts.antt =====
-- internal/httpapi/user_handler.go and email_verification_handler.go.
use gopher_agent_platform.Prelude.{ℕ, Option, none, some, [], ◌∷◌, if◌then◌else◌}
use gopher_agent_platform.Errors.{
  Err, user_invalid_email, invalid_password, password_hash_failed, email_already_exists,
  invalid_code, code_invalid_or_expired, too_many_attempts, verification_not_configured,
  store_failed, deadline_exceeded, invalid_credentials, user_not_found, invalid_email,
  send_too_frequent, send_failed, generate_code_failed,
}
use gopher_agent_platform.Exec.{Result, ok, err, Exec}
use gopher_agent_platform.Text.{Text, text}
use gopher_agent_platform.Database.Rows.{User}
use gopher_agent_platform.Database.{World}
use gopher_agent_platform.Users.Service as UserService
use gopher_agent_platform.Users.Service.{Accounts}
use gopher_agent_platform.Http.Request.{
  Body, too_large, malformed, bound, UserResponse, nothing, user, access_token, Answer, refused,
  answered, login_first, invalid_request, internal_server_error, unbound_large, unbound, is_any,
}
use gopher_agent_platform.Http.Handlers.{with_body, settled, settle}

-- `registerAndLoginRequest`
pub record AuthRequest : Type 0 where
  pub email : Text
  pub password : Text
  pub verification_code : Text

abbrev pub user_response : User → UserResponse
user_response u = record { id = u.id; email = u.email; created_at = u.created_at }

abbrev unavailable : Answer
unavailable = refused 503 (text "SERVICE_UNAVAILABLE") (text "service is unavailable")

abbrev timed_out : Answer
timed_out = refused 504 (text "TIMEOUT") (text "request timed out")

-- The switch of Register.
unfoldable pub register_error : Err → Answer
register_error e =
    if is_any e (user_invalid_email ∷ invalid_password ∷ [])
    then refused 400 (text "EMAIL_OR_PASSWORD_INVALID") (text "email or password invalid")
    else if is_any e (password_hash_failed ∷ [])
    then internal_server_error
    else if is_any e (email_already_exists ∷ [])
    then refused 409 (text "EMAIL_ALREADY_EXISTS") (text "email already registered")
    else if is_any e (invalid_code ∷ code_invalid_or_expired ∷ too_many_attempts ∷ [])
    then refused 400 (text "INVALID_VERIFICATION_CODE")
        (text "verification code is invalid or expired")
    else if is_any e (verification_not_configured ∷ store_failed ∷ [])
    then unavailable
    else if is_any e (deadline_exceeded ∷ [])
    then timed_out
    else internal_server_error

unfoldable pub login_error : Err → Answer
login_error e =
    if is_any e (user_invalid_email ∷ invalid_password ∷ [])
    then unbound
    else if is_any e (invalid_credentials ∷ [])
    then refused 401 (text "INVALID_CREDENTIALS") (text "email or password error")
    else internal_server_error

unfoldable pub me_error : Err → Answer
me_error e = if is_any e (user_not_found ∷ []) then login_first else internal_server_error

-- The token for a user who has logged in.
abbrev pub logged_in : Result Text → Answer
logged_in (ok token) = answered 200 (access_token token)
logged_in (err e) = internal_server_error

module _ (accounts : Accounts) where
  -- UserHandler.Register, with bindAuthRequest.
  unfoldable pub register : Body AuthRequest → World → Answer × World
  unfolding register_error UserService.register
  register body = with_body body λ request.
      settle register_error (λ u. answered 201 (user (user_response u)))
        (UserService.register accounts request.email request.password request.verification_code)

  -- UserHandler.Login, with the issuer of tokens.
  unfoldable pub login : (ℕ → Result Text) → Body AuthRequest → World → Answer × World
  unfolding login_error UserService.login
  login issue body = with_body body λ request.
      settle login_error (λ u. logged_in (issue u.id))
        (UserService.login accounts request.email request.password)

-- UserHandler.Me
unfoldable pub me : Option ℕ → World → Answer × World
unfolding me_error
me none w = (login_first, w)
me (some user_id) w =
    settle me_error (λ u. answered 200 (user (user_response u))) (UserService.get_by_id user_id) w

-- The switch of EmailVerificationHandler.Send.
unfoldable pub send_error : Err → Answer
send_error e =
    if is_any e (verification_not_configured ∷ [])
    then unavailable
    else if is_any e (invalid_email ∷ [])
    then invalid_request (text "email is invalid")
    else if is_any e (send_too_frequent ∷ [])
    then refused 429 (text "TOO_MANY_REQUESTS") (text "verification code was sent too recently")
    else if is_any e (deadline_exceeded ∷ [])
    then timed_out
    else if is_any e (store_failed ∷ send_failed ∷ generate_code_failed ∷ [])
    then unavailable
    else internal_server_error

-- EmailVerificationHandler.Send over the service, which is nil where it is `none`.
unfoldable pub send_code {ℓ} :
    {S : Type ℓ} → Option (Text → Exec S (Unit {0})) → Body Text → S → Answer × S
unfolding send_error
send_code none body s = (unavailable, s)
send_code (some send) too_large s = (unbound_large, s)
send_code (some send) malformed s = (unbound, s)
send_code (some send) (bound email) s =
    (settled send_error (λ _. answered 202 nothing) (send email s).0, (send email s).1)
