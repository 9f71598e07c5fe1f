-- ===== src/Http/Registration.antt =====
-- A registration with an address that the verification of codes does not take.
use gopher_agent_platform.Prelude.{
  ◌<◌, ◌≡◌, refl, false, true, not, Option, none, some, arith, inl, inr, Bool-cases, ltb,
}
use gopher_agent_platform.Errors.{sentinel, is, invalid_email}
use gopher_agent_platform.Exec.{ok, err, Result}
use gopher_agent_platform.Text.{Text, trim_space, is_empty, byte_len}
use gopher_agent_platform.Database.{World}
use gopher_agent_platform.Users.Service as UserService
use gopher_agent_platform.Users.Service.{Accounts, valid_password, valid, normalized}
use gopher_agent_platform.Verification.Store.{Platform, Store, parsed_as}
use gopher_agent_platform.Verification.Service.{Config, max_email_bytes, normalize_email, verify}
use gopher_agent_platform.Http.Request.{bound, internal_server_error}
use gopher_agent_platform.Http.Accounts.{AuthRequest, register, register_error}

-- The verifier of an account service: VerifyAndConsume over a store.
abbrev pub verifier : (p : Platform) → Option Config → Store p → Text → Text → Result (Unit {0})
verifier p service s email code = (verify p service none email code s).0

normalize_long :
    (p : Platform) (email : Text)
    → max_email_bytes < byte_len (p.to_lower (trim_space email))
    → normalize_email p email ≡ err (sentinel invalid_email)
unfolding normalize_email
normalize_long p email h =
    let normal = p.to_lower (trim_space email) in
    let q : ltb max_email_bytes (byte_len normal) ≡ true = ground arith in
    elim (Bool-cases (not (parsed_as (p.parse_address normal) normal))) [
      | inl t ↦ rw t refl
      | inr t ↦ rw (t, q) refl
    ]

verify_long :
    (p : Platform) (config : Config) (s : Store p) (email code : Text)
    → max_email_bytes < byte_len (p.to_lower (trim_space email))
    → (verify p (some config) none email code s).0 ≡ err (sentinel invalid_email)
unfolding verify
verify_long p config s email code h = rw (normalize_long p email h) refl

-- An address of more than 254 bytes that is an address for the account service, with a password that
-- is in order, is answered with an internal server error, where the codes are verified by
-- VerifyAndConsume; the database stays as it is.
pub register_long_address :
    (a : Accounts) (p : Platform) (config : Config) (s : Store p) (request : AuthRequest)
    (hash : Text) (w : World)
    → a.verifier ≡ some (verifier p (some config) s)
    → is_empty request.email ≡ false
    → valid_password request.password ≡ true
    → valid a (normalized a request.email) ≡ true
    → a.hash request.password ≡ ok hash
    → max_email_bytes < byte_len (p.to_lower (trim_space (normalized a request.email)))
    → register a (bound request) w ≡ (internal_server_error, w)
unfolding register register_error UserService.register is
register_long_address a p config s request hash w v e k d b h =
    rw
      (
        e,
        k,
        d,
        b,
        v,
        verify_long p config s (normalized a request.email) request.verification_code h,
      )
      refl
