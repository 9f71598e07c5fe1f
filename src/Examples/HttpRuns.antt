-- ===== src/Examples/HttpRuns.antt =====
-- The theorems about requests over HTTP at small worlds.
use gopher_agent_platform.Prelude.{
  ℕ, ◌≡◌, refl, min, none, some, [], ◌∷◌, arith, length, true, false, if◌then◌else◌,
}
use gopher_agent_platform.Errors.{opaque}
use gopher_agent_platform.Exec.{Result, ok, err, Exec}
use gopher_agent_platform.Text.{Text, text, text_eq, trim_space, is_empty, byte_len, is_space}
use gopher_agent_platform.Redis.Memory.{memory, no_keys}
use gopher_agent_platform.Database.Table.{find}
use gopher_agent_platform.Conversations.Sql.{owned_conversation}
use gopher_agent_platform.Jobs.Service.{Publisher}
use gopher_agent_platform.Limits.{RateLimiter, Verdict}
use gopher_agent_platform.Users.Service.{Accounts, valid_password, valid}
use gopher_agent_platform.Verification.Store.{Platform}
use gopher_agent_platform.Verification.Service.{default_config}
use gopher_agent_platform.Http.Request.{
  Request, status_of, bound, internal_server_error, parse_uint, parse_bearer_token, fields_from,
}
use gopher_agent_platform.Http.Router.{Parts, serve, post_chat}
use gopher_agent_platform.Http.Accounts.{AuthRequest, register}
use gopher_agent_platform.Http.Access.{chats, serve_stranger}
use gopher_agent_platform.Http.Limited.{runs, runs_limited}
use gopher_agent_platform.Http.Registration.{verifier, register_long_address}
use gopher_agent_platform.Database.{is_bigint, is_storable}
use gopher_agent_platform.Examples.ChatRuns.{recovering}
use gopher_agent_platform.Examples.JobRuns.{calm}
use gopher_agent_platform.Examples.AgentRuns.{repeated}

-- A verifier that knows one token, a broker that takes every job and a limiter that lets all through.
abbrev known : Text → Result ℕ
known token = if text_eq token (text "t8") then ok 8 else err (opaque 2)

abbrev broker : Publisher
broker id w = (ok tt, w)

abbrev open_limiter : Text → Exec (Unit {0}) Verdict
open_limiter identity l = (ok (record { allowed = true; retry_after = 0 }), l)

-- The routes over these, with handlers that answer nothing of use where they are outside.
abbrev parts : Parts (Unit {0})
parts = record {
  chat_limiter = some open_limiter;
  rag_upload_limiter = some open_limiter;
  tts_limiter = none;
  publisher = broker;
  providers = recovering;
  handlers = λ route user request w. (internal_server_error, w);
}

abbrev request : Request
request = record { authorization = text "Bearer t8"; id = text "1"; page = none; page_size = none }

bearer_t8 : parse_bearer_token (text "Bearer t8") ≡ some (text "t8")
unfolding parse_bearer_token fields_from is_space
bearer_t8 = refl

id_1 : parse_uint (text "1") ≡ some 1
unfolding parse_uint
id_1 = refl

foreign : owned_conversation calm.db 8 1 ≡ none
unfolding owned_conversation find
foreign = refl

hello_fits : trim_space (text "hello") ≡ text "hello"
unfolding trim_space
hello_fits = refl

serve_stranger_example :
    let r = serve parts known (post_chat (bound (text "hello"))) request (tt, calm) in
    (status_of r.0 ≡ 404) × (r.1.1.db ≡ calm.db)
unfolding is_bigint is_storable
serve_stranger_example =
    serve_stranger parts known 8 1 (post_chat (bound (text "hello"))) request tt calm
      (chats (text "hello") (rw hello_fits refl) (rw hello_fits (omega arith, omega arith)))
      (record { token = text "t8"; bearer = bearer_t8; verified = refl }) open_limiter refl
      (record { allowed = true; retry_after = 0 }, refl, refl) id_1 foreign refl (omega arith)
      (omega arith) refl refl

abbrev chat_limiter : RateLimiter
chat_limiter = record {
  limit = 2;
  window = 5000000000;
  prefix = text "gopherai:rate_limit:chat";
  hash_identity = false;
}

seven_fits : is_empty (trim_space (text "7")) ≡ false
unfolding trim_space
seven_fits = refl

runs_limited_example :
    runs memory (λ t. t) chat_limiter (text "7") (10 ∷ 20 ∷ 30 ∷ []) (no_keys, 0)
    ≡ min (length {A = ℕ} (10 ∷ 20 ∷ 30 ∷ [])) 2
runs_limited_example =
    runs_limited memory (λ t. t) chat_limiter (text "7") 10 (20 ∷ 30 ∷ []) no_keys seven_fits refl
      (omega arith)

abbrev platform : Platform
platform = record {
  redis = memory;
  digest = λ t. t;
  to_lower = λ t. t;
  parse_address = λ t. some t;
}

abbrev accounts : Accounts
accounts = record {
  hash = λ p. ok p;
  compare = λ h p. ok tt;
  to_lower = λ t. t;
  parse_address = λ t. some t;
  verifier = some (verifier platform (some default_config) no_keys);
}

abbrev sign_up : AuthRequest
sign_up = record {
  email = repeated 255;
  password = text "a long password";
  verification_code = text "123456";
}

password_fits : valid_password (text "a long password") ≡ true
unfolding valid_password byte_len
password_fits = refl

untrimmed : trim_space (repeated 255) ≡ repeated 255
unfolding trim_space
untrimmed = refl

address : valid accounts (repeated 255) ≡ true
unfolding valid
address = refl

size : byte_len (repeated 255) ≡ 255
unfolding byte_len
size = refl

register_long_address_example :
    register accounts (bound sign_up) calm ≡ (internal_server_error, calm)
register_long_address_example =
    register_long_address accounts platform default_config no_keys sign_up (text "a long password")
      calm refl refl password_fits (rw untrimmed address) refl
      (rw (untrimmed, untrimmed, size) (omega arith))
