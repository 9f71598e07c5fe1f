-- ===== src/Examples/RedisRuns.antt =====
-- The theorems about the Redis scripts on the server of Redis.Memory.
use gopher_agent_platform.Prelude.{
  ℕ, ◌≡◌, ◌≤◌, refl, min, [], ◌∷◌, ◌++◌, length, All, arith, true, false, Option, some, none,
  if◌then◌else◌,
}
use gopher_agent_platform.Errors.{
  sentinel, unexpected_ttl, opaque, wrap, send_too_frequent, send_failed,
}
use gopher_agent_platform.Exec.{Result, ok, err}
use gopher_agent_platform.Text.{Text, text, text_eq, trim_space, byte_len}
use gopher_agent_platform.Redis.{Entry, str}
use gopher_agent_platform.Redis.Memory.{memory, no_keys}
use gopher_agent_platform.Limits.{RateLimiter, new_rate_limiter, allow_key_suffix}
use gopher_agent_platform.Limits.Window.{
  requests, granted, granted-requests, short_window_fails, window_key,
}
use gopher_agent_platform.Verification.Store.{Platform, code_key, cooldown_key, attempts_key}
use gopher_agent_platform.Verification.Service.{
  default_config, normalize_email, send, verify, generate_numeric_code,
}
use gopher_agent_platform.Verification.Sending.{
  IsStandard, IsUsable, verify-send, send-send, send_compensated,
}
use gopher_agent_platform.Verification.Guesses.{
  NotAccepted, accepted_count, verifications, verifications_accept_once, verifications_give_up,
}

abbrev limiter : RateLimiter
limiter = record {
  limit = 2;
  window = 5000000000;
  prefix = text "gopherai:rate_limit:chat";
  hash_identity = true;
}

abbrev same : Text → Text
same t = t

granted-requests_example :
    granted (requests memory same limiter (text "7") (10 ∷ 20 ∷ 30 ∷ []) no_keys)
    ≡ min (length {A = ℕ} (10 ∷ 20 ∷ 30 ∷ [])) 2
granted-requests_example =
    granted-requests memory same limiter (text "7") 10 (20 ∷ 30 ∷ []) no_keys refl (omega arith)

abbrev short : RateLimiter
short = record limiter { window = 500000; hash_identity = false }

short_made : new_rate_limiter true 2 500000 short.prefix ≡ ok short
unfolding new_rate_limiter
short_made = refl

short_window_fails_example :
    let answer = allow_key_suffix memory same short (text "7") no_keys in
    (answer.0 ≡ err (sentinel unexpected_ttl)) × (answer.1 (window_key short (text "7")) ≡ none)
short_window_fails_example =
    short_window_fails memory same short (text "7") 2 500000 no_keys short_made (omega arith) refl

abbrev platform : Platform
platform = record { redis = memory; digest = same; to_lower = same; parse_address = λ t. some t }

abbrev address : Text
address = text "a@b.c"

abbrev sent : Text → Option Entry
sent k =
    if text_eq (code_key platform address) k
    then some (record { value = str (text "123456"); ttl = some 600000 })
    else none

verifications_accept_once_example :
    accepted_count
      (verifications platform address 5
        ((10, text "000000") ∷ (20, text "123456") ∷ (0, text "123456") ∷ [])
        sent).0
    ≤ 1
verifications_accept_once_example =
    verifications_accept_once platform address (text "123456") 599999 5
      ((10, text "000000") ∷ (20, text "123456") ∷ (0, text "123456") ∷ []) sent refl

verifications_give_up_example :
    All NotAccepted
      (verifications platform address 2
        (((10, text "000000") ∷ (500, text "111111") ∷ []) ++ (20, text "123456") ∷ [])
        sent).0
verifications_give_up_example =
    verifications_give_up platform address (text "123456") 599999 2
      ((10, text "000000") ∷ (500, text "111111") ∷ []) ((20, text "123456") ∷ []) sent refl
      (omega arith) refl (refl, (refl, tt))

abbrev parsed : Text → Option Text
parsed [] = none
parsed (c ∷ t) = some (c ∷ t)

abbrev plain_platform : Platform
plain_platform = record { redis = memory; digest = same; to_lower = same; parse_address = parsed }

platform-IsStandard : IsStandard plain_platform
platform-IsStandard = record {
  lower_twice = λ t. refl;
  lower-trimmed = λ t e. e;
  no_empty_address = refl;
}

default_config-IsUsable : IsUsable default_config
default_config-IsUsable = record {
  interval = omega arith;
  longer = omega arith;
  attempts = λ e. cc;
}

normalized : normalize_email plain_platform address ≡ ok address
unfolding normalize_email trim_space byte_len
normalized = refl

abbrev posted : Text → Text → Result (Unit {0})
posted email code = ok tt

verify-send_example :
    let sent = send plain_platform (some default_config) posted none (ok 1234) address no_keys in
    (sent.0 ≡ ok tt)
    × ((verify plain_platform (some default_config) none address (text " 001234") sent.1).0 ≡ ok tt)
unfolding trim_space generate_numeric_code
verify-send_example =
    verify-send plain_platform platform-IsStandard default_config default_config-IsUsable address
      address normalized 1234 posted (text " 001234") no_keys refl refl refl

send-send_example :
    let later =
      memory.elapse
        (send plain_platform (some default_config) posted none (ok 1234) address no_keys).1
        5000 in
    send plain_platform (some default_config) posted none (ok 99) address later
    ≡ (err (sentinel send_too_frequent), later)
send-send_example =
    send-send plain_platform platform-IsStandard default_config default_config-IsUsable address
      address normalized 1234 posted 99 5000 no_keys refl refl (omega arith)

abbrev refused_post : Text → Text → Result (Unit {0})
refused_post email code = err (opaque 550)

send_compensated_example :
    let sent =
      send plain_platform (some default_config) refused_post none (ok 1234) address no_keys in
    (sent.0 ≡ err (wrap send_failed (opaque 550)))
    × (sent.1 (code_key plain_platform address) ≡ none)
    × (sent.1 (cooldown_key plain_platform address) ≡ none)
    × (sent.1 (attempts_key plain_platform address) ≡ none)
send_compensated_example =
    send_compensated plain_platform platform-IsStandard default_config default_config-IsUsable
      address address normalized 1234 refused_post no_keys (opaque 550) refl refl
