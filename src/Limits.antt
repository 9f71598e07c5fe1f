-- ===== src/Limits.antt =====
-- internal/platform/redis/rate_limiter.go: a fixed window for each identity, counted by INCR.
pub mod Window
use gopher_agent_platform.Prelude.{
  ℕ, ◌+◌, ◌*◌, ◌/◌, ◌<◌, Bool, true, false, Option, none, some, List, [], ◌∷◌, ◌++◌, if◌then◌else◌,
  ltb, leb, ◌==◌,
}
use gopher_agent_platform.Errors.{
  Err, Sentinel, sentinel, client_invalid, limit_invalid, window_invalid, identity_invalid,
  unexpected_ttl,
}
use gopher_agent_platform.Exec.{Result, ok, err, Exec}
use gopher_agent_platform.Text.{Text, text, trim_space, is_empty}
use gopher_agent_platform.Redis.{Redis, counted, pttl_of, Pttl, missing, persistent, left}

-- `limit` is positive, and `window` is a `time.Duration`, in nanoseconds.
pub record RateLimiter : Type 0 where
  pub limit : ℕ
  pub window : ℕ
  pub prefix : Text
  pub hash_identity : Bool

abbrev pub millisecond : ℕ
millisecond = 1000000

-- newRateLimiter; `limit` and `window` are signed in Go, and a negative one is refused as 0 is.
unfoldable pub new_rate_limiter : Bool → ℕ → ℕ → Text → Result RateLimiter
new_rate_limiter has_client limit window prefix =
    if has_client
    then if limit == 0
      then err (sentinel limit_invalid)
      else if window == 0
      then err (sentinel window_invalid)
      else ok (record { limit = limit; window = window; prefix = prefix; hash_identity = false })
    else err (sentinel client_invalid)

-- newHashedRateLimiter
abbrev hashed : Result RateLimiter → Result RateLimiter
hashed (ok l) = ok (record l { hash_identity = true })
hashed (err e) = err e

unfoldable pub new_hashed_rate_limiter : Bool → ℕ → ℕ → Text → Result RateLimiter
new_hashed_rate_limiter has_client limit window prefix =
    hashed (new_rate_limiter has_client limit window prefix)

-- The answer of `Allow`: whether the request may go on, and the time until the window ends.
pub record Verdict : Type 0 where
  pub allowed : Bool
  pub retry_after : ℕ

-- `digest` is the hexadecimal SHA-256 of a text.
module _ (r : Redis) (digest : Text → Text) where
  -- allowScript: the count with this request, and what is left of the window.
  unfoldable pub allow_script : Text → ℕ → r.State → (ℕ × Pttl) × r.State
  allow_script key window s =
      let s1 = r.incr s key in
      let current = counted (r.entry s1 key) in
      let s2 = if current == 1 then r.pexpire s1 key window else s1 in
      ((current, pttl_of (r.entry s2 key)), s2)

  abbrev verdict : ℕ → ℕ → Pttl → Result Verdict
  verdict limit current missing = err (sentinel unexpected_ttl)
  verdict limit current persistent = err (sentinel unexpected_ttl)
  verdict limit current (left t) =
      ok (record { allowed = leb current limit; retry_after = t * millisecond })

  -- RateLimiter.allowKeySuffix, over a connection that works.
  unfoldable pub allow_key_suffix : RateLimiter → Text → Exec r.State Verdict
  allow_key_suffix l suffix s =
      let key = l.prefix ++ text ":" ++ suffix in
      let answer = allow_script key (l.window / millisecond) s in
      (verdict l.limit answer.0.0 answer.0.1, answer.1)

  -- RateLimiter.Allow
  unfoldable pub allow : RateLimiter → Text → Exec r.State Verdict
  allow l identity s =
      let trimmed = trim_space identity in
      if is_empty trimmed
      then (err (sentinel identity_invalid), s)
      else allow_key_suffix l (if l.hash_identity then digest trimmed else trimmed) s
