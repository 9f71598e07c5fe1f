-- ===== src/Http/Limited.antt =====
-- How many requests of one identity reach a handler behind the limiter.
use gopher_agent_platform.Prelude.{
  ℕ, suc, ◌+◌, ◌<◌, ◌/◌, ◌≡◌, refl, ◌∙◌, min, false, none, some, List, [], ◌∷◌, length, arith,
  if◌then◌else◌, inl, inr, Bool-cases,
}
use gopher_agent_platform.Exec.{Result-cases}
use gopher_agent_platform.Text.{Text, trim_space, is_empty}
use gopher_agent_platform.Redis.{Redis}
use gopher_agent_platform.Limits.{RateLimiter, millisecond, allow, allow_key_suffix}
use gopher_agent_platform.Limits.Window.{requests, granted, sum, window_key, granted-requests}
use gopher_agent_platform.Http.Request.{Answer, answered, nothing}
use gopher_agent_platform.Http.Router.{enforce_rate_limit}

-- A handler that counts its runs.
abbrev pub counting : ℕ → Answer × ℕ
counting n = (answered 202 nothing, suc n)

module _ (r : Redis) (digest : Text → Text) (l : RateLimiter) (identity : Text) where
  -- Requests of one identity, each so many milliseconds after the one before; the number of runs.
  unfoldable pub runs : List ℕ → r.State × ℕ → ℕ
  unfolding enforce_rate_limit allow
  runs [] s = s.1
  runs (d ∷ ds) s =
      runs ds
        (enforce_rate_limit (some (allow r digest l)) identity counting (r.elapse s.0 d, s.1)).1

  -- Under which key the limiter counts.
  abbrev pub suffix : Text
  suffix = if l.hash_identity then digest (trim_space identity) else trim_space identity

  allow-suffix :
      (s : r.State)
      → is_empty (trim_space identity) ≡ false
      → allow r digest l identity s ≡ allow_key_suffix r digest l suffix s
  unfolding allow
  allow-suffix s h = rw h refl

  runs-granted :
      (ds : List ℕ) (s : r.State) (n : ℕ)
      → is_empty (trim_space identity) ≡ false
      → runs ds (s, n) ≡ n + granted (requests r digest l suffix ds s)
  unfolding runs requests enforce_rate_limit
  runs-granted [] s n h = omega arith
  runs-granted (d ∷ ds) s n h =
      let t = r.elapse s d in
      let a = allow_key_suffix r digest l suffix t in
      elim (Result-cases a.0) [
        | inr (e, p) ↦ rw (allow-suffix t h, p) (runs-granted ds a.1 n h)
        | inl (v, p) ↦ elim (Bool-cases v.allowed) [
          | inl q ↦ rw (allow-suffix t h, p, q) (omega (arith, runs-granted ds a.1 (suc n) h))
          | inr q ↦ rw (allow-suffix t h, p, q) (runs-granted ds a.1 n h)
        ]
      ]

  -- Of the requests of one identity that come while the window of the first is open, as many reach
  -- the handler as there are, or as the limit allows, however they are spaced.
  pub runs_limited :
      (d : ℕ) (ds : List ℕ) (s : r.State)
      → is_empty (trim_space identity) ≡ false
      → r.entry s (window_key l suffix) ≡ none
      → sum ds < l.window / millisecond
      → runs (d ∷ ds) (s, 0) ≡ min (length (d ∷ ds)) l.limit
  runs_limited d ds s h e o =
      runs-granted (d ∷ ds) s 0 h ∙ omega (arith, granted-requests r digest l suffix d ds s e o)
