-- ===== src/Limits/Window.antt =====
-- What a limiter promises over one window.
use gopher_agent_platform.Prelude.{
  ℕ, suc, ◌+◌, ◌-◌, ◌/◌, ◌<◌, ◌≡◌, refl, min, Bool, true, false, Option, none, some, List, [], ◌∷◌,
  ◌++◌, if◌then◌else◌, ltb, leb, ◌==◌, arith, length,
}
use gopher_agent_platform.Errors.{sentinel, unexpected_ttl}
use gopher_agent_platform.Exec.{Result, ok, err}
use gopher_agent_platform.Text.{Text, text}
use gopher_agent_platform.Text.Laws.{text_eq_refl}
use gopher_agent_platform.Redis.{Redis, Entry, num, counted, with_ttl, ttl_of, left, missing}
use gopher_agent_platform.Limits.{
  RateLimiter, Verdict, millisecond, new_rate_limiter, allow_script, allow_key_suffix,
}

abbrev pub was_allowed : Result Verdict → Bool
was_allowed (ok v) = v.allowed
was_allowed (err e) = false

abbrev pub sum : List ℕ → ℕ
sum [] = 0
sum (d ∷ ds) = d + sum ds

abbrev pub granted : List Bool → ℕ
granted [] = 0
granted (b ∷ bs) = let rest = granted bs in if b then suc rest else rest

abbrev pub window_key : RateLimiter → Text → Text
window_key l suffix = l.prefix ++ text ":" ++ suffix

-- A window that is open, with `n` requests counted and `t` milliseconds left.
abbrev pub open_window : ℕ → ℕ → Option Entry
open_window n t = some (record { value = num n; ttl = some t })

-- The script on one key.
module _ (r : Redis) (digest : Text → Text) (key : Text) (window : ℕ) (s : r.State) where
  incremented :
      (e : Option Entry)
      → r.entry s key ≡ e
      → r.entry (r.incr s key) key ≡ some (record { value = num (counted e + 1); ttl = ttl_of e })
  incremented e p = rw (r.entry-incr s key key, text_eq_refl key, p)

  expired :
      (e : Option Entry)
      → r.entry s key ≡ e
      → r.entry (r.pexpire s key window) key ≡ with_ttl window e
  expired e p = rw (r.entry-pexpire s key window key, text_eq_refl key, p)

module _ (r : Redis) (digest : Text → Text) (key : Text) (s : r.State) where
  opening :
      (window : ℕ)
      → r.entry s key ≡ none
      → r.entry (r.pexpire (r.incr s key) key window) key
        ≡ with_ttl window (some (record { value = num 1; ttl = none }))
  opening window e =
      expired r digest key window (r.incr s key) _ (incremented r digest key window s none e)

  script_first :
      (window : ℕ)
      → r.entry s key ≡ none
      → ((allow_script r digest key (suc window) s).0 ≡ (1, left (suc window)))
        × (r.entry (allow_script r digest key (suc window) s).1 key ≡ open_window 1 (suc window))
  unfolding allow_script
  script_first window e =
      rw (incremented r digest key window s none e) (rw (opening (suc window) e) (refl, refl))

  -- A window of 0 milliseconds deletes the key that the script has just made.
  script_zero :
      r.entry s key ≡ none
      → ((allow_script r digest key 0 s).0 ≡ (1, missing))
        × (r.entry (allow_script r digest key 0 s).1 key ≡ none)
  unfolding allow_script
  script_zero e = rw (incremented r digest key 0 s none e) (rw (opening 0 e) (refl, refl))

  script_later :
      (window n t : ℕ)
      → r.entry s key ≡ open_window (suc n) t
      → ((allow_script r digest key window s).0 ≡ (suc n + 1, left t))
        × (r.entry (allow_script r digest key window s).1 key ≡ open_window (suc n + 1) t)
  unfolding allow_script
  script_later window n t e =
      let q : (suc n + 1 == 1) ≡ false = ground arith in
      let c = incremented r digest key window s _ e in rw (c, q) (rw c (refl, refl))

module _ (r : Redis) (digest : Text → Text) (l : RateLimiter) (suffix : Text) where
  abbrev milliseconds : ℕ
  milliseconds = l.window / millisecond

  -- The requests of one identity, each after a delay in milliseconds.
  unfoldable pub requests : List ℕ → r.State → List Bool
  requests [] s = []
  requests (d ∷ ds) s =
      let answer = allow_key_suffix r digest l suffix (r.elapse s d) in
      was_allowed answer.0 ∷ requests ds answer.1

  -- The first request opens the window.
  first_request :
      (s : r.State) (w : ℕ)
      → milliseconds ≡ suc w
      → r.entry s (window_key l suffix) ≡ none
      → let answer = allow_key_suffix r digest l suffix s in
        (was_allowed answer.0 ≡ leb 1 l.limit)
        × (r.entry answer.1 (window_key l suffix) ≡ open_window 1 (suc w))
  unfolding allow_key_suffix
  first_request s w m e =
      let c = script_first r digest (window_key l suffix) s w e in rw m (rw (c.0) (refl, c.1))

  -- A later request is counted, and leaves the end of the window where it is.
  later_request :
      (s : r.State) (n t : ℕ)
      → r.entry s (window_key l suffix) ≡ open_window (suc n) t
      → let answer = allow_key_suffix r digest l suffix s in
        (was_allowed answer.0 ≡ leb (suc n + 1) l.limit)
        × (r.entry answer.1 (window_key l suffix) ≡ open_window (suc n + 1) t)
  unfolding allow_key_suffix
  later_request s n t e =
      let c = script_later r digest (window_key l suffix) s milliseconds n t e in
      rw (c.0) (refl, c.1)

  elapsed :
      (s : r.State) (n t d : ℕ)
      → r.entry s (window_key l suffix) ≡ open_window n t
      → d < t
      → r.entry (r.elapse s d) (window_key l suffix) ≡ open_window n (t - d)
  elapsed s n t d e h =
      let p : ltb d t ≡ true = ground arith in rw (r.entry-elapse s d (window_key l suffix), e, p)

  requests_open :
      (ds : List ℕ) (s : r.State) (n t : ℕ)
      → r.entry s (window_key l suffix) ≡ open_window (suc n) t
      → sum ds < t
      → granted (requests ds s) ≡ min (length ds) (l.limit - suc n)
  unfolding requests
  requests_open [] s n t e h = omega arith
  requests_open (d ∷ ds) s n t e h =
      let c = later_request (r.elapse s d) n (t - d) (elapsed s (suc n) t d e (omega arith)) in
      let after = (allow_key_suffix r digest l suffix (r.elapse s d)).1 in
      let q : suc n + 1 ≡ suc (suc n) = omega arith in
      let ih = requests_open ds after (suc n) (t - d) (rw (← q) (c.1)) (omega arith) in
      rw (c.0) (ground (arith, ih))

  -- Of the requests of one identity that come while the window of the first is open, exactly the
  -- first `limit` are allowed, however they are spaced.
  pub granted-requests :
      (d : ℕ) (ds : List ℕ) (s : r.State)
      → r.entry s (window_key l suffix) ≡ none
      → sum ds < milliseconds
      → granted (requests (d ∷ ds) s) ≡ min (length (d ∷ ds)) l.limit
  unfolding requests
  granted-requests d ds s e h =
      let m : milliseconds ≡ suc (milliseconds - 1) = omega arith in
      let a : r.entry (r.elapse s d) (window_key l suffix) ≡ none =
        rw (r.entry-elapse s d (window_key l suffix), e) refl in
      let c = first_request (r.elapse s d) (milliseconds - 1) m a in
      let after = (allow_key_suffix r digest l suffix (r.elapse s d)).1 in
      let ih = requests_open ds after 0 (suc (milliseconds - 1)) (c.1) (omega arith) in
      rw (c.0) (ground (arith, ih))

  short_window :
      (s : r.State)
      → l.window < millisecond
      → r.entry s (window_key l suffix) ≡ none
      → let answer = allow_key_suffix r digest l suffix s in
        (answer.0 ≡ err (sentinel unexpected_ttl)) × (r.entry answer.1 (window_key l suffix) ≡ none)
  unfolding allow_key_suffix
  short_window s h e =
      let m : milliseconds ≡ 0 = omega arith in
      let c = script_zero r digest (window_key l suffix) s e in rw m (rw (c.0) (refl, c.1))

  made_window :
      (limit window : ℕ) → new_rate_limiter true limit window l.prefix ≡ ok l → l.window ≡ window
  unfolding new_rate_limiter
  made_window limit window h = ground arith

  -- A limiter that newRateLimiter makes with a window shorter than a millisecond answers a request
  -- of an identity that has no open window with an error, and leaves that identity without one, so
  -- that the next request finds the same.
  pub short_window_fails :
      (limit window : ℕ) (s : r.State)
      → new_rate_limiter true limit window l.prefix ≡ ok l
      → window < millisecond
      → r.entry s (window_key l suffix) ≡ none
      → let answer = allow_key_suffix r digest l suffix s in
        (answer.0 ≡ err (sentinel unexpected_ttl)) × (r.entry answer.1 (window_key l suffix) ≡ none)
  short_window_fails limit window s made h e =
      short_window s (omega (arith, made_window limit window made)) e
