-- ===== src/Verification/Sending.antt =====
-- What a user meets who asks for a code: it is well formed, it is accepted, a second request within
-- the interval is refused, and a mail that was not sent leaves nothing behind.
use gopher_agent_platform.Prelude.{
  ℕ, suc, ◌-◌, ◌/◌, ◌%◌, ◌^◌, ◌<◌, ◌≤◌, ◌≡◌, ◌≢◌, refl, ◌∙◌, ap, true, false, none, some, [], ◌∷◌,
  ltb, leb, ◌==◌, arith, all, Bool-cases, inl, inr,
}
use gopher_agent_platform.Errors.{Err, sentinel, wrap, is, send_too_frequent, send_failed}
use gopher_agent_platform.Exec.{Result, ok, err}
use gopher_agent_platform.Text.{Text, text, trim_space, is_empty, byte_len, rune_len}
use gopher_agent_platform.Text.Laws.{text_eq_refl, trim_space-trim_space}
use gopher_agent_platform.Redis.{Entry, str}
use gopher_agent_platform.Verification.Store.{
  Platform, valid_email_key_input, valid_verification_code, is_digit, save, save_script,
  verify_and_consume, delete, delete_script, code_key, cooldown_key, attempts_key, millisecond,
  parsed_as,
}
use gopher_agent_platform.Verification.Tries.{stored_code, verify_right}
use gopher_agent_platform.Verification.Guesses.{keys_apart}
use gopher_agent_platform.Verification.Service.{
  Config, valid_code, digit, generate_numeric_code, normalize_email, send, verify,
}

digit_bounds : (n k : ℕ) → (is_digit (digit n k) ≡ true) × (rune_len (digit n k) ≡ 1)
digit_bounds n k = let m = n / 10 ^ k in let small : m % 10 < 10 = omega arith in ground arith

-- A code of generateNumericCode is well formed, for the service and for the store.
generated_lem :
    (n : ℕ)
    → (valid_code (generate_numeric_code n) ≡ true)
      × (valid_verification_code (generate_numeric_code n) ≡ true)
unfolding valid_code valid_verification_code generate_numeric_code byte_len
generated_lem n =
    let d = digit_bounds n in
    let bytes : byte_len (generate_numeric_code n) ≡ 6 =
      rw ((d 5).1, (d 4).1, (d 3).1, (d 2).1, (d 1).1, (d 0).1) refl in
    let digits : all is_digit (generate_numeric_code n) ≡ true =
      rw ((d 5).0, (d 4).0, (d 3).0, (d 2).0, (d 1).0, (d 0).0) refl in
    rw (bytes, digits) (refl, refl)

-- Documented behaviour of `strings.ToLower` and of `mail.ParseAddress`.
pub record IsStandard (p : Platform) : Type 0 where
  pub lower_twice : (t : Text) → p.to_lower (p.to_lower t) ≡ p.to_lower t
  pub lower-trimmed : (t : Text) → trim_space t ≡ t → trim_space (p.to_lower t) ≡ p.to_lower t
  pub no_empty_address : p.parse_address [] ≡ none

module _ (p : Platform) (standard : IsStandard p) where
  parsed_ne_nil : (v : Text) → parsed_as (p.parse_address v) v ≡ true → is_empty v ≡ false
  parsed_ne_nil [] h = let z = rw standard.no_empty_address at h in cc
  parsed_ne_nil (c ∷ s) h = refl

  -- An address that the service has normalized is one that the store takes.
  normalized_lem :
      (value email : Text)
      → normalize_email p value ≡ ok email
      → valid_email_key_input p email ≡ true
  unfolding normalize_email valid_email_key_input
  normalized_lem value email h =
      let v = p.to_lower (trim_space value) in
      let lower = standard.lower_twice (trim_space value) in
      let trim = standard.lower-trimmed (trim_space value) (trim_space-trim_space value) in
      elim (Bool-cases (parsed_as (p.parse_address v) v)) [
        | inr q ↦ let z = rw q at h in cc
        | inl q ↦ elim (Bool-cases (ltb 254 (byte_len v))) [
          | inl l ↦ let z = rw (q, l) at h in cc
          | inr l ↦
              let same : v ≡ email = ground (arith, h, q, l) in
              let some_rune = parsed_ne_nil v q in
              let short : leb (byte_len v) 254 ≡ true = ground arith in
              rw (← same) (rw (trim, lower, q, text_eq_refl v, some_rune, short) refl)
        ]
      ]

-- A configuration whose times are milliseconds at least.
pub record IsUsable (c : Config) : Type 0 where
  pub interval : millisecond ≤ c.resend_interval
  pub longer : c.resend_interval ≤ c.code_ttl
  pub attempts : c.max_attempts ≢ 0

-- A request for a code to the address `email`, as the user writes it, while the context lasts.
module _ (p : Platform) (standard : IsStandard p) (c : Config) (usable : IsUsable c)
    (value email : Text) (normal : normalize_email p value ≡ ok email) (n : ℕ)
    (sender : Text → Text → Result (Unit {0})) where
  open p use {redis}

  abbrev code : Text
  code = generate_numeric_code n

  abbrev life : ℕ
  life = c.code_ttl / millisecond

  abbrev pause : ℕ
  pause = c.resend_interval / millisecond

  abbrev saved : redis.State → redis.State
  saved s =
      redis.del
        (redis.set_px (redis.set_px s (code_key p email) code life) (cooldown_key p email)
          (text "1") pause)
        (attempts_key p email)

  life_pos : 0 < life
  life_pos = let a = usable.interval in let b = usable.longer in omega arith

  pause_pos : 0 < pause
  pause_pos = let a = usable.interval in omega arith

  save_first :
      (s : redis.State)
      → redis.entry s (cooldown_key p email) ≡ none
      → save p email code c.code_ttl c.resend_interval s ≡ (ok tt, saved s)
  unfolding save save_script
  save_first s e =
      let a = usable.interval in
      let b = usable.longer in
      let v = normalized_lem p standard value email normal in
      let t : ltb c.code_ttl millisecond ≡ false = ground arith in
      let u : ltb c.resend_interval millisecond ≡ false = ground arith in
      let w : ltb c.code_ttl c.resend_interval ≡ false = ground arith in
      rw (v, (generated_lem n).1, t, u, w, e) refl

  saved-code : (s : redis.State) → redis.entry (saved s) (code_key p email) ≡ stored_code code life
  saved-code s =
      redis.entry-del _ (attempts_key p email) (code_key p email)
      ∙ redis.entry-set_px _ (cooldown_key p email) (text "1") pause (code_key p email) pause_pos
      ∙ rw (redis.entry-set_px s (code_key p email) code life (code_key p email) life_pos)
          (rw (text_eq_refl (code_key p email)) refl)

  saved_cooldown :
      (s : redis.State)
      → redis.entry (saved s) (cooldown_key p email)
        ≡ some (record { value = str (text "1"); ttl = some pause })
  saved_cooldown s =
      redis.entry-del _ (attempts_key p email) (cooldown_key p email)
      ∙ rw
          (redis.entry-set_px _ (cooldown_key p email) (text "1") pause (cooldown_key p email)
            pause_pos)
          (rw (text_eq_refl (cooldown_key p email)) refl)

  send_first :
      (s : redis.State)
      → redis.entry s (cooldown_key p email) ≡ none
      → sender email code ≡ ok tt
      → send p (some c) sender none (ok n) value s ≡ (ok tt, saved s)
  unfolding send
  send_first s e m = rw (normal, (generated_lem n).0, save_first s e, m) refl

  live_code :
      (s : redis.State)
      → redis.entry (saved s) (code_key p email) ≡ stored_code code (suc (life - 1))
  live_code s =
      let positive = life_pos in
      let q : life ≡ suc (life - 1) = omega arith in saved-code s ∙ ap (stored_code code) q

  -- A code that was sent is accepted: when the first request for an address goes through, the owner
  -- of the mail box verifies the address with the code of the mail, with any spaces around it.
  pub verify-send :
      (typed : Text) (s : redis.State)
      → redis.entry s (cooldown_key p email) ≡ none
      → sender email code ≡ ok tt
      → trim_space typed ≡ code
      → let sent = send p (some c) sender none (ok n) value s in
        (sent.0 ≡ ok tt) × ((verify p (some c) none value typed sent.1).0 ≡ ok tt)
  unfolding verify verify_and_consume
  verify-send typed s e m t =
      let v = normalized_lem p standard value email normal in
      let a : (c.max_attempts == 0) ≡ false = ground (arith, usable.attempts) in
      let right =
        verify_right p (code_key p email) (attempts_key p email) (keys_apart p email) code
          (life - 1) c.max_attempts (saved s) (live_code s) in
      rw (send_first s e m) (
        refl,
        rw (normal, t, (generated_lem n).0) (rw (v, (generated_lem n).1, a) (rw (right.0) refl)),
      )

  save_again :
      (k : ℕ) (s : redis.State) (x : Entry)
      → redis.entry s (cooldown_key p email) ≡ some x
      → save p email (generate_numeric_code k) c.code_ttl c.resend_interval s
        ≡ (err (sentinel send_too_frequent), s)
  unfolding save save_script
  save_again k s x e =
      let a = usable.interval in
      let b = usable.longer in
      let v = normalized_lem p standard value email normal in
      let t : ltb c.code_ttl millisecond ≡ false = ground arith in
      let u : ltb c.resend_interval millisecond ≡ false = ground arith in
      let w : ltb c.code_ttl c.resend_interval ≡ false = ground arith in
      rw (v, (generated_lem k).1, t, u, w, e) refl

  send_again :
      (k : ℕ) (s : redis.State) (x : Entry)
      → redis.entry s (cooldown_key p email) ≡ some x
      → send p (some c) sender none (ok k) value s ≡ (err (sentinel send_too_frequent), s)
  unfolding send is
  send_again k s x e = rw (normal, (generated_lem k).0, save_again k s x e) refl

  -- A second request within the interval is refused as too frequent, and changes nothing: the code
  -- of the first mail stays good.
  pub send-send :
      (k d : ℕ) (s : redis.State)
      → redis.entry s (cooldown_key p email) ≡ none
      → sender email code ≡ ok tt
      → d < c.resend_interval / millisecond
      → let later = redis.elapse (send p (some c) sender none (ok n) value s).1 d in
        send p (some c) sender none (ok k) value later ≡ (err (sentinel send_too_frequent), later)
  send-send k d s e m h =
      let q : ltb d pause ≡ true = ground arith in
      let x : Entry = record { value = str (text "1"); ttl = some (pause - d) } in
      let waiting : redis.entry (redis.elapse (saved s) d) (cooldown_key p email) ≡ some x =
        redis.entry-elapse (saved s) d (cooldown_key p email) ∙ rw (saved_cooldown s, q) refl in
      rw (send_first s e m) (send_again k (redis.elapse (saved s) d) x waiting)

  abbrev cleaned : redis.State → redis.State
  cleaned s =
      redis.del (redis.del (redis.del (saved s) (code_key p email)) (cooldown_key p email))
        (attempts_key p email)

  delete-saved : (s : redis.State) → delete p email code (saved s) ≡ (ok tt, cleaned s)
  unfolding delete delete_script
  delete-saved s =
      let v = normalized_lem p standard value email normal in
      rw (v, (generated_lem n).1, saved-code s) (rw (text_eq_refl code) refl)

  -- Where the mail server refuses, its error comes back, and neither the code nor the interval nor a
  -- count is left, so that the user can ask again at once.
  pub send_compensated :
      (s : redis.State) (refusal : Err)
      → redis.entry s (cooldown_key p email) ≡ none
      → sender email code ≡ err refusal
      → let sent = send p (some c) sender none (ok n) value s in
        (sent.0 ≡ err (wrap send_failed refusal))
        × (redis.entry sent.1 (code_key p email) ≡ none)
        × (redis.entry sent.1 (cooldown_key p email) ≡ none)
        × (redis.entry sent.1 (attempts_key p email) ≡ none)
  unfolding send
  send_compensated s refusal e m =
      rw (normal, (generated_lem n).0, save_first s e, m)
        (rw (delete-saved s) (
          refl,
          redis.entry-del _ _ _
              ∙ redis.entry-del _ _ _
              ∙ rw (redis.entry-del (saved s) (code_key p email) (code_key p email))
                  (rw (text_eq_refl (code_key p email)) refl),
          redis.entry-del _ _ _
              ∙ rw
                  (redis.entry-del (redis.del (saved s) (code_key p email)) (cooldown_key p email)
                    (cooldown_key p email))
                  (rw (text_eq_refl (cooldown_key p email)) refl),
          rw
              (redis.entry-del
                (redis.del (redis.del (saved s) (code_key p email)) (cooldown_key p email))
                (attempts_key p email) (attempts_key p email))
              (rw (text_eq_refl (attempts_key p email)) refl),
        ))
