-- ===== src/Examples/TokenRuns.antt =====
-- The theorem about tokens at a library that signs nothing.
use gopher_agent_platform.Prelude.{
  ℕ, ◌≡◌, ◌≤◌, ◌<◌, refl, subst, ◌&&◌, true, false, [], ◌∷◌, if◌then◌else◌, leb, ltb, arith,
}
use gopher_agent_platform.Errors.{opaque}
use gopher_agent_platform.Exec.{Result, ok, err}
use gopher_agent_platform.Text.{
  Text, text, trim_space, trim_left, trim_right, is_space, is_empty, drop_if_blank, decimal,
}
use gopher_agent_platform.Auth.{Claims, Jwt, TokenManager, issue, verify}
use gopher_agent_platform.Auth.Issued.{verify-issue}

abbrev written : Claims → Text
written c = b'x' ∷ c.issued_at ∷ c.expires_at ∷ c.subject

abbrev read : Text → ℕ → Text → Result Claims
read issuer now (x ∷ i ∷ e ∷ subject) =
    if leb i now && ltb now e
    then ok record { subject = subject; issuer = issuer; issued_at = i; expires_at = e }
    else err (opaque 1)
read issuer now (x ∷ i ∷ []) = err (opaque 1)
read issuer now (x ∷ []) = err (opaque 1)
read issuer now [] = err (opaque 1)

solid : (r : Text) → is_empty (drop_if_blank false b'x' r) ≡ false
solid [] = refl
solid (c ∷ r) = refl

written_solid : (c : Claims) → is_empty (trim_space (written c)) ≡ false
unfolding trim_space trim_left trim_right is_space
written_solid c = solid (trim_right (c.issued_at ∷ c.expires_at ∷ c.subject))

read-written :
    (c : Claims) (now : ℕ)
    → c.issued_at ≤ now
    → now < c.expires_at
    → read c.issuer now (written c) ≡ ok c
read-written c now i e =
    let p : (leb c.issued_at now && ltb now c.expires_at) ≡ true = ground arith in rw p refl

token_is : (c : Claims) (token : Text) → ok (written c) ≡ ok token → written c ≡ token
token_is c token h = cc

abbrev jwt : Jwt
jwt = record {
  sign = λ secret c. ok (written c);
  parse = λ secret issuer now token. read issuer now token;
  parse-sign = λ secret token c now h i e.
      subst (λ t. read c.issuer now t ≡ ok c) (token_is c token h) (read-written c now i e);
  token_not_blank = λ secret token c h.
      subst (λ t. is_empty (trim_space t) ≡ false) (token_is c token h) (written_solid c);
}

abbrev manager : TokenManager
manager = record { secret = text "secret"; issuer = text "gopherai"; ttl = 3600000000000 }

issued : issue jwt manager 5000000000 7 ≡ ok (b'x' ∷ 5 ∷ 3605 ∷ text "7")
unfolding issue decimal
issued = refl

verify-issue_example : verify jwt manager 3604000000000 (b'x' ∷ 5 ∷ 3605 ∷ text "7") ≡ ok 7
verify-issue_example =
    verify-issue jwt manager 7 5000000000 3604000000000 _ (omega arith) issued (omega arith)
      (omega arith)
