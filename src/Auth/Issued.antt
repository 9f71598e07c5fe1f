-- ===== src/Auth/Issued.antt =====
-- A token that is issued names its user until it expires.
use gopher_agent_platform.Prelude.{
  ℕ, ◌+◌, ◌/◌, ◌^◌, ◌<◌, ◌≤◌, ◌≡◌, refl, ◌==◌, arith, inl, inr, Bool-cases, ap, ◌∙◌,
}
use gopher_agent_platform.Exec.{ok, Result-cases}
use gopher_agent_platform.Text.{Text}
use gopher_agent_platform.Auth.{TokenManager, Jwt, second, claims_of, issue, verify}
use gopher_agent_platform.Auth.Numbers.{parse_uint-decimal}

-- A token that Issue makes for a user is verified as that user's, at any time from then on that is
-- before its expiry in whole seconds.
pub verify-issue :
    (jwt : Jwt) (manager : TokenManager) (user_id issued now : ℕ) (token : Text)
    → user_id < 2 ^ 64
    → issue jwt manager issued user_id ≡ ok token
    → issued ≤ now
    → now / second < (issued + manager.ttl) / second
    → verify jwt manager now token ≡ ok user_id
unfolding verify issue
verify-issue jwt manager user_id issued now token l h s e = elim (Bool-cases (user_id == 0)) [
  | inl z ↦ let q = rw z at h in cc
  | inr z ↦ elim (Result-cases (jwt.sign manager.secret (claims_of jwt manager issued user_id))) [
    | inr (f, p) ↦ let q = rw (z, p) at h in cc
    | inl (made, p) ↦
        let q = rw (z, p) at h in
        let same : made ≡ token = cc in
        let signed = p ∙ ap (λ t. ok t) same in
        let claims = claims_of jwt manager issued user_id in
        let blank = jwt.token_not_blank manager.secret token claims signed in
        let parsed =
          jwt.parse-sign manager.secret token claims (now / second) signed (omega arith) e in
        rw (blank, parsed, parse_uint-decimal user_id l, z) refl
  ]
]
