-- ===== src/Auth/Numbers.antt =====
-- A number that is printed is read back.
use gopher_agent_platform.Prelude.{
  ℕ, zero, suc, ◌+◌, ◌-◌, ◌*◌, ◌/◌, ◌%◌, ◌^◌, ◌<◌, ◌≡◌, refl, ap, ◌∙◌, true, false, Option, some,
  [], ◌∷◌, ◌++◌, arith, ltb, leb, inl, inr, Bool-cases,
}
use gopher_agent_platform.Text.{Text, is_empty, decimal, decimal_from}
use gopher_agent_platform.Http.Request.{parse_uint, digits_from, append_digit, digit}

digits_from-append :
    (n : Option ℕ) (s t : Text) → digits_from n (s ++ t) ≡ digits_from (digits_from n s) t
digits_from-append n [] t = refl
digits_from-append n (c ∷ s) t = digits_from-append (append_digit n (digit c)) s t

digit_back : (d : ℕ) → d < 10 → digit (b'0' + d) ≡ some d
digit_back d h =
    let e : b'0' + d - b'0' ≡ d = omega arith in
    let p : leb b'0' (b'0' + d) ≡ true = ground arith in
    let q : leb (b'0' + d) b'9' ≡ true = ground arith in rw (p, q, e) refl

digits_from-decimal_from :
    (fuel n : ℕ) → n < fuel → digits_from (some 0) (decimal_from fuel n) ≡ some n
digits_from-decimal_from zero n h = absurd (omega arith)
digits_from-decimal_from (suc fuel) n h = elim (Bool-cases (ltb n 10)) [
  | inl p ↦
      rw p
        (rw (digit_back n (ground arith)) (ap (λ k. some k) {x = 0 * 10 + n} {y = n} (omega arith)))
  | inr p ↦
      let rest = decimal_from fuel (n / 10) in
      let less : n / 10 < fuel = ground arith in
      let ih = digits_from-decimal_from fuel (n / 10) less in
      let last = (b'0' + n % 10) ∷ [] in
      let whole : n / 10 * 10 + n % 10 ≡ n = omega arith in
      rw p (
        digits_from-append (some 0) rest last
        ∙ rw (ih, digit_back (n % 10) (omega arith)) (ap (λ k. some k) whole))
]

is_empty-append : (s : Text) (c : ℕ) → is_empty (s ++ (c ∷ [])) ≡ false
is_empty-append [] c = refl
is_empty-append (d ∷ s) c = refl

is_empty-decimal : (n : ℕ) → is_empty (decimal n) ≡ false
unfolding decimal
is_empty-decimal n = elim (Bool-cases (ltb n 10)) [
  | inl p ↦ rw p refl
  | inr p ↦ rw p (is_empty-append (decimal_from n (n / 10)) (b'0' + n % 10))
]

digits_from-decimal : (n : ℕ) → digits_from (some 0) (decimal n) ≡ some n
unfolding decimal
digits_from-decimal n = digits_from-decimal_from (suc n) n (omega arith)

-- ParseUint reads what FormatUint prints, for every `uint64`.
pub parse_uint-decimal : (n : ℕ) → n < 2 ^ 64 → parse_uint (decimal n) ≡ some n
unfolding parse_uint
parse_uint-decimal n h =
    let p : ltb n (2 ^ 64) ≡ true = ground arith in
    rw (is_empty-decimal n, digits_from-decimal n, p) refl
