-- ===== src/Exec.antt =====
-- Go functions that return `(value, error)` and change a state: what was written before an error
-- stays written, so the state comes back beside the error too.
use gopher_agent_platform.Prelude.{◌≡◌, refl, ◌⊎◌, inl, inr, Bool, true, false}
use gopher_agent_platform.Errors.{Err, join, sentinel, Sentinel}

pub data Result {ℓ} (A : Type ℓ) : Type ℓ where
  ok : A → Result A
  err : Err → Result A

abbrev pub is_ok {ℓ} : {A : Type ℓ} → Result A → Bool
is_ok (ok a) = true
is_ok (err e) = false

abbrev pub Exec {ℓ κ} : Type ℓ → Type κ → Type (ℓ ⊔ κ)
Exec S A = S → Result A × S

module _ {ℓ κ} {S : Type ℓ} {A : Type κ} where
  abbrev pub pure : A → Exec S A
  pure a s = (ok a, s)

  abbrev pub raise : Err → Exec S A
  raise e s = (err e, s)

  abbrev pub fail : Sentinel → Exec S A
  fail t s = (err (sentinel t), s)

  abbrev pub lift : Result A → Exec S A
  lift r s = (r, s)

  -- `v, err := m()`, with the error kept as a value for the caller to look at.
  abbrev pub attempt : Exec S A → Exec S (Result A)
  attempt m s = (ok (m s).0, (m s).1)

module _ {ℓ κ μ} {S : Type ℓ} {A : Type κ} {B : Type μ} where
  abbrev pub continue : Result A → (A → Exec S B) → Exec S B
  continue (ok a) f s = f a s
  continue (err e) f s = (err e, s)

  infixl 10 ◌>>=◌ ◌>>◌
  abbrev pub ◌>>=◌ : Exec S A → (A → Exec S B) → Exec S B
  ◌>>=◌ m f s = continue (m s).0 f (m s).1

  abbrev pub ◌>>◌ : Exec S A → Exec S B → Exec S B
  m >> n = m >>= λ _. n

-- `if test { return err }` at the head of a function.
module _ {ℓ} {S : Type ℓ} where
  abbrev pub reject_if : Bool → Sentinel → Exec S (Unit {0})
  reject_if true t s = (err (sentinel t), s)
  reject_if false t s = (ok tt, s)

-- `errors.Join(cause, err)`, where the first is not nil.
abbrev pub join_result {ℓ} : {A : Type ℓ} → Err → Result A → Err
join_result e (ok a) = e
join_result e (err f) = join e f

pub Result-cases {ℓ} :
    {A : Type ℓ} (r : Result A) → ((a : A) × (r ≡ ok a)) ⊎ ((e : Err) × (r ≡ err e))
Result-cases (ok a) = inl (a, refl)
Result-cases (err e) = inr (e, refl)
