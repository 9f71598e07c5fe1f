-- ===== src/Database/Order.antt =====
-- ORDER BY, LIMIT and OFFSET: a sort by a strict order, and the pages of a list.
use gopher_agent_platform.Prelude.{
  ℕ, zero, suc, ◌+◌, ◌-◌, ◌*◌, ◌≡◌, refl, ap, ◌∙◌, sym, Bool, true, false, List, [], ◌∷◌, ◌++◌,
  if◌then◌else◌, length, take, drop, filter, All, arith, Bool-cases, inl, inr,
}

module _ {ℓ} {A : Type ℓ} where
  abbrev pub insert_by : (A → A → Bool) → A → List A → List A
  insert_by before x [] = x ∷ []
  insert_by before x (y ∷ ys) =
      let rest = insert_by before x ys in if before x y then x ∷ y ∷ ys else y ∷ rest

  -- ORDER BY
  unfoldable pub sort_by : (A → A → Bool) → List A → List A
  sort_by before [] = []
  sort_by before (x ∷ xs) = insert_by before x (sort_by before xs)

  -- No element comes before one that stands in front of it.
  abbrev pub IsSorted : (A → A → Bool) → List A → Type ℓ
  IsSorted before [] = Unit
  IsSorted before (x ∷ xs) = All (λ y. before y x ≡ false) xs × IsSorted before xs

-- A strict order with ties.
pub record IsWeakOrder {ℓ} {A : Type ℓ} (before : A → A → Bool) : Type ℓ where
  pub asym : (a b : A) → before a b ≡ true → before b a ≡ false
  pub trans : (a b c : A) → before b a ≡ false → before c b ≡ false → before c a ≡ false

module _ {ℓ} {A : Type ℓ} (before : A → A → Bool) (order : IsWeakOrder before) where
  insert_by-All {κ} :
      (P : A → Type κ) (x : A) (ys : List A) → P x → All P ys → All P (insert_by before x ys)
  insert_by-All P x [] h k = (h, tt)
  insert_by-All P x (y ∷ ys) h k = elim (Bool-cases (before x y)) [
    | inl p ↦ rw p (h, k)
    | inr p ↦ rw p (k.0, insert_by-All P x ys h k.1)
  ]

  All-trans :
      (a b : A) (ys : List A)
      → before b a ≡ false
      → All (λ y. before y b ≡ false) ys
      → All (λ y. before y a ≡ false) ys
  All-trans a b [] h k = tt
  All-trans a b (y ∷ ys) h k = (order.trans a b y h k.0, All-trans a b ys h k.1)

  insert_by-IsSorted :
      (x : A) (ys : List A) → IsSorted before ys → IsSorted before (insert_by before x ys)
  insert_by-IsSorted x [] h = (tt, tt)
  insert_by-IsSorted x (y ∷ ys) h = elim (Bool-cases (before x y)) [
    | inl p ↦ let q = order.asym x y p in rw p ((q, All-trans x y ys q h.0), h)
    | inr p ↦ rw p (insert_by-All (λ z. before z y ≡ false) x ys p h.0, insert_by-IsSorted x ys h.1)
  ]

  pub sort_by-IsSorted : (xs : List A) → IsSorted before (sort_by before xs)
  unfolding sort_by
  sort_by-IsSorted [] = tt
  sort_by-IsSorted (x ∷ xs) = insert_by-IsSorted x (sort_by before xs) (sort_by-IsSorted xs)

  insert_by_count :
      (p : A → Bool) (x : A) (ys : List A)
      → length (filter p (insert_by before x ys)) ≡ length (filter p (x ∷ ys))
  insert_by_count p x [] = refl
  insert_by_count p x (y ∷ ys) = elim (Bool-cases (before x y)) [
    | inl q ↦ rw q refl
    | inr q ↦ rw q (ground (arith, insert_by_count p x ys))
  ]

  -- A sort keeps every row as often as it was there.
  pub sort_by_count :
      (p : A → Bool) (xs : List A) → length (filter p (sort_by before xs)) ≡ length (filter p xs)
  unfolding sort_by
  sort_by_count p [] = refl
  sort_by_count p (x ∷ xs) =
      insert_by_count p x (sort_by before xs) ∙ ground (arith, sort_by_count p xs)

module _ {ℓ} {A : Type ℓ} where
  take_nil : (n : ℕ) → take {A = A} n [] ≡ []
  take_nil zero = refl
  take_nil (suc n) = refl

  pub take-add : (m n : ℕ) (xs : List A) → take (m + n) xs ≡ take m xs ++ take n (drop m xs)
  take-add zero n xs = ap (λ k. take k xs) (omega arith)
  take-add (suc m) n [] = take_nil (suc m + n) ∙ sym (take_nil n)
  take-add (suc m) n (x ∷ xs) =
      ap (λ k. take k (x ∷ xs)) {x = suc m + n} {y = suc (m + n)} (omega arith)
      ∙ ap (λ t. x ∷ t) (take-add m n xs)

  -- The page with the number `k`, from 1 on.
  abbrev pub page_of : ℕ → ℕ → List A → List A
  page_of size k xs = take size (drop ((k - 1) * size) xs)

  -- One more page extends what the pages before it hold.
  pub take-page_of :
      (size k : ℕ) (xs : List A)
      → take (k * size) xs ++ page_of size (suc k) xs ≡ take (suc k * size) xs
  take-page_of size k xs =
      ap (λ n. take (k * size) xs ++ take size (drop (n * size) xs)) {x = suc k - 1} {y = k}
        (omega arith)
      ∙ sym (take-add (k * size) size xs)
      ∙ ap (λ n. take n xs) (omega arith)
