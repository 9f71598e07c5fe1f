-- ===== src/Rag/Sorting.antt =====
-- The order of the similarities, and what the stable sort of SearchSimilar does to a list of them.
use gopher_agent_platform.Prelude.{
  ℕ, suc, ◌≡◌, refl, ap, ◌∙◌, Bool, true, false, List, [], ◌∷◌, ◌++◌, length, arith, filter, All,
  All-split, Bool-cases, inl, inr,
}
use gopher_agent_platform.Rag.Retriever.{Floats, Scored, insert_stable, sort_stable}

-- What IEEE 754 says of `>`: it is never so both ways, and it orders what is not NaN. With NaN, which is
-- neither greater nor less than anything, in the middle, nothing follows.
pub record IsFloatOrder (floats : Floats) : Type 0 where
  pub is_nan : floats.F32 → Bool
  pub asym : (a b : floats.F32) → floats.greater a b ≡ true → floats.greater b a ≡ false
  pub trans :
      (a b c : floats.F32)
      → is_nan b ≡ false
      → floats.greater b a ≡ false
      → floats.greater c b ≡ false
      → floats.greater c a ≡ false

module _ (floats : Floats) (order : IsFloatOrder floats) where
  open floats use {F32, greater}

  abbrev pub IsNumber : Scored floats → Type 0
  IsNumber x = order.is_nan x.similarity ≡ false

  abbrev pub above : Scored floats → Scored floats → Bool
  above x y = greater x.similarity y.similarity

  -- No later one is more similar.
  abbrev pub IsRanked : List (Scored floats) → Type 0
  IsRanked [] = Unit
  IsRanked (x ∷ xs) = All (λ y. above y x ≡ false) xs × IsRanked xs

  insert_stable-All :
      (P : Scored floats → Type 0) (x : Scored floats) (ys : List (Scored floats))
      → P x
      → All P ys
      → All P (insert_stable floats x ys)
  insert_stable-All P x [] h k = (h, tt)
  insert_stable-All P x (y ∷ ys) h k = elim (Bool-cases (above y x)) [
    | inl p ↦ rw p (k.0, insert_stable-All P x ys h k.1)
    | inr p ↦ rw p (h, k)
  ]

  below_trans :
      (x y : Scored floats) (zs : List (Scored floats))
      → IsNumber y
      → above y x ≡ false
      → All (λ z. above z y ≡ false) zs
      → All (λ z. above z x ≡ false) zs
  below_trans x y [] n h k = tt
  below_trans x y (z ∷ zs) n h k =
      (order.trans x.similarity y.similarity z.similarity n h k.0, below_trans x y zs n h k.1)

  insert_stable-IsRanked :
      (x : Scored floats) (ys : List (Scored floats))
      → All IsNumber ys
      → IsRanked ys
      → IsRanked (insert_stable floats x ys)
  insert_stable-IsRanked x [] n h = (tt, tt)
  insert_stable-IsRanked x (y ∷ ys) n h = elim (Bool-cases (above y x)) [
    | inl p ↦ rw p (
      insert_stable-All (λ z. above z y ≡ false) x ys (order.asym y.similarity x.similarity p) h.0,
      insert_stable-IsRanked x ys n.1 h.1,
    )
    | inr p ↦ rw p ((p, below_trans x y ys n.0 p h.0), h)
  ]

  pub sort_stable-All :
      (P : Scored floats → Type 0) (xs : List (Scored floats))
      → All P xs
      → All P (sort_stable floats xs)
  unfolding sort_stable
  sort_stable-All P [] h = tt
  sort_stable-All P (x ∷ xs) h =
      insert_stable-All P x (sort_stable floats xs) h.0 (sort_stable-All P xs h.1)

  pub sort_stable-IsRanked :
      (xs : List (Scored floats)) → All IsNumber xs → IsRanked (sort_stable floats xs)
  unfolding sort_stable
  sort_stable-IsRanked [] n = tt
  sort_stable-IsRanked (x ∷ xs) n =
      insert_stable-IsRanked x _ (sort_stable-All IsNumber xs n.1) (sort_stable-IsRanked xs n.1)

  abbrev count : (Scored floats → Bool) → List (Scored floats) → ℕ
  count p xs = length (filter p xs)

  count-insert_stable :
      (p : Scored floats → Bool) (x : Scored floats) (ys : List (Scored floats))
      → count p (insert_stable floats x ys) ≡ count p (x ∷ ys)
  count-insert_stable p x [] = refl
  count-insert_stable p x (y ∷ ys) = elim (Bool-cases (above y x)) [
    | inl q ↦ rw q (ground (arith, count-insert_stable p x ys))
    | inr q ↦ rw q refl
  ]

  pub count-sort_stable :
      (p : Scored floats → Bool) (xs : List (Scored floats))
      → count p (sort_stable floats xs) ≡ count p xs
  unfolding sort_stable
  count-sort_stable p [] = refl
  count-sort_stable p (x ∷ xs) =
      count-insert_stable p x (sort_stable floats xs) ∙ ground (arith, count-sort_stable p xs)

  length-insert_stable :
      (x : Scored floats) (ys : List (Scored floats))
      → length (insert_stable floats x ys) ≡ suc (length ys)
  length-insert_stable x [] = refl
  length-insert_stable x (y ∷ ys) = ground (arith, length-insert_stable x ys)

  pub length-sort_stable : (xs : List (Scored floats)) → length (sort_stable floats xs) ≡ length xs
  unfolding sort_stable
  length-sort_stable [] = refl
  length-sort_stable (x ∷ xs) = length-insert_stable x _ ∙ ap (λ n. suc n) (length-sort_stable xs)

  -- A ranked list, cut in two.
  pub IsRanked-split :
      (xs ys : List (Scored floats))
      → IsRanked (xs ++ ys)
      → IsRanked xs × All (λ x. All (λ y. above y x ≡ false) ys) xs
  IsRanked-split [] ys h = (tt, tt)
  IsRanked-split (x ∷ xs) ys h =
      let r = IsRanked-split xs ys h.1 in
      let q = All-split (λ y. above y x ≡ false) xs ys h.0 in ((q.0, r.0), (q.1, r.1))
