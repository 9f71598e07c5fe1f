-- ===== src/Openai/Vectors.antt =====
-- The vectors of one batch: each text gets one, and none is empty.
use gopher_agent_platform.Prelude.{
  ℕ, zero, suc, ◌+◌, ◌<◌, ◌≤◌, ◌≡◌, ◌≢◌, refl, ap, subst, ◌∙◌, Bool, true, false, List, [], ◌∷◌,
  map, ◌==◌, length, set, get_elem?, arith, All, length-map, inl, inr, Bool-cases,
}
use gopher_agent_platform.Exec.{Result, ok, Result-cases}
use gopher_agent_platform.Text.{Text}
use gopher_agent_platform.Openai.Embedding.{
  Index, Datum, pos, negsuc, replicate, is_true, refused, position, fill, same_dimension,
  embed_batch, failed_embedding,
}

abbrev pub NonEmpty : {F : Type 0} → List F → Type 0
NonEmpty v = length v ≢ 0

-- What has been seen is filled.
abbrev Filled : {F : Type 0} → List (List F) → List Bool → Type 0
Filled [] [] = Unit
Filled [] (b ∷ bs) = true ≡ false
Filled (v ∷ vs) [] = true ≡ false
Filled (v ∷ vs) (true ∷ bs) = NonEmpty v × Filled vs bs
Filled (v ∷ vs) (false ∷ bs) = Filled vs bs

abbrev count : List Bool → ℕ
count [] = 0
count (true ∷ bs) = suc (count bs)
count (false ∷ bs) = count bs

count-bound : (bs : List Bool) → count bs ≤ length bs
count-bound [] = omega arith
count-bound (true ∷ bs) = omega (arith, count-bound bs)
count-bound (false ∷ bs) = omega (arith, count-bound bs)

module _ {D F : Type 0} (narrow : D → F) where
  set-Filled :
      (vs : List (List F)) (bs : List Bool) (i : ℕ) (v : List F)
      → NonEmpty v
      → Filled vs bs
      → Filled (set vs i v) (set bs i true)
  set-Filled [] [] i v n h = tt
  set-Filled [] (b ∷ bs) i v n h = absurd (cc h)
  set-Filled (w ∷ vs) [] i v n h = absurd (cc h)
  set-Filled (w ∷ vs) (true ∷ bs) zero v n h = (n, h.1)
  set-Filled (w ∷ vs) (false ∷ bs) zero v n h = (n, h)
  set-Filled (w ∷ vs) (true ∷ bs) (suc i) v n h = (h.0, set-Filled vs bs i v n h.1)
  set-Filled (w ∷ vs) (false ∷ bs) (suc i) v n h = set-Filled vs bs i v n h

  count-set :
      (bs : List Bool) (i : ℕ)
      → i < length bs
      → is_true (get_elem? bs i) ≡ false
      → (count (set bs i true) ≡ suc (count bs)) × (length (set bs i true) ≡ length bs)
  count-set [] i h k = absurd (omega arith)
  count-set (true ∷ bs) zero h k = cc
  count-set (false ∷ bs) zero h k = (refl, refl)
  count-set (true ∷ bs) (suc i) h k =
      let r = count-set bs i (omega arith) k in (ap (λ n. suc n) r.0, ap (λ n. suc n) r.1)
  count-set (false ∷ bs) (suc i) h k =
      let r = count-set bs i (omega arith) k in (r.0, ap (λ n. suc n) r.1)

  Filled-full :
      (vs : List (List F)) (bs : List Bool)
      → Filled vs bs
      → count bs ≡ length bs
      → All NonEmpty vs × (length vs ≡ length bs)
  Filled-full [] [] h c = (tt, refl)
  Filled-full [] (b ∷ bs) h c = absurd (cc h)
  Filled-full (v ∷ vs) [] h c = absurd (cc h)
  Filled-full (v ∷ vs) (true ∷ bs) h c =
      let r = Filled-full vs bs h.1 (omega arith) in ((h.0, r.0), ap (λ n. suc n) r.1)
  Filled-full (v ∷ vs) (false ∷ bs) h c = absurd (omega (arith, count-bound bs))

  free_place :
      (j : Index) (bs : List Bool)
      → refused narrow j bs ≡ false
      → (position narrow j < length bs) × (is_true (get_elem? bs (position narrow j)) ≡ false)
  free_place (pos i) bs p = (ground arith, ground arith)
  free_place (negsuc n) bs p = cc

  -- Where as many items come as there are places, and the loop succeeds, every place is filled.
  fill-full :
      (ds : List (Datum D)) (vs : List (List F)) (bs : List Bool) (out : List (List F))
      → Filled vs bs
      → count bs + length ds ≡ length bs
      → fill narrow ds vs bs ≡ ok out
      → All NonEmpty out × (length out ≡ length bs)
  unfolding fill
  fill-full [] vs bs out h c e =
      let same : vs ≡ out = cc in
      subst (λ t. All NonEmpty t × (length t ≡ length bs)) same (Filled-full vs bs h (omega arith))
  fill-full (d ∷ ds) vs bs out h c e = elim (Bool-cases (refused narrow d.index bs)) [
    | inl p ↦ let z = rw p at e in cc
    | inr p ↦ elim (Bool-cases (length d.embedding == 0)) [
      | inl q ↦ let z = rw (p, q) at e in cc
      | inr q ↦
          let free = free_place d.index bs p in
          let more = count-set bs (position narrow d.index) free.0 free.1 in
          let n : NonEmpty (map narrow d.embedding) =
            λ k. absurd (ground (arith, k, length-map narrow d.embedding)) in
          let r =
            fill-full ds _ _ out
              (set-Filled vs bs (position narrow d.index) (map narrow d.embedding) n h)
              (omega (arith, more.0, more.1)) (rw (p, q) at e) in
          (r.0, r.1 ∙ more.1)
    ]
  ]

  replicate-Filled :
      (n : ℕ)
      → Filled {F = F} (replicate n []) (replicate n false)
        × (count (replicate n false) ≡ 0)
        × (length (replicate n false) ≡ n)
  replicate-Filled zero = (tt, refl, refl)
  replicate-Filled (suc n) = let r = replicate-Filled n in (r.0, r.1, ap (λ k. suc k) r.2)

  module _ (create : List Text → Result (List (Datum D))) where
    pub embed_batch-NonEmpty :
        (input : List Text) (out : List (List F))
        → embed_batch narrow create input ≡ ok out
        → All NonEmpty out × (length out ≡ length input)
    unfolding embed_batch
    embed_batch-NonEmpty input out h = elim (Result-cases (failed_embedding (create input))) [
      | inr (e, p) ↦ let z = rw p at h in cc
      | inl (items, p) ↦ elim (Bool-cases (length input == length items)) [
        | inr q ↦ let z = rw (p, q) at h in cc
        | inl q ↦
            let n = length input in
            elim (Result-cases (fill narrow items (replicate n []) (replicate n false))) [
              | inr (e, r) ↦ let z = rw (p, q, r) at h in cc
              | inl (vs, r) ↦ elim (Result-cases (same_dimension narrow vs)) [
                | inr (e, t) ↦ let z = rw (p, q, r, t) at h in cc
                | inl (_, t) ↦
                    let z = rw (p, q, r, t) at h in
                    let same : vs ≡ out = cc in
                    let f = replicate-Filled n in
                    let c : count (replicate n false) + length items ≡ length (replicate n false) =
                      ground (arith, f.1, f.2, q) in
                    let k = fill-full items (replicate n []) (replicate n false) vs f.0 c r in
                    subst (λ x. All NonEmpty x × (length x ≡ n)) same (k.0, k.1 ∙ f.2)
              ]
            ]
      ]
    ]
