-- ===== src/Rag/Coverage.antt =====
-- The chunks of a document give the document back, and each fits the size.
use gopher_agent_platform.Prelude.{
  ℕ, zero, suc, ◌+◌, ◌-◌, ◌<◌, ◌≤◌, ◌≡◌, refl, ap, ap₂, sym, ◌∙◌, ◌==◌, List, [], ◌∷◌, ◌++◌, ltb,
  length, take, drop, min, arith, true, false, Bool-cases, inl, inr, append-nil, take-append-drop,
  drop-drop, take_all, length-take, length-drop, All,
}
use gopher_agent_platform.Text.{Text}
use gopher_agent_platform.Rag.Chunker.{Chunk, chunk_size, overlap, slice, split_from, split_text}

-- The text of the chunks, each without the runes that it shares with the one before.
abbrev pub tails : {F : Type 0} → ℕ → List (Chunk F) → Text
tails shared [] = []
tails shared (c ∷ cs) = drop shared c.content ++ tails shared cs

abbrev pub reassemble : {F : Type 0} → ℕ → List (Chunk F) → Text
reassemble shared [] = []
reassemble shared (c ∷ cs) = c.content ++ tails shared cs

drop-take-append : (m n : ℕ) (xs : Text) → m ≤ n → drop m (take n xs) ++ drop n xs ≡ drop m xs
drop-take-append zero n xs h = take-append-drop n xs
drop-take-append (suc m) zero xs h = absurd (omega arith)
drop-take-append (suc m) (suc n) [] h = refl
drop-take-append (suc m) (suc n) (x ∷ xs) h = drop-take-append m n xs (omega arith)

slice_to_end : (runes : Text) (start : ℕ) → slice runes start (length runes) ≡ drop start runes
slice_to_end runes start =
    take_all (length runes - start) (drop start runes) (omega (arith, length-drop start runes))

-- The content of a chunk that reaches the end, and of one that does not.
last_content :
    (size start : ℕ) (runes : Text)
    → (length runes == min (length runes) (start + size)) ≡ true
    → slice runes start (min (length runes) (start + size)) ≡ drop start runes
last_content size start runes e =
    let q : min (length runes) (start + size) ≡ length runes = ground arith in
    rw q (slice_to_end runes start)

full_content :
    (size start : ℕ) (runes : Text)
    → (length runes == min (length runes) (start + size)) ≡ false
    → slice runes start (min (length runes) (start + size)) ≡ take size (drop start runes)
full_content size start runes e =
    let q : min (length runes) (start + size) - start ≡ size = ground arith in
    ap (λ n. take n (drop start runes)) q

module _ (F : Type 0) (size shared : ℕ) (less : shared < size) where
  -- From a chunk on, the tails are the runes behind the part that it shares.
  tails-split_from :
      (fuel : ℕ) (runes : Text) (start index : ℕ)
      → length runes < fuel + start
      → start < length runes
      → start + shared ≤ length runes
      → tails shared (split_from {F = F} size shared fuel runes start index)
        ≡ drop (start + shared) runes
  unfolding split_from
  tails-split_from zero runes start index f s l = absurd (omega arith)
  tails-split_from (suc fuel) runes start index f s l =
      let p : ltb start (length runes) ≡ true = ground arith in
      elim (Bool-cases (length runes == min (length runes) (start + size))) [
        | inl e ↦
            rw (p, e)
              (append-nil _
                ∙ ap (drop shared) (last_content size start runes e)
                ∙ drop-drop shared start runes)
        | inr e ↦
            let q : start + (size - shared) + shared ≡ start + size = omega arith in
            rw (p, e)
              (ap₂ (λ a b. drop shared a ++ b) (full_content size start runes e)
                  (tails-split_from fuel runes (start + (size - shared)) (index + 1) (omega arith)
                      (ground arith) (ground arith)
                    ∙ ap (λ k. drop k runes) q
                    ∙ sym (drop-drop size start runes))
                ∙ drop-take-append shared size (drop start runes) (omega arith)
                ∙ drop-drop shared start runes)
      ]

  -- The chunks, without their overlaps, are the text.
  pub reassemble-split_from :
      (fuel : ℕ) (runes : Text) (index : ℕ)
      → length runes < fuel
      → reassemble shared (split_from {F = F} size shared fuel runes 0 index) ≡ runes
  unfolding split_from
  reassemble-split_from zero runes index f = absurd (omega arith)
  reassemble-split_from (suc fuel) [] index f = refl
  reassemble-split_from (suc fuel) (c ∷ s) index f =
      let runes = c ∷ s in
      let p : ltb 0 (length runes) ≡ true = ground arith in
      elim (Bool-cases (length runes == min (length runes) (0 + size))) [
        | inl e ↦ rw (p, e) (append-nil _ ∙ last_content size 0 runes e)
        | inr e ↦
            let q : 0 + (size - shared) + shared ≡ size = omega arith in
            rw (p, e)
              (ap₂ (λ a b. a ++ b) (full_content size 0 runes e)
                  (tails-split_from fuel runes (0 + (size - shared)) (index + 1) (omega arith)
                      (ground arith) (ground arith)
                    ∙ ap (λ k. drop k runes) q)
                ∙ take-append-drop size runes)
      ]

  -- Each chunk has a rune, and `size` of them at most.
  abbrev Fits : Chunk F → Type 0
  Fits c = (0 < length c.content) × (length c.content ≤ size)

  length-slice_bounds :
      (runes : Text) (start : ℕ)
      → start < length runes
      → let content = slice runes start (min (length runes) (start + size)) in
        (0 < length content) × (length content ≤ size)
  length-slice_bounds runes start s =
      let n = min (length runes) (start + size) - start in
      omega (arith, length-take n (drop start runes), length-drop start runes)

  pub split_from-Fits :
      (fuel : ℕ) (runes : Text) (start index : ℕ)
      → All Fits (split_from {F = F} size shared fuel runes start index)
  unfolding split_from
  split_from-Fits zero runes start index = tt
  split_from-Fits (suc fuel) runes start index = elim (Bool-cases (ltb start (length runes))) [
    | inr p ↦ rw p tt
    | inl p ↦
        let fits = length-slice_bounds runes start (ground arith) in
        elim (Bool-cases (length runes == min (length runes) (start + size))) [
          | inl e ↦ rw (p, e) (fits, tt)
          | inr e ↦
              rw (p, e) (fits, split_from-Fits fuel runes (start + (size - shared)) (index + 1))
        ]
  ]

-- The chunks are numbered from `n` on.
abbrev pub Numbered : {F : Type 0} → ℕ → List (Chunk F) → Type 0
Numbered n [] = Unit
Numbered n (c ∷ cs) = (c.index ≡ n) × Numbered (n + 1) cs

split_from-Numbered :
    (F : Type 0) (size shared fuel : ℕ) (runes : Text) (start index : ℕ)
    → Numbered index (split_from {F = F} size shared fuel runes start index)
unfolding split_from
split_from-Numbered F size shared zero runes start index = tt
split_from-Numbered F size shared (suc fuel) runes start index =
    elim (Bool-cases (ltb start (length runes))) [
      | inr p ↦ rw p tt
      | inl p ↦ elim (Bool-cases (length runes == min (length runes) (start + size))) [
        | inl e ↦ rw (p, e) (refl, tt)
        | inr e ↦
            rw (p, e)
              (
                refl,
                split_from-Numbered F size shared fuel runes (start + (size - shared)) (index + 1),
              )
      ]
    ]

-- SplitText loses nothing: the first chunk followed by what each later chunk adds behind its 150
-- shared runes is the document, for every document.
pub reassemble-split_text :
    (F : Type 0) (document : Text) → reassemble overlap (split_text {F = F} document) ≡ document
unfolding split_text
reassemble-split_text F [] = refl
reassemble-split_text F (c ∷ s) =
    reassemble-split_from F chunk_size overlap (omega arith) (suc (length (c ∷ s))) (c ∷ s) 0
      (omega arith)

-- Every chunk of SplitText is of 1 to 1000 runes, and the chunks are numbered 0, 1, 2, and so on.
pub split_text_chunks :
    (F : Type 0) (document : Text)
    → All
        (λ (c : Chunk F). (0 < length c.content) × (length c.content ≤ 1000))
        (split_text document)
      × Numbered 0 (split_text {F = F} document)
unfolding split_text
split_text_chunks F [] = (tt, tt)
split_text_chunks F (c ∷ s) = (
  split_from-Fits F chunk_size overlap (omega arith) (suc (length (c ∷ s))) (c ∷ s) 0 0,
  split_from-Numbered F chunk_size overlap (suc (length (c ∷ s))) (c ∷ s) 0 0,
)
