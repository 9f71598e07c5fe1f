-- ===== src/Rag/Ranking.antt =====
-- What SearchSimilar returns: the most similar chunks, the most similar first.
use gopher_agent_platform.Prelude.{
  ℕ, ◌≡◌, refl, sym, ap, subst, ◌∙◌, Bool, false, List, [], ◌∷◌, ◌++◌, map, if◌then◌else◌, length,
  take, drop, min, ltb, ◌==◌, arith, filter, All, not, length-map, filter-map_count, Bool-cases,
  inl, inr, length-take, take-append-drop,
}
use gopher_agent_platform.Exec.{ok, Result-cases}
use gopher_agent_platform.Rag.Chunker.{Chunk}
use gopher_agent_platform.Rag.Retriever.{
  Floats, Scored, score, calc_similarity, sort_stable, best, search_similar,
}
use gopher_agent_platform.Rag.Sorting.{
  IsFloatOrder, IsNumber, above, IsRanked, sort_stable-All, sort_stable-IsRanked, count-sort_stable,
  length-sort_stable, IsRanked-split,
}

module _ (floats : Floats) (order : IsFloatOrder floats) where
  open floats use {F32, greater}

  -- The similarities of a query to chunks, each with its chunk.
  abbrev pub IsScore : List F32 → Scored floats → Type 0
  IsScore query x = calc_similarity floats query x.chunk.vector ≡ ok x.similarity

  score-IsScore :
      (query : List F32) (chunks : List (Chunk F32)) (xs : List (Scored floats))
      → score floats query chunks ≡ ok xs
      → (map (λ s. s.chunk) xs ≡ chunks) × All (IsScore query) xs
  unfolding score
  score-IsScore query [] xs h =
      let e : [] ≡ xs = cc in
      subst (λ t. (map (λ s. s.chunk) t ≡ []) × All (IsScore query) t) e (refl, tt)
  score-IsScore query (c ∷ chunks) xs h =
      elim (Bool-cases (not (length c.vector == length query))) [
        | inl p ↦ let z = rw p at h in cc
        | inr p ↦ elim (Result-cases (calc_similarity floats query c.vector)) [
          | inr (e, q) ↦ let z = rw (p, q) at h in cc
          | inl (x, q) ↦ elim (Result-cases (score floats query chunks)) [
            | inr (e, r) ↦ let z = rw (p, q, r) at h in cc
            | inl (rest, r) ↦
                let k = score-IsScore query chunks rest r in
                let z = rw (p, q, r) at h in
                let e : (record { chunk = c; similarity = x } ∷ rest) ≡ xs = cc in
                subst (λ t. (map (λ s. s.chunk) t ≡ c ∷ chunks) × All (IsScore query) t) e
                  (ap (λ t. c ∷ t) (k.0), (q, k.1))
          ]
        ]
      ]

  -- What a search promises, whatever way it sorts: some of the chunks, as many as asked for or all,
  -- none of them less similar than a later one or than one that is left out.
  pub record IsBest (chunks : List (Chunk F32)) (query : List F32) (top_k : ℕ)
      (result : List (Chunk F32)) : Type 0 where
    pub top : List (Scored floats)
    pub rest : List (Scored floats)
    pub result_of : result ≡ map (λ s. s.chunk) top
    pub size : length result ≡ min top_k (length chunks)
    pub ranked : IsRanked floats order top
    pub above_rest : All (λ x. All (λ y. above floats order y x ≡ false) rest) top
    pub similar : All (IsScore query) (top ++ rest)
    pub same_chunks :
        (p : Chunk F32 → Bool)
        → length (filter p (map (λ s. s.chunk) (top ++ rest))) ≡ length (filter p chunks)

  from_sorted-IsBest :
      (chunks : List (Chunk F32)) (query : List F32) (k n : ℕ) (xs : List (Scored floats))
      → map (λ s. s.chunk) xs ≡ chunks
      → All (IsScore query) xs
      → All (IsNumber floats order) xs
      → n ≡ min k (length chunks)
      → IsBest chunks query k (map (λ s. s.chunk) (take n (sort_stable floats xs)))
  from_sorted-IsBest chunks query k n xs same similar numbers size =
      let sorted = sort_stable floats xs in
      let whole = take-append-drop n sorted in
      let many : length sorted ≡ length chunks =
        (length-sort_stable floats order) xs
        ∙ sym (length-map (λ s. s.chunk) xs)
        ∙ ap length same in
      let cut = (IsRanked-split floats order) (take n sorted) (drop n sorted) (
        subst (IsRanked floats order) (sym whole) (sort_stable-IsRanked floats order xs numbers)) in
      record {
        top = take n sorted;
        rest = drop n sorted;
        result_of = refl;
        size =
            length-map (λ s. s.chunk) (take n sorted)
            ∙ length-take n sorted
            ∙ omega (arith, size, many);
        ranked = cut.0;
        above_rest = cut.1;
        similar =
            subst (All (IsScore query)) (sym whole)
              (sort_stable-All floats order (IsScore query) xs similar);
        same_chunks = λ p.
            ap (λ t. length (filter p (map (λ s. s.chunk) t))) whole
            ∙ filter-map_count (λ s. s.chunk) p sorted
            ∙ count-sort_stable floats order (λ s. p s.chunk) xs
            ∙ sym (filter-map_count (λ s. s.chunk) p xs)
            ∙ ap (λ t. length (filter p t)) same;
      }

  -- The similarity of the query to a chunk, where there is one, is no NaN.
  abbrev pub IsComparable : List F32 → Chunk F32 → Type 0
  IsComparable query c =
      (x : F32) → calc_similarity floats query c.vector ≡ ok x → order.is_nan x ≡ false

  scores-IsNumber :
      (query : List F32) (xs : List (Scored floats))
      → All (IsComparable query) (map (λ s. s.chunk) xs)
      → All (IsScore query) xs
      → All (IsNumber floats order) xs
  scores-IsNumber query [] h k = tt
  scores-IsNumber query (x ∷ xs) h k = (h.0 x.similarity k.0, scores-IsNumber query xs h.1 k.1)

  -- How many chunks are taken.
  abbrev taken : List (Chunk F32) → ℕ → ℕ
  taken chunks top_k = if ltb (length chunks) top_k then length chunks else top_k

  found :
      (chunks : List (Chunk F32)) (query : List F32) (top_k : ℕ) (result : List (Chunk F32))
      → All (IsComparable query) chunks
      → (if length chunks == 0
          then ok []
          else best floats (taken chunks top_k) (score floats query chunks))
        ≡ ok result
      → IsBest chunks query top_k result
  found [] query top_k result m h =
      let e : [] ≡ result = cc in
      subst (IsBest [] query top_k) e record {
        top = [];
        rest = [];
        result_of = refl;
        size = omega arith;
        ranked = tt;
        above_rest = tt;
        similar = tt;
        same_chunks = λ p. refl;
      }
  found (c ∷ chunks) query top_k result m h =
      let n = taken (c ∷ chunks) top_k in
      let z : (length (c ∷ chunks) == 0) ≡ false = ground arith in
      elim (Result-cases (score floats query (c ∷ chunks))) [
        | inr (e, p) ↦ let q = rw (z, p) at h in cc
        | inl (xs, p) ↦
            let q = rw (z, p) at h in
            let e : map (λ s. s.chunk) (take n (sort_stable floats xs)) ≡ result = cc in
            let scores = score-IsScore query (c ∷ chunks) xs p in
            let numbers =
              scores-IsNumber query xs (subst (All (IsComparable query)) (sym (scores.0)) m)
                scores.1 in
            subst (IsBest (c ∷ chunks) query top_k) e (
              from_sorted-IsBest (c ∷ chunks) query top_k n xs scores.0 scores.1 numbers
                (ground arith))
      ]

  -- Where SearchSimilar succeeds and no similarity of the query to a chunk is NaN, it returns the most
  -- similar chunks, as many as asked for or all, the most similar first.
  pub search_similar-IsBest :
      (chunks : List (Chunk F32)) (query : List F32) (top_k : ℕ) (result : List (Chunk F32))
      → All (IsComparable query) chunks
      → search_similar floats chunks query top_k ≡ ok result
      → IsBest chunks query top_k result
  unfolding search_similar
  search_similar-IsBest chunks query top_k result m h = elim (Bool-cases (top_k == 0)) [
    | inl z ↦ let q = rw z at h in cc
    | inr z ↦ elim (Bool-cases (length query == 0)) [
      | inl y ↦ let q = rw (z, y) at h in cc
      | inr y ↦ found chunks query top_k result m (rw (z, y) at h)
    ]
  ]
