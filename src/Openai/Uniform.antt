-- ===== src/Openai/Uniform.antt =====
-- All vectors of the embedder have one dimension.
use gopher_agent_platform.Prelude.{
  ℕ, zero, suc, ◌≤◌, ◌≡◌, ◌≢◌, refl, sym, ap, subst, ◌∙◌, List, [], ◌∷◌, ◌++◌, ◌==◌, length, take,
  drop, arith, All, All-append, length-append, length-take, length-drop, inl, inr, Bool-cases,
}
use gopher_agent_platform.Exec.{Result, ok, Result-cases}
use gopher_agent_platform.Text.{Text, trim_space, is_empty}
use gopher_agent_platform.Openai.Embedding.{
  Datum, embed_batch, check_dimension, embed_from, embed, inputs, max_embedding_batch_size,
}
use gopher_agent_platform.Openai.Vectors.{NonEmpty, embed_batch-NonEmpty}

module _ {D F : Type 0} (narrow : D → F) (create : List Text → Result (List (Datum D))) where
  abbrev OfSize : ℕ → List F → Type 0
  OfSize n v = length v ≡ n

  -- The dimension after a batch is that of all its vectors, and the one before where there was one.
  check_dimension-OfSize :
      (e n : ℕ) (vs : List (List F))
      → check_dimension narrow create e vs ≡ ok n
      → All NonEmpty vs
      → All (OfSize n) vs × (e ≢ 0 → n ≡ e) × (length vs ≢ 0 → n ≢ 0)
  unfolding check_dimension
  check_dimension-OfSize e n [] h k = (tt, (λ z. sym (cc h)), (λ z. absurd (z refl)))
  check_dimension-OfSize e n (v ∷ vs) h k = elim (Bool-cases (e == 0)) [
    | inl z ↦
        let r = check_dimension-OfSize (length v) n vs (rw z at h) k.1 in
        let s = r.1 k.0 in
        ((sym s, r.0), (λ x. absurd (x (ground arith))), (λ x y. k.0 (sym s ∙ y)))
    | inr z ↦ elim (Bool-cases (length v == e)) [
      | inr y ↦ let q = rw (z, y) at h in cc
      | inl y ↦
          let r = check_dimension-OfSize e n vs (rw (z, y) at h) k.1 in
          let nz : e ≢ 0 = λ x. ground (arith, x) in
          let s = r.1 nz in ((ground arith ∙ sym s, r.0), (λ x. s), (λ x t. nz (sym s ∙ t)))
    ]
  ]

  -- All vectors have one dimension, which is not 0, and is the one before where there was one.
  record Uniform (e : ℕ) (many : ℕ) (out : List (List F)) : Type 0 where
    dimension : ℕ
    positive : dimension ≢ 0
    sizes : All (OfSize dimension) out
    before : e ≢ 0 → dimension ≡ e
    size : length out ≡ many

  nothing-Uniform : (e : ℕ) → Uniform e 0 []
  nothing-Uniform e = elim (Bool-cases (e == 0)) [
    | inl z ↦ record {
      dimension = 1;
      positive = λ x. omega (arith, x);
      sizes = tt;
      before = λ x. absurd (x (ground arith));
      size = refl;
    }
    | inr z ↦ record {
      dimension = e;
      positive = λ x. ground (arith, x);
      sizes = tt;
      before = λ x. refl;
      size = refl;
    }
  ]

  embed_from-Uniform :
      (fuel e : ℕ) (input : List Text) (out : List (List F))
      → length input ≤ fuel
      → embed_from narrow create fuel e input ≡ ok out
      → Uniform e (length input) out
  unfolding embed_from
  embed_from-Uniform zero e [] out l h =
      let same : [] ≡ out = cc in subst (Uniform e 0) same (nothing-Uniform e)
  embed_from-Uniform zero e (t ∷ ts) out l h = absurd (omega arith)
  embed_from-Uniform (suc fuel) e [] out l h =
      let same : [] ≡ out = cc in subst (Uniform e 0) same (nothing-Uniform e)
  embed_from-Uniform (suc fuel) e (t ∷ ts) out l h =
      let first = take max_embedding_batch_size (t ∷ ts) in
      let rest = drop max_embedding_batch_size (t ∷ ts) in
      elim (Result-cases (embed_batch narrow create first)) [
        | inr (f, p) ↦ let z = rw p at h in cc
        | inl (batch, p) ↦ elim (Result-cases (check_dimension narrow create e batch)) [
          | inr (f, q) ↦ let z = rw (p, q) at h in cc
          | inl (d, q) ↦ elim (Result-cases (embed_from narrow create fuel d rest)) [
            | inr (f, r) ↦ let z = rw (p, q, r) at h in cc
            | inl (others, r) ↦
                let z = rw (p, q, r) at h in
                let same : batch ++ others ≡ out = cc in
                let b = embed_batch-NonEmpty narrow create first batch p in
                let k = check_dimension-OfSize e d batch q b.0 in
                let less : length rest ≤ fuel =
                  omega (arith, length-drop max_embedding_batch_size (t ∷ ts)) in
                let u = embed_from-Uniform fuel d rest others less r in
                let some_text : length batch ≢ 0 =
                  λ x. omega (arith, x, b.1, length-take max_embedding_batch_size (t ∷ ts)) in
                let n = k.2 some_text in
                let s = u.before n in
                subst (Uniform e (length (t ∷ ts))) same record {
                  dimension = d;
                  positive = n;
                  sizes =
                      All-append (OfSize d) batch others k.0
                        (subst (λ x. All (OfSize x) others) s u.sizes);
                  before = k.1;
                  size = omega (
                    arith,
                    length-append batch others,
                    b.1,
                    u.size,
                    length-take max_embedding_batch_size (t ∷ ts),
                    length-drop max_embedding_batch_size (t ∷ ts),
                  );
                }
          ]
        ]
      ]

  length-inputs : (ts us : List Text) → inputs narrow create ts ≡ ok us → length us ≡ length ts
  length-inputs [] us h = let same : [] ≡ us = cc in ap length (sym same)
  length-inputs (t ∷ ts) us h = elim (Bool-cases (is_empty (trim_space t))) [
    | inl e ↦ elim (Result-cases (inputs narrow create ts)) [
      | inl (vs, p) ↦ let z = rw (p, e) at h in cc
      | inr (f, p) ↦ let z = rw (p, e) at h in cc
    ]
    | inr e ↦ elim (Result-cases (inputs narrow create ts)) [
      | inl (vs, p) ↦
          let z = rw (p, e) at h in
          let same : trim_space t ∷ vs ≡ us = cc in
          ap length (sym same) ∙ ap (λ n. suc n) (length-inputs ts vs p)
      | inr (f, p) ↦ let z = rw (p, e) at h in cc
    ]
  ]

  -- Where Embed succeeds, whatever the SDK answers, there are as many vectors as texts, and all are
  -- of one dimension, which is not 0.
  pub embed_uniform :
      (texts : List Text) (vectors : List (List F))
      → embed narrow create texts ≡ ok vectors
      → (length vectors ≡ length texts) × ((n : ℕ) × (n ≢ 0) × All (λ v. length v ≡ n) vectors)
  unfolding embed
  embed_uniform texts vectors h = elim (Bool-cases (length texts == 0)) [
    | inl z ↦ let q = rw z at h in cc
    | inr z ↦ elim (Result-cases (inputs narrow create texts)) [
      | inr (e, p) ↦ let q = rw (z, p) at h in cc
      | inl (input, p) ↦
          let u =
            embed_from-Uniform (length input) 0 input vectors (omega arith) (rw (z, p) at h) in
          (u.size ∙ length-inputs texts input p, (u.dimension, u.positive, u.sizes))
    ]
  ]
