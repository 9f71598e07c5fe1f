-- ===== src/Rag/Stored.antt =====
-- What the files of documents keep.
use gopher_agent_platform.Prelude.{
  ℕ, Option, none, [], ◌++◌, ◌∷◌, ◌≡◌, refl, ◌==◌, true, inl, inr, ◌⊎◌, Bool-cases, Option-cases,
  ==-refl, ltb,
}
use gopher_agent_platform.Errors.{Err, is}
use gopher_agent_platform.Exec.{ok}
use gopher_agent_platform.Text.{Text, text, text_eq}
use gopher_agent_platform.Text.Laws.{text_eq_refl, text_eq→eq}
use gopher_agent_platform.Rag.Service.{utf8, content_len, ext, is_supported, max_document_bytes}
use gopher_agent_platform.Rag.Files
use gopher_agent_platform.Rag.Files.{Disk}

text_eq_prefix : (p s t : Text) → text_eq (p ++ s) (p ++ t) ≡ text_eq s t
text_eq_prefix [] s t = refl
text_eq_prefix (c ∷ p) s t = rw (==-refl c) (text_eq_prefix p s t)

supported_kinds :
    (kind : Text) → is_supported kind ≡ true → (kind ≡ text ".md") ⊎ (kind ≡ text ".txt")
supported_kinds kind h = elim (Bool-cases (text_eq kind (text ".md"))) [
  | inl e ↦ inl (text_eq→eq kind (text ".md") e)
  | inr e ↦ inr (text_eq→eq kind (text ".txt") (rw e at h))
]

-- Where no call of the file system fails and the context of Load has not ended, a document that Save
-- stores for a user, under a version that has no .txt file yet, is what Load then returns for that
-- user and version, with the version and the ending as its name.
pub load-save :
    (to_lower : Text → Text) (ended : Option Err) (user : ℕ) (version filename document : Text)
    (d : Disk)
    → d.answers ≡ []
    → d.files user (version ++ text ".txt") ≡ none
    → (Files.save to_lower ended user version filename (utf8 document) d).0 ≡ ok tt
    → (Files.load none user version
        (Files.save to_lower ended user version filename (utf8 document) d).1).0
      ≡ ok (document, version ++ to_lower (ext filename))
unfolding Files.save Files.load Files.load_first is
load-save to_lower ended user version filename document d quiet fresh h =
    elim (Bool-cases (user == 0)) [
      | inl z ↦ let q = rw z at h in cc
      | inr z ↦ elim (Bool-cases (Files.valid_version version)) [
        | inr v ↦ let q = rw (z, v) at h in cc
        | inl v ↦ elim (Bool-cases (content_len (utf8 document) == 0)) [
          | inl n ↦ let q = rw (z, v, n) at h in cc
          | inr n ↦ elim (Bool-cases (ltb max_document_bytes (content_len (utf8 document)))) [
            | inl l ↦ let q = rw (z, v, n, l) at h in cc
            | inr l ↦ elim (Option-cases ended) [
              | inr (e, s) ↦ let q = rw (z, v, n, l, s) at h in cc
              | inl s ↦ elim (Bool-cases (is_supported (to_lower (ext filename)))) [
                | inr k ↦ let q = rw (z, v, n, l, s, k) at h in cc
                | inl k ↦ elim (supported_kinds (to_lower (ext filename)) k) [
                  | inl m ↦
                      rw
                        (
                          z,
                          v,
                          n,
                          l,
                          s,
                          k,
                          quiet,
                          m,
                          ==-refl user,
                          text_eq_prefix version (text ".txt") (text ".md"),
                          fresh,
                          ==-refl user,
                          text_eq_refl (version ++ text ".md"),
                        )
                        refl
                  | inr m ↦
                      rw
                        (
                          z,
                          v,
                          n,
                          l,
                          s,
                          k,
                          quiet,
                          m,
                          ==-refl user,
                          text_eq_refl (version ++ text ".txt"),
                        )
                        refl
                ]
              ]
            ]
          ]
        ]
      ]
    ]
