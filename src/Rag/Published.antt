-- ===== src/Rag/Published.antt =====
-- What Redis keeps of the versions of a user: the one that is current is there and does not expire.
use gopher_agent_platform.Prelude.{
  ℕ, ◌≡◌, refl, ap, subst, ◌∙◌, true, false, Option, none, some, List, [], ◌∷◌, length, ◌==◌, ◌⊎◌,
  arith, inl, inr, Bool-cases, Option-cases,
}
use gopher_agent_platform.Errors.{Err}
use gopher_agent_platform.Exec.{Result-cases}
use gopher_agent_platform.Text.{Text, text_eq}
use gopher_agent_platform.Text.Laws.{text_eq_refl, text_eq→eq, text_eq-append}
use gopher_agent_platform.Redis.{Entry, Value, str, without_ttl, aged}
use gopher_agent_platform.Rag.Chunker.{Chunk}
use gopher_agent_platform.Rag.Store.{
  Storage, Store, alive, valid_version, current_version_suffix, user_prefix, version_key,
  current_key, text_of, check_chunks, first_size, replace, delete, activate, activate_script,
  expire_previous,
}

module _ {F : Type 0} (storage : Storage F) (user_id : ℕ) where
  open storage use {redis, marshal}

  -- The keys of one user's versions are as different as the versions.
  pub same_key :
      (a b : Text)
      → text_eq (version_key storage user_id a) (version_key storage user_id b) ≡ text_eq a b
  same_key a b = text_eq-append (user_prefix storage user_id) a b

  pub not_current : (v : Text) → valid_version v ≡ true → text_eq v current_version_suffix ≡ false
  unfolding valid_version
  not_current v h = ground (arith, h)

  flipped : (a b : Text) → text_eq a b ≡ false → text_eq b a ≡ false
  flipped a b h = elim (Bool-cases (text_eq b a)) [
    | inr p ↦ p
    | inl p ↦ let q = text_eq→eq b a p in absurd (cc (q, text_eq_refl a))
  ]

  -- The step that lets the version before expire leaves any other key alone.
  expire_previous-entry :
      (v j : Text) (previous : Option Entry) (s : Store storage)
      → ((e : Entry)
          → previous ≡ some e
          → text_eq (text_of e.value) v ≡ false
          → text_eq (version_key storage user_id (text_of e.value)) j ≡ false)
      → redis.entry (expire_previous storage user_id v previous s) j ≡ redis.entry s j
  expire_previous-entry v j none s h = refl
  expire_previous-entry v j (some e) s h = elim (Bool-cases (text_eq (text_of e.value) v)) [
    | inl p ↦ rw p refl
    | inr p ↦ rw p (
        rw (
          redis.entry-pexpire s (version_key storage user_id (text_of e.value)) 86400000 j,
          h e refl p,
        ))
  ]

  -- The state after the switch, for a version that is there.
  abbrev pub switched : Text → Store storage → Store storage
  switched v s =
      redis.set (redis.persist s (version_key storage user_id v)) (current_key storage user_id) v

  abbrev pub activated : Text → Store storage → Store storage
  activated v s =
      expire_previous storage user_id v (redis.entry s (current_key storage user_id)) (switched v s)

  -- The chunks of the version stay, without a time to live.
  pub activated-version :
      (v : Text) (s : Store storage)
      → valid_version v ≡ true
      → redis.entry (activated v s) (version_key storage user_id v)
        ≡ without_ttl (redis.entry s (version_key storage user_id v))
  activated-version v s h =
      let K = version_key storage user_id v in
      let C = current_key storage user_id in
      let apart : text_eq C K ≡ false =
        same_key current_version_suffix v ∙ flipped v current_version_suffix (not_current v h) in
      expire_previous-entry v K (redis.entry s C) (switched v s)
        (λ e p n. same_key (text_of e.value) v ∙ n)
      ∙ rw (redis.entry-set (redis.persist s K) C v K, apart)
          (rw (redis.entry-persist s K K, text_eq_refl K))

  -- The pointer holds the version, without a time to live where the one before was a version too.
  pub activated-current :
      (v : Text) (s : Store storage)
      → ((e : Entry)
          → redis.entry s (current_key storage user_id) ≡ some e
          → valid_version (text_of e.value) ≡ true)
      → redis.entry (activated v s) (current_key storage user_id)
        ≡ some (record { value = str v; ttl = none })
  activated-current v s h =
      let C = current_key storage user_id in
      let K = version_key storage user_id v in
      expire_previous-entry v C (redis.entry s C) (switched v s)
        (λ e p n. same_key (text_of e.value) current_version_suffix ∙ not_current _ (h e p))
      ∙ rw (redis.entry-set (redis.persist s K) C v C, text_eq_refl C)

  -- The current version, where there is one, is a version whose chunks are there; neither expires.
  pub record Current (s : Store storage) (v : Text) : Type 0 where
    pub value : Value
    pub pointer :
        redis.entry s (current_key storage user_id) ≡ some (record { value = str v; ttl = none })
    pub valid : valid_version v ≡ true
    pub kept :
        redis.entry s (version_key storage user_id v) ≡ some (record { value = value; ttl = none })

  abbrev pub IsPublished : Store storage → Type 0
  IsPublished s = (redis.entry s (current_key storage user_id) ≡ none) ⊎ ((v : Text) × Current s v)

  -- What happens to the store: the methods with any arguments, and time that passes.
  pub data Step : Type 0 where
    replaced : Option Err → Text → List (Chunk F) → Step
    activated_to deleted : Text → Step
    elapsed : ℕ → Step

  unfoldable pub apply : Step → Store storage → Store storage
  unfolding replace activate delete
  apply (replaced ended v chunks) s = (replace storage ended user_id v chunks s).1
  apply (activated_to v) s = (activate storage user_id v s).1
  apply (deleted v) s = (delete storage user_id v s).1
  apply (elapsed d) s = redis.elapse s d

  -- A new document gets a new version, and nobody deletes the current one.
  abbrev pub Spared : Text → Store storage → Type 0
  Spared v s = (c : Text) → Current s c → text_eq c v ≡ false

  abbrev pub Fits : Step → Store storage → Type 0
  Fits (replaced ended v chunks) s = Spared v s
  Fits (activated_to v) s = Unit
  Fits (deleted v) s = Spared v s
  Fits (elapsed d) s = Unit

  abbrev pub FitsAll : List Step → Store storage → Type 0
  FitsAll [] s = Unit
  FitsAll (x ∷ xs) s = Fits x s × FitsAll xs (apply x s)

  unfoldable pub run : List Step → Store storage → Store storage
  unfolding apply
  run [] s = s
  run (x ∷ xs) s = run xs (apply x s)

  -- Two states that agree on the keys of the current version.
  keeps_pointer :
      (s t : Store storage)
      → redis.entry t (current_key storage user_id) ≡ redis.entry s (current_key storage user_id)
      → ((v : Text)
          → Current s v
          → redis.entry t (version_key storage user_id v)
            ≡ redis.entry s (version_key storage user_id v))
      → IsPublished s
      → IsPublished t
  keeps_pointer s t p q (inl n) = inl (p ∙ n)
  keeps_pointer s t p q (inr (v, c)) = inr (
    v,
    record { value = c.value; pointer = p ∙ c.pointer; valid = c.valid; kept = q v c ∙ c.kept },
  )

  stored-IsPublished :
      (v bytes : Text) (s : Store storage)
      → valid_version v ≡ true
      → Spared v s
      → IsPublished s
      → IsPublished (redis.set_px s (version_key storage user_id v) bytes 86400000)
  stored-IsPublished v bytes s h spared =
      let K = version_key storage user_id v in
      keeps_pointer s (redis.set_px s K bytes 86400000)
        (rw (
          redis.entry-set_px s K bytes 86400000 (current_key storage user_id) (omega arith),
          same_key v current_version_suffix ∙ not_current v h,
        ))
        (λ c at. rw (
          redis.entry-set_px s K bytes 86400000 (version_key storage user_id c) (omega arith),
          same_key v c ∙ flipped c v (spared c at),
        ))

  replace-IsPublished :
      (ended : Option Err) (v : Text) (chunks : List (Chunk F)) (s : Store storage)
      → Spared v s
      → IsPublished s
      → IsPublished (replace storage ended user_id v chunks s).1
  unfolding replace
  replace-IsPublished ended v chunks s spared h = elim (Result-cases (alive ended)) [
    | inr (e, p) ↦ rw p h
    | inl (_, p) ↦ elim (Bool-cases (user_id == 0)) [
      | inl z ↦ rw (p, z) h
      | inr z ↦ elim (Bool-cases (valid_version v)) [
        | inr y ↦ rw (p, z, y) h
        | inl y ↦ elim (Bool-cases (length chunks == 0)) [
          | inl x ↦ rw (p, z, y, x) h
          | inr x ↦ elim (Result-cases (check_chunks (first_size chunks) chunks)) [
            | inr (e, w) ↦ rw (p, z, y, x, w) h
            | inl (_, w) ↦ elim (Result-cases (marshal chunks)) [
              | inr (e, m) ↦ rw (p, z, y, x, w, m) h
              | inl (bytes, m) ↦ rw (p, z, y, x, w, m) (stored-IsPublished v bytes s y spared h)
            ]
          ]
        ]
      ]
    ]
  ]

  delete-IsPublished :
      (v : Text) (s : Store storage)
      → Spared v s
      → IsPublished s
      → IsPublished (delete storage user_id v s).1
  unfolding delete
  delete-IsPublished v s spared h = elim (Bool-cases (user_id == 0)) [
    | inl z ↦ rw z h
    | inr z ↦ elim (Bool-cases (valid_version v)) [
      | inr y ↦ rw (z, y) h
      | inl y ↦
          let K = version_key storage user_id v in
          rw (z, y)
            (keeps_pointer s (redis.del s K)
              (rw (
                redis.entry-del s K (current_key storage user_id),
                same_key v current_version_suffix ∙ not_current v y,
              ))
              (λ c at. rw (
                redis.entry-del s K (version_key storage user_id c),
                same_key v c ∙ flipped c v (spared c at),
              ))
              h)
    ]
  ]

  -- The pointer of a state that is in order is a version.
  pub pointer_valid :
      (s : Store storage)
      → IsPublished s
      → (e : Entry) → redis.entry s (current_key storage user_id) ≡ some e
      → valid_version (text_of e.value) ≡ true
  pointer_valid s (inl n) e p = cc (n, p)
  pointer_valid s (inr (v, c)) e p =
      let q : record { value = str v; ttl = none } ≡ e = cc (c.pointer) in
      subst (λ t. valid_version (text_of t.value) ≡ true) q c.valid

  activate-IsPublished :
      (v : Text) (s : Store storage) → IsPublished s → IsPublished (activate storage user_id v s).1
  unfolding activate activate_script
  activate-IsPublished v s h = elim (Bool-cases (user_id == 0)) [
    | inl z ↦ rw z h
    | inr z ↦ elim (Bool-cases (valid_version v)) [
      | inr y ↦ rw (z, y) h
      | inl y ↦ elim (Option-cases (redis.entry s (version_key storage user_id v))) [
        | inl x ↦ rw (z, y, x) h
        | inr (e, x) ↦
            let pointer = activated-current v s (pointer_valid s h) in
            let kept = activated-version v s y ∙ ap without_ttl x in
            rw (z, y, x)
              (inr (v, record { value = e.value; pointer = pointer; valid = y; kept = kept }))
      ]
    ]
  ]

  elapse-IsPublished : (d : ℕ) (s : Store storage) → IsPublished s → IsPublished (redis.elapse s d)
  elapse-IsPublished d s (inl n) = inl (redis.entry-elapse s d _ ∙ ap (λ e. aged d e) n)
  elapse-IsPublished d s (inr (v, c)) = inr (
    v,
    record {
      value = c.value;
      pointer = redis.entry-elapse s d _ ∙ ap (λ e. aged d e) c.pointer;
      valid = c.valid;
      kept = redis.entry-elapse s d _ ∙ ap (λ e. aged d e) c.kept;
    },
  )

  apply-IsPublished :
      (x : Step) (s : Store storage) → Fits x s → IsPublished s → IsPublished (apply x s)
  unfolding apply
  apply-IsPublished (replaced ended v chunks) s f h = replace-IsPublished ended v chunks s f h
  apply-IsPublished (activated_to v) s f h = activate-IsPublished v s h
  apply-IsPublished (deleted v) s f h = delete-IsPublished v s f h
  apply-IsPublished (elapsed d) s f h = elapse-IsPublished d s h

  -- A current version stays readable: whatever versions are replaced, activated and deleted, but for
  -- the current one, and however much time passes, the pointer names a version whose chunks are
  -- there, and neither expires.
  pub run-IsPublished :
      (xs : List Step) (s : Store storage) → FitsAll xs s → IsPublished s → IsPublished (run xs s)
  unfolding run
  run-IsPublished [] s f h = h
  run-IsPublished (x ∷ xs) s f h = run-IsPublished xs (apply x s) f.1 (apply-IsPublished x s f.0 h)
