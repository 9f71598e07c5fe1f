-- ===== src/Text/Laws.antt =====
-- What the program relies on of trimming and of comparing texts.
use gopher_agent_platform.Prelude.{
  ℕ, ◌*◌, ◌≤◌, ◌≡◌, refl, inl, inr, Bool, true, false, [], ◌∷◌, ◌++◌, length, arith, Bool-cases,
  ==-refl,
}
use gopher_agent_platform.Text.{
  Text, is_space, trim_left, trim_right, trim_space, text_eq, byte_len, drop_if_blank,
}

-- An accepted comparison is an equation.
pub text_eq→eq : (s t : Text) → text_eq s t ≡ true → s ≡ t
text_eq→eq [] [] h = refl
text_eq→eq [] (d ∷ t) h = cc
text_eq→eq (c ∷ s) [] h = cc
text_eq→eq (c ∷ s) (d ∷ t) h = ground (arith, text_eq→eq s t)

pub text_eq_refl : (s : Text) → text_eq s s ≡ true
text_eq_refl [] = refl
text_eq_refl (c ∷ s) = rw (==-refl c) (text_eq_refl s)

-- The first character that is left is no space.
abbrev pub StartsSolid : Text → Type 0
StartsSolid [] = Unit
StartsSolid (c ∷ s) = is_space c ≡ false

trim_left-StartsSolid : (s : Text) → StartsSolid (trim_left s)
unfolding trim_left
trim_left-StartsSolid [] = tt
trim_left-StartsSolid (c ∷ s) = elim (Bool-cases (is_space c)) [
  | inl e ↦ rw e (trim_left-StartsSolid s)
  | inr e ↦ rw e e
]

trim_left_of_StartsSolid : (s : Text) → StartsSolid s → trim_left s ≡ s
unfolding trim_left
trim_left_of_StartsSolid [] h = refl
trim_left_of_StartsSolid (c ∷ s) h = rw h

drop_if_blank-StartsSolid :
    (c : ℕ) (r : Text) → is_space c ≡ false → StartsSolid (drop_if_blank (is_space c) c r)
drop_if_blank-StartsSolid c [] h = rw h h
drop_if_blank-StartsSolid c (d ∷ r) h = h

trim_right-StartsSolid : (s : Text) → StartsSolid s → StartsSolid (trim_right s)
unfolding trim_right
trim_right-StartsSolid [] h = tt
trim_right-StartsSolid (c ∷ s) h = drop_if_blank-StartsSolid c (trim_right s) h

trim_right-drop_if_blank :
    (b : Bool) (c : ℕ) (r : Text)
    → is_space c ≡ b
    → trim_right r ≡ r
    → trim_right (drop_if_blank b c r) ≡ drop_if_blank b c r
unfolding trim_right
trim_right-drop_if_blank true c [] e h = refl
trim_right-drop_if_blank false c [] e h = rw e
trim_right-drop_if_blank b c (d ∷ r) e h = rw (h, trim_right) refl

trim_right-trim_right : (s : Text) → trim_right (trim_right s) ≡ trim_right s
unfolding trim_right
trim_right-trim_right [] = refl
trim_right-trim_right (c ∷ s) =
    trim_right-drop_if_blank (is_space c) c (trim_right s) refl (trim_right-trim_right s)

-- A trimmed text is trimmed: `strings.TrimSpace` is idempotent.
pub trim_space-trim_space : (s : Text) → trim_space (trim_space s) ≡ trim_space s
unfolding trim_space
trim_space-trim_space s =
    rw
      (trim_left_of_StartsSolid (trim_right (trim_left s))
        (trim_right-StartsSolid (trim_left s) (trim_left-StartsSolid s)))
      (trim_right-trim_right (trim_left s))

-- A text has at most four bytes for each code point, and at least one.
pub byte_len_bounds : (s : Text) → (length s ≤ byte_len s) × (byte_len s ≤ 4 * length s)
unfolding byte_len
byte_len_bounds [] = omega arith
byte_len_bounds (c ∷ s) = ground (arith, byte_len_bounds s)

-- A common beginning does not tell two texts apart.
pub text_eq-append : (a b c : Text) → text_eq (a ++ b) (a ++ c) ≡ text_eq b c
text_eq-append [] b c = refl
text_eq-append (x ∷ a) b c = rw (==-refl x) (text_eq-append a b c)
