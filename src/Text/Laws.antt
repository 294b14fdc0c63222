-- ===== src/Text/Laws.antt =====
-- Laws of the text functions.
use oneinstack_panel.Common.{
  ℕ, ◌≤◌, ◌≡◌, refl, ◌↔◌, true, false, ◌&&◌, [], ◌∷◌, arith, All, Bool-cases, inl, inr,
  if◌then◌else◌,
}
use oneinstack_panel.Text.{
  Text, text_eq, is_empty, is_space, rune_len, byte_len, trim_left, trim_right, trim_space,
}

pub text_eq_refl : (s : Text) → text_eq s s ≡ true
text_eq_refl [] = refl
text_eq_refl (c ∷ s) = ground (arith, text_eq_refl s)

text_eq_sound : (s t : Text) → text_eq s t ≡ true → s ≡ t
text_eq_sound [] [] h = refl
text_eq_sound [] (d ∷ t) h = cc
text_eq_sound (c ∷ s) [] h = cc
text_eq_sound (c ∷ s) (d ∷ t) h = ground (arith, text_eq_sound s t)

pub text_eq_iff : (s t : Text) → (text_eq s t ≡ true) ↔ (s ≡ t)
text_eq_iff s t = (text_eq_sound s t, λ e. rw e (text_eq_refl t))

pub rune_len_bounds : (c : ℕ) → (1 ≤ rune_len c) × (rune_len c ≤ 4)
unfolding rune_len
rune_len_bounds c = ground arith

-- No text that `trim_left` returns begins with a space.
abbrev pub StartsPlain : Text → Type 0
StartsPlain [] = Unit
StartsPlain (c ∷ s) = is_space c ≡ false

-- No text that `trim_right` returns ends with a space.
abbrev pub EndsPlain : Text → Type 0
EndsPlain [] = Unit
EndsPlain (c ∷ []) = is_space c ≡ false
EndsPlain (c ∷ d ∷ s) = EndsPlain (d ∷ s)

pub trim_left-StartsPlain : (s : Text) → StartsPlain (trim_left s)
unfolding trim_left
trim_left-StartsPlain [] = tt
trim_left-StartsPlain (c ∷ s) = elim (Bool-cases (is_space c)) [
  | inl e ↦ rw e (trim_left-StartsPlain s)
  | inr e ↦ rw e e
]

EndsPlain-cons :
    (c : ℕ) (rest : Text)
    → EndsPlain rest
    → EndsPlain (if is_empty rest && is_space c then [] else c ∷ rest)
EndsPlain-cons c [] h = elim (Bool-cases (is_space c)) [ inl e ↦ rw e tt | inr e ↦ rw e e ]
EndsPlain-cons c (d ∷ rest) h = h

trim_right-EndsPlain : (s : Text) → EndsPlain (trim_right s)
unfolding trim_right
trim_right-EndsPlain [] = tt
trim_right-EndsPlain (c ∷ s) = EndsPlain-cons c (trim_right s) (trim_right-EndsPlain s)

trim_right-StartsPlain : (s : Text) → StartsPlain s → StartsPlain (trim_right s)
unfolding trim_right
trim_right-StartsPlain [] h = tt
trim_right-StartsPlain (c ∷ s) h = ground arith

-- A trimmed text neither begins nor ends with a space.
pub trim_space-plain : (s : Text) → StartsPlain (trim_space s) × EndsPlain (trim_space s)
unfolding trim_space
trim_space-plain s = (
  trim_right-StartsPlain (trim_left s) (trim_left-StartsPlain s),
  trim_right-EndsPlain (trim_left s),
)

byte_len-trim_left : (s : Text) → byte_len (trim_left s) ≤ byte_len s
unfolding trim_left byte_len
byte_len-trim_left [] = omega arith
byte_len-trim_left (c ∷ s) = ground (arith, byte_len-trim_left s)

byte_len-trim_right : (s : Text) → byte_len (trim_right s) ≤ byte_len s
unfolding trim_right byte_len
byte_len-trim_right [] = omega arith
byte_len-trim_right (c ∷ s) = ground (arith, byte_len-trim_right s)

pub byte_len-trim_space : (s : Text) → byte_len (trim_space s) ≤ byte_len s
unfolding trim_space
byte_len-trim_space s = omega (arith, byte_len-trim_right (trim_left s), byte_len-trim_left s)

module _ (P : ℕ → Type 0) where
  All-trim_left : (s : Text) → All P s → All P (trim_left s)
  unfolding trim_left
  All-trim_left [] h = tt
  All-trim_left (c ∷ s) h = ground (arith, All-trim_left s h.1)

  All-trim_right : (s : Text) → All P s → All P (trim_right s)
  unfolding trim_right
  All-trim_right [] h = tt
  All-trim_right (c ∷ s) h = ground (arith, All-trim_right s h.1)

  pub All-trim_space : (s : Text) → All P s → All P (trim_space s)
  unfolding trim_space
  All-trim_space s h = All-trim_right (trim_left s) (All-trim_left s h)
