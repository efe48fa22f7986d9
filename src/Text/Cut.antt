-- ===== src/Text/Cut.antt =====
-- `cut` finds the first occurrence of a byte.
use sipproxy.Prelude.{ℕ, true, [], ◌∷◌, ◌++◌, ◌≡◌, refl, arith, none, some, inl, inr, Option-cases}
use sipproxy.Text.{Bytes, cut, lacks, solid}

pub cut-append : (c : ℕ) (a b : Bytes) → lacks c a ≡ true → cut c (a ++ c ∷ b) ≡ some (a, b)
unfolding cut
cut-append c [] b h = ground arith
cut-append c (x ∷ a) b h = ground (arith, cut-append c a b)

pub cut-lacks : (c : ℕ) (s : Bytes) → lacks c s ≡ true → cut c s ≡ none
unfolding cut
cut-lacks c [] h = refl
cut-lacks c (x ∷ s) h = ground (arith, cut-lacks c s)

-- The parts of a cut spell the text, and the first part lacks the byte.
pub cut_sound :
    (c : ℕ) (s a b : Bytes) → cut c s ≡ some (a, b) → (s ≡ a ++ c ∷ b) × (lacks c a ≡ true)
unfolding cut
cut_sound c [] a b h = ground arith
cut_sound c (x ∷ s) [] b h = elim (Option-cases (cut c s)) [
  | inl e ↦ ground arith
  | inr ((p, q), e) ↦ ground (arith, cut_sound c s p q e)
]
cut_sound c (x ∷ s) (y ∷ a) b h = elim (Option-cases (cut c s)) [
  | inl e ↦ ground arith
  | inr ((p, q), e) ↦ ground (arith, cut_sound c s p q e)
]

pub cut-none : (c : ℕ) (s : Bytes) → cut c s ≡ none → lacks c s ≡ true
unfolding cut
cut-none c [] h = refl
cut-none c (x ∷ s) h = elim (Option-cases (cut c s)) [
  | inl e ↦ ground (arith, cut-none c s e)
  | inr ((p, q), e) ↦ ground arith
]

pub lacks-append :
    (c : ℕ) (a b : Bytes) → lacks c a ≡ true → lacks c b ≡ true → lacks c (a ++ b) ≡ true
lacks-append c [] b h g = g
lacks-append c (x ∷ a) b h g = ground (arith, lacks-append c a b)

pub solid-append : (a b : Bytes) → solid a ≡ true → solid b ≡ true → solid (a ++ b) ≡ true
solid-append [] b h g = g
solid-append (x ∷ a) b h g = ground (arith, solid-append a b)
