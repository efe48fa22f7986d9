-- ===== src/Text/Equality.antt =====
-- The comparisons of texts decide equality and a strict total order.
use sipproxy.Prelude.{true, false, [], ◌∷◌, ◌++◌, ◌≡◌, refl, ◌↔◌, arith}
use sipproxy.Text.{Bytes, str_eq, str_lt, starts_with, equal_fold, to_lower}

pub str_eq_sound : (s t : Bytes) → str_eq s t ≡ true → s ≡ t
unfolding str_eq
str_eq_sound [] [] h = refl
str_eq_sound [] (b ∷ t) h = ground arith
str_eq_sound (a ∷ s) [] h = ground arith
str_eq_sound (a ∷ s) (b ∷ t) h = ground (arith, str_eq_sound s t)

pub str_eq_refl : (s : Bytes) → str_eq s s ≡ true
unfolding str_eq
str_eq_refl [] = refl
str_eq_refl (a ∷ s) = ground (arith, str_eq_refl s)

-- `ground` is given this at each pair of texts that is compared.
pub str_eq_iff : (s t : Bytes) → (str_eq s t ≡ true) ↔ (s ≡ t)
str_eq_iff s t = (str_eq_sound s t, λ e. subst_right e)
  where
    subst_right : s ≡ t → str_eq s t ≡ true
    subst_right e = ground (arith, str_eq_refl s)

pub str_lt_irrefl : (s : Bytes) → str_lt s s ≡ false
unfolding str_lt
str_lt_irrefl [] = refl
str_lt_irrefl (a ∷ s) = ground (arith, str_lt_irrefl s)

pub str_lt_asymm : (s t : Bytes) → str_lt s t ≡ true → str_lt t s ≡ false
unfolding str_lt
str_lt_asymm [] [] h = ground arith
str_lt_asymm [] (b ∷ t) h = refl
str_lt_asymm (a ∷ s) [] h = ground arith
str_lt_asymm (a ∷ s) (b ∷ t) h = ground (arith, str_lt_asymm s t)

pub str_lt_total : (s t : Bytes) → str_lt s t ≡ false → str_lt t s ≡ false → s ≡ t
unfolding str_lt
str_lt_total [] [] h g = refl
str_lt_total [] (b ∷ t) h g = ground arith
str_lt_total (a ∷ s) [] h g = ground arith
str_lt_total (a ∷ s) (b ∷ t) h g = ground (arith, str_lt_total s t)

pub starts_with-append : (p s : Bytes) → starts_with p (p ++ s) ≡ true
unfolding starts_with
starts_with-append [] s = refl
starts_with-append (c ∷ p) s = ground (arith, starts_with-append p s)

pub equal_fold_refl : (s : Bytes) → equal_fold s s ≡ true
unfolding equal_fold
equal_fold_refl s = str_eq_refl (to_lower s)
