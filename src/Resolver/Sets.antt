-- ===== src/Resolver/Sets.antt =====
-- Lists of texts as sets: membership in a difference and in a concatenation.
use sipproxy.Prelude.{◌≡◌, refl, inl, inr, not, ◌&&◌, ◌||◌, List, [], ◌∷◌, ◌++◌, arith, Bool-cases}
use sipproxy.Resolver.{in_str_array, str_array_sub}
use sipproxy.Text.{Bytes, str_eq}
use sipproxy.Text.Equality.{str_eq_sound, str_eq_refl}

pub in_str_array-sub :
    (x : Bytes) (ss bs : List Bytes)
    → in_str_array x (str_array_sub ss bs) ≡ (in_str_array x ss && not (in_str_array x bs))
unfolding in_str_array str_array_sub
in_str_array-sub x [] bs = refl
in_str_array-sub x (a ∷ ss) bs = elim (Bool-cases (str_eq a x)) [
  | inl e ↦
      let same : a ≡ x = str_eq_sound a x e in
      rw same (ground (arith, in_str_array-sub x ss bs, str_eq_refl x))
  | inr e ↦ ground (arith, e, in_str_array-sub x ss bs)
]

pub in_str_array-append :
    (x : Bytes) (ss bs : List Bytes)
    → in_str_array x (ss ++ bs) ≡ (in_str_array x ss || in_str_array x bs)
unfolding in_str_array
in_str_array-append x [] bs = refl
in_str_array-append x (a ∷ ss) bs = ground (arith, in_str_array-append x ss bs)

-- The same texts, in any order and as often as one likes.
abbrev pub SameTexts : List Bytes → List Bytes → Type 0
SameTexts ss bs = (x : Bytes) → in_str_array x ss ≡ in_str_array x bs
