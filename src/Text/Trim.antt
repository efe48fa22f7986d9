-- ===== src/Text/Trim.antt =====
-- Trimming leaves a text without white space as it is.
use mathlib.Core.List.{reverse-cons, reverse-reverse}
use sipproxy.Prelude.{◌≡◌, refl, true, [], ◌∷◌, reverse, arith}
use sipproxy.Text.{Bytes, solid, drop_space, trim_space}
use sipproxy.Text.Cut.{solid-append}

drop_space-solid : (s : Bytes) → solid s ≡ true → drop_space s ≡ s
unfolding drop_space
drop_space-solid [] h = refl
drop_space-solid (x ∷ s) h = ground arith

reverse-solid : (s : Bytes) → solid s ≡ true → solid (reverse s) ≡ true
reverse-solid [] h = refl
reverse-solid (x ∷ s) h =
    let rest = reverse-solid s (ground arith) in
    rw (reverse-cons x s) (solid-append (reverse s) (x ∷ []) rest (ground arith))

pub trim_space-solid : (s : Bytes) → solid s ≡ true → trim_space s ≡ s
unfolding trim_space
trim_space-solid s h =
    rw (drop_space-solid s h, drop_space-solid (reverse s) (reverse-solid s h)) (reverse-reverse s)
