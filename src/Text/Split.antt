-- ===== src/Text/Split.antt =====
-- Splitting and joining undo each other.
use sipproxy.Prelude.{ℕ, ◌≡◌, refl, ◌≢◌, true, List, [], ◌∷◌, ◌++◌, arith, ◌==◌, if◌then◌else◌}
use sipproxy.Text.{Bytes, lacks, solid, split, join, fields, first_onto, split_space}

split-ne-nil : (s : Bytes) (c : ℕ) → split s c ≢ []
unfolding split
split-ne-nil [] c h = cc
split-ne-nil (x ∷ s) c h = ground (arith, split-ne-nil s c)

-- Joining the parts of a split gives the text back.
pub join-split : (s : Bytes) (c : ℕ) → join (split s c) (c ∷ []) ≡ s
unfolding split join
join-split [] c = refl
join-split (x ∷ s) c = split_step (split s c) (split-ne-nil s c) (join-split s c)
  where
    split_step :
        (parts : List Bytes)
        → parts ≢ []
        → join parts (c ∷ []) ≡ s
        → join (if x == c then [] ∷ parts else first_onto x parts) (c ∷ []) ≡ x ∷ s
    split_step [] h e = absurd (h refl)
    split_step (p ∷ []) h e = ground arith
    split_step (p ∷ q ∷ ps) h e = ground arith

pub split-lacks : (s : Bytes) (c : ℕ) → lacks c s ≡ true → split s c ≡ s ∷ []
unfolding split
split-lacks [] c h = refl
split-lacks (x ∷ s) c h = ground (arith, split-lacks s c)

pub split-append : (a b : Bytes) (c : ℕ) → lacks c a ≡ true → split (a ++ c ∷ b) c ≡ a ∷ split b c
unfolding split
split-append [] b c h = ground arith
split-append (x ∷ a) b c h = ground (arith, split-append a b c)

split_space-solid : (s : Bytes) → solid s ≡ true → split_space s ≡ s ∷ []
unfolding split_space
split_space-solid [] h = refl
split_space-solid (x ∷ s) h = ground (arith, split_space-solid s)

split_space-append :
    (a b : Bytes) → solid a ≡ true → split_space (a ++ b' ' ∷ b) ≡ a ∷ split_space b
unfolding split_space
split_space-append [] b h = refl
split_space-append (x ∷ a) b h = ground (arith, split_space-append a b)

-- A solid text is one field, and a space behind one ends it.
pub fields-solid : (a : Bytes) → a ≢ [] → solid a ≡ true → fields a ≡ a ∷ []
unfolding fields
fields-solid [] n h = absurd (n refl)
fields-solid (x ∷ a) n h = rw (split_space-solid (x ∷ a) h)

pub fields-append : (a b : Bytes) → a ≢ [] → solid a ≡ true → fields (a ++ b' ' ∷ b) ≡ a ∷ fields b
unfolding fields
fields-append [] b n h = absurd (n refl)
fields-append (x ∷ a) b n h = rw (split_space-append (x ∷ a) b h)
