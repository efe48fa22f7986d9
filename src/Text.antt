-- ===== src/Text.antt =====
-- The functions of Go's package strings that the source calls, on texts as lists of bytes. Case
-- and white space are those of ASCII.
pub mod Equality
pub mod Cut
pub mod Split
pub mod Trim
pub mod Number
pub mod Format
use Prim.Native.Char.{code}
use sipproxy.Prelude.{
  ℕ, ◌+◌, ◌-◌, String, Bool, true, false, not, ◌&&◌, ◌||◌, List, [], ◌∷◌, ◌++◌, map, reverse,
  Option, none, some, ltb, leb, ◌==◌, if◌then◌else◌,
}

abbrev pub Bytes : Type 0
Bytes = List ℕ

-- The bytes of an ASCII literal.
abbrev pub codes : String → Bytes
codes String.[] = []
codes (String.◌∷◌ c s) = code c ∷ codes s

-- s == t
unfoldable pub str_eq : Bytes → Bytes → Bool
str_eq [] [] = true
str_eq (a ∷ s) (b ∷ t) = (a == b) && str_eq s t
str_eq _ _ = false

-- s < t, byte by byte
unfoldable pub str_lt : Bytes → Bytes → Bool
str_lt _ [] = false
str_lt [] (b ∷ t) = true
str_lt (a ∷ s) (b ∷ t) = ltb a b || ((a == b) && str_lt s t)

-- strings.HasPrefix(s, prefix), the prefix first
unfoldable pub starts_with : Bytes → Bytes → Bool
starts_with [] s = true
starts_with (p ∷ ps) [] = false
starts_with (p ∷ ps) (c ∷ s) = (p == c) && starts_with ps s

-- s[0:pos] and s[pos+1:] at pos = strings.IndexByte(s, c), `none` where that is -1
abbrev pub cons_first : ℕ → Option (Bytes × Bytes) → Option (Bytes × Bytes)
cons_first x none = none
cons_first x (some (a, b)) = some (x ∷ a, b)

unfoldable pub cut : ℕ → Bytes → Option (Bytes × Bytes)
cut c [] = none
cut c (x ∷ s) = let later = cut c s in if x == c then some ([], s) else cons_first x later

abbrev pub lacks : ℕ → Bytes → Bool
lacks c [] = true
lacks c (x ∷ s) = not (x == c) && lacks c s

abbrev pub is_space : ℕ → Bool
is_space c = (leb 9 c && leb c 13) || (c == 32)

-- no white space
abbrev pub solid : Bytes → Bool
solid [] = true
solid (x ∷ s) = not (is_space x) && solid s

unfoldable pub drop_space : Bytes → Bytes
drop_space [] = []
drop_space (x ∷ s) = let rest = drop_space s in if is_space x then rest else x ∷ s

-- strings.TrimSpace
unfoldable pub trim_space : Bytes → Bytes
unfolding drop_space
trim_space s = reverse (drop_space (reverse (drop_space s)))

unfoldable pub lower : ℕ → ℕ
lower c = if leb b'A' c && leb c b'Z' then c + 32 else c

unfoldable pub upper : ℕ → ℕ
upper c = if leb b'a' c && leb c b'z' then c - 32 else c

-- strings.ToLower, strings.ToUpper
unfoldable pub to_lower : Bytes → Bytes
unfolding lower
to_lower = map lower

unfoldable pub to_upper : Bytes → Bytes
unfolding upper
to_upper = map upper

-- strings.EqualFold
unfoldable pub equal_fold : Bytes → Bytes → Bool
unfolding to_lower str_eq
equal_fold s t = str_eq (to_lower s) (to_lower t)

abbrev pub first_onto : ℕ → List Bytes → List Bytes
first_onto x [] = (x ∷ []) ∷ []
first_onto x (p ∷ ps) = (x ∷ p) ∷ ps

-- strings.Split with a separator of one byte
unfoldable pub split : Bytes → ℕ → List Bytes
split [] c = [] ∷ []
split (x ∷ s) c = let rest = split s c in if x == c then [] ∷ rest else first_onto x rest

-- strings.Join
unfoldable pub join : List Bytes → Bytes → Bytes
join [] sep = []
join (p ∷ []) sep = p
join (p ∷ q ∷ ps) sep = p ++ (sep ++ join (q ∷ ps) sep)

unfoldable pub split_space : Bytes → List Bytes
split_space [] = [] ∷ []
split_space (x ∷ s) =
    let rest = split_space s in if is_space x then [] ∷ rest else first_onto x rest

unfoldable pub nonempty : List Bytes → List Bytes
nonempty [] = []
nonempty ([] ∷ ps) = nonempty ps
nonempty ((x ∷ p) ∷ ps) = (x ∷ p) ∷ nonempty ps

-- strings.Fields
unfoldable pub fields : Bytes → List Bytes
unfolding split_space nonempty
fields s = nonempty (split_space s)
