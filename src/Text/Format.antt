-- ===== src/Text/Format.antt =====
-- fmt.Fprintf(w, s) with no operands: `s` is the format, and a percent sign starts a directive.
-- An argument index in brackets and a width of a million or more are not modelled.
use sipproxy.Prelude.{ℕ, ◌≡◌, refl, Bool, true, ◌||◌, [], ◌∷◌, ◌++◌, arith, ◌==◌, if◌then◌else◌}
use sipproxy.Text.{Bytes, codes, lacks}
use sipproxy.Text.Number.{is_digit}

pub data Mode : Type 0 where
  plain in_flags in_width after_width at_precision in_precision at_verb : Mode

is_flag : ℕ → Bool
is_flag c = (c == b'#') || (c == b'0') || (c == b'+') || (c == b'-') || (c == b' ')

-- A verb without its operand.
verb : ℕ → Mode × Bytes
verb c = if c == b'%' then (plain, c ∷ []) else (plain, codes "%!" ++ (c ∷ codes "(MISSING)"))

precision_or_verb : ℕ → Mode × Bytes
precision_or_verb c = if c == b'.' then (at_precision, []) else verb c

-- What one byte of the format writes, and where it leaves the directive.
step : Mode → ℕ → Mode × Bytes
unfolding is_flag verb precision_or_verb
step plain c = if c == b'%' then (in_flags, []) else (plain, c ∷ [])
step in_flags c =
    if is_flag c
    then (in_flags, [])
    else if c == b'*'
    then (after_width, codes "%!(BADWIDTH)")
    else if is_digit c
    then (in_width, [])
    else precision_or_verb c
step in_width c = if is_digit c then (in_width, []) else precision_or_verb c
step after_width c = precision_or_verb c
step at_precision c =
    if c == b'*'
    then (at_verb, codes "%!(BADPREC)")
    else if is_digit c
    then (in_precision, [])
    else verb c
step in_precision c = if is_digit c then (in_precision, []) else verb c
step at_verb c = verb c

-- A directive that the format ends in has no verb.
finish : Mode → Bytes
finish plain = []
finish _ = codes "%!(NOVERB)"

run : Mode → Bytes → Bytes
run m [] = finish m
run m (c ∷ s) = let (m', out) = step m c in out ++ run m' s

unfoldable pub printf : Bytes → Bytes
unfolding run step finish
printf s = run plain s

run_plain : (s : Bytes) → lacks b'%' s ≡ true → run plain s ≡ s
unfolding run step finish
run_plain [] h = refl
run_plain (c ∷ s) h = ground (arith, run_plain s)

-- A format without a percent sign is written as it stands.
pub printf-lacks : (s : Bytes) → lacks b'%' s ≡ true → printf s ≡ s
unfolding printf
printf-lacks s h = run_plain s h
