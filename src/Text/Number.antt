-- ===== src/Text/Number.antt =====
-- strconv.Atoi, and the verb %d of package fmt for an int.
pub mod RoundTrip
use sipproxy.Prelude.{
  ℕ, zero, suc, ◌+◌, ◌-◌, ◌*◌, ◌/◌, ◌%◌, Bool, true, false, ◌&&◌, Option, none, some, [], ◌∷◌, ltb,
  leb, ◌==◌, if◌then◌else◌, Error, malformed_number, number_out_of_range, Result, ok, err, ℤ, pos,
  negsuc, Completes, if-keeps, arith,
}
use sipproxy.Text.{Bytes}

-- ParseUint stops at the first byte that is no digit or that makes the number too large.
pub data Scan : Type 0 where
  number : ℕ → Scan
  no_digit : Scan
  too_large : Scan

abbrev pub is_digit : ℕ → Bool
is_digit c = leb b'0' c && leb c b'9'

unfoldable pub scan : ℕ → Bytes → Scan
scan n [] = number n
scan n (c ∷ s) =
    let m = n * 10 + (c - b'0') in
    let rest = scan m s in
    if is_digit c then (if ltb m 18446744073709551616 then rest else too_large) else no_digit

-- The value that Atoi returns, and its error: out of range it is the nearest int, and for what is
-- no number it is 0.
abbrev signed : Bool → Scan → ℤ × Option Error
signed negative no_digit = (pos 0, some malformed_number)
signed false too_large = (pos 9223372036854775807, some number_out_of_range)
signed true too_large = (negsuc 9223372036854775807, some number_out_of_range)
signed false (number n) =
    if ltb n 9223372036854775808
    then (pos n, none)
    else (pos 9223372036854775807, some number_out_of_range)
signed true (number zero) = (pos 0, none)
signed true (number (suc n)) =
    if ltb n 9223372036854775808
    then (negsuc n, none)
    else (negsuc 9223372036854775807, some number_out_of_range)

unsigned : Bool → Bytes → ℤ × Option Error
unsigned negative [] = (pos 0, some malformed_number)
unsigned negative (c ∷ s) = signed negative (scan 0 (c ∷ s))

unfoldable pub atoi_full : Bytes → ℤ × Option Error
unfolding scan unsigned
atoi_full [] = (pos 0, some malformed_number)
atoi_full (c ∷ s) =
    if c == b'-'
    then unsigned true s
    else if c == b'+'
    then unsigned false s
    else unsigned false (c ∷ s)

abbrev to_result : ℤ × Option Error → Result ℤ
to_result (n, none) = ok n
to_result (n, some e) = err e

-- strconv.Atoi where the caller gives up on an error
unfoldable pub atoi : Bytes → Result ℤ
unfolding atoi_full
atoi s = to_result (atoi_full s)

signed-Completes : (negative : Bool) (r : Scan) → Completes (to_result (signed negative r))
signed-Completes negative no_digit = λ p. cc
signed-Completes false too_large = λ p. cc
signed-Completes true too_large = λ p. cc
signed-Completes false (number n) = ground arith
signed-Completes true (number zero) = λ p. cc
signed-Completes true (number (suc n)) = ground arith

unsigned-Completes : (negative : Bool) (s : Bytes) → Completes (to_result (unsigned negative s))
unfolding unsigned
unsigned-Completes negative [] = λ p. cc
unsigned-Completes negative (c ∷ s) = signed-Completes negative (scan 0 (c ∷ s))

pub atoi-Completes : (s : Bytes) → Completes (atoi s)
unfolding atoi atoi_full
atoi-Completes [] = λ p. cc
atoi-Completes (c ∷ s) =
    if-keeps (λ x. Completes (to_result x)) (c == b'-') (unsigned true s)
      (if c == b'+' then unsigned false s else unsigned false (c ∷ s)) (unsigned-Completes true s)
      (if-keeps (λ x. Completes (to_result x)) (c == b'+') (unsigned false s)
        (unsigned false (c ∷ s)) (unsigned-Completes false s) (unsigned-Completes false (c ∷ s)))

-- Twenty digits hold every number below 2^64.
unfoldable pub digits : ℕ → ℕ → Bytes → Bytes
digits zero n out = out
digits (suc f) n out =
    let d = (b'0' + n % 10) ∷ out in let rest = digits f (n / 10) d in if ltb n 10 then d else rest

-- %d
unfoldable pub itoa : ℤ → Bytes
unfolding digits
itoa (pos n) = digits 20 n []
itoa (negsuc n) = b'-' ∷ digits 20 (n + 1) []
