-- ===== src/Text/Number/RoundTrip.antt =====
-- An int is read back from its decimal digits.
use native.Mathlib.Nat.{pow-suc}
use native.Mathlib.Numerals.{add-one}
use sipproxy.Prelude.{
  ℕ, zero, suc, ◌^◌, ◌<◌, ◌≡◌, true, All, ℤ, pos, negsuc, ◌+◌, ◌-◌, ◌*◌, ◌/◌, ◌%◌, refl, ap, ◌∙◌,
  inl, inr, [], ◌∷◌, arith, ltb, lt→ltb, Bool-cases, ◌≢◌, Bool, false, none, ◌==◌, ok,
}
use sipproxy.Text.{Bytes, lacks, solid}
use sipproxy.Text.Number.{is_digit, scan, digits, number, atoi_full, atoi, itoa, signed, unsigned}

-- Go's int has 64 bits.
abbrev pub IsInt : ℤ → Type 0
IsInt (pos n) = n < 9223372036854775808
IsInt (negsuc n) = n < 9223372036854775808

abbrev AllDigits : Bytes → Type 0
AllDigits = All (λ c. is_digit c ≡ true)

scan_digit :
    (m n : ℕ) (out : Bytes)
    → m * 10 + n % 10 ≡ n
    → n < 18446744073709551616
    → scan m ((b'0' + n % 10) ∷ out) ≡ scan n out
unfolding scan
scan_digit m n out e l =
    let same : m * 10 + (b'0' + n % 10 - b'0') ≡ n = omega arith in
    let small : ltb n 18446744073709551616 ≡ true = lt→ltb _ _ l in
    let digit : is_digit (b'0' + n % 10) ≡ true = ground arith in rw (digit, same, small)

scan-digits :
    (f n : ℕ) (out : Bytes)
    → n < 10 ^ f
    → n < 18446744073709551616
    → scan 0 (digits f n out) ≡ scan n out
unfolding digits
scan-digits zero n out h l = ap (λ k. scan k out) (omega arith)
scan-digits (suc f) n out h l = elim (Bool-cases (ltb n 10)) [
  | inl small ↦ rw small (scan_digit 0 n out (ground arith) l)
  | inr large ↦
      let fewer : n / 10 < 10 ^ f = omega (arith, pow-suc 10 f) in
      rw large
        (scan-digits f (n / 10) _ fewer (omega arith) ∙ scan_digit (n / 10) n out (omega arith) l)
]

scan_itoa : (n : ℕ) → n < 18446744073709551616 → scan 0 (digits 20 n []) ≡ number n
scan_itoa n l = scan-digits 20 n [] (omega arith) l ∙ unfold scan in refl

digits-AllDigits : (f n : ℕ) (out : Bytes) → AllDigits out → AllDigits (digits f n out)
unfolding digits
digits-AllDigits zero n out h = h
digits-AllDigits (suc f) n out h = elim (Bool-cases (ltb n 10)) [
  | inl small ↦ rw small (ground arith, h)
  | inr large ↦ rw large (digits-AllDigits f (n / 10) _ (ground arith, h))
]

digits-ne-nil : (f n : ℕ) (out : Bytes) → out ≢ [] → digits f n out ≢ []
unfolding digits
digits-ne-nil zero n out h = h
digits-ne-nil (suc f) n out h = elim (Bool-cases (ltb n 10)) [
  | inl small ↦ rw small (cc)
  | inr large ↦ rw large (digits-ne-nil f (n / 10) _ (cc))
]

unsigned-digits :
    (negative : Bool) (s : Bytes) → s ≢ [] → unsigned negative s ≡ signed negative (scan 0 s)
unfolding unsigned
unsigned-digits negative [] h = absurd (h refl)
unsigned-digits negative (c ∷ s) h = refl

atoi_full-AllDigits : (s : Bytes) → s ≢ [] → AllDigits s → atoi_full s ≡ signed false (scan 0 s)
unfolding atoi_full
atoi_full-AllDigits [] n h = absurd (n refl)
atoi_full-AllDigits (c ∷ s) n h =
    let minus : (c == b'-') ≡ false = ground (arith, h.0) in
    let plus : (c == b'+') ≡ false = ground (arith, h.0) in rw (minus, plus)

abbrev shown : ℕ → Bytes
shown n = digits 20 n []

shown-ne-nil : (n : ℕ) → shown n ≢ []
unfolding digits
shown-ne-nil n = elim (Bool-cases (ltb n 10)) [
  | inl small ↦ rw small (cc)
  | inr large ↦ rw large (digits-ne-nil 19 (n / 10) _ (cc))
]

-- Atoi reads back what %d prints, for every int.
pub atoi_full-itoa : (z : ℤ) → IsInt z → atoi_full (itoa z) ≡ (z, none)
unfolding itoa
atoi_full-itoa (pos n) h =
    atoi_full-AllDigits (shown n) (shown-ne-nil n) (digits-AllDigits 20 n [] tt)
    ∙ rw (scan_itoa n (omega arith), lt→ltb _ _ h)
atoi_full-itoa (negsuc n) h =
    unfold atoi_full in
    unsigned-digits true (shown (n + 1)) (shown-ne-nil (n + 1))
    ∙ rw (scan_itoa (n + 1) (omega arith), add-one, lt→ltb _ _ h)

pub atoi-itoa : (z : ℤ) → IsInt z → atoi (itoa z) ≡ ok z
unfolding atoi
atoi-itoa z h = rw (atoi_full-itoa z h)

-- A printed number holds neither white space nor any byte but digits and a minus sign.
AllDigits-lacks : (c : ℕ) (s : Bytes) → is_digit c ≡ false → AllDigits s → lacks c s ≡ true
AllDigits-lacks c [] d h = refl
AllDigits-lacks c (x ∷ s) d h = ground (arith, h.0, AllDigits-lacks c s d h.1)

AllDigits-solid : (s : Bytes) → AllDigits s → solid s ≡ true
AllDigits-solid [] h = refl
AllDigits-solid (x ∷ s) h = ground (arith, h.0, AllDigits-solid s h.1)

pub lacks-itoa :
    (c : ℕ) (z : ℤ) → is_digit c ≡ false → (c == b'-') ≡ false → lacks c (itoa z) ≡ true
unfolding itoa
lacks-itoa c (pos n) d m = AllDigits-lacks c _ d (digits-AllDigits 20 n [] tt)
lacks-itoa c (negsuc n) d m =
    ground (arith, AllDigits-lacks c _ d (digits-AllDigits 20 (n + 1) [] tt))

pub itoa-solid : (z : ℤ) → solid (itoa z) ≡ true
unfolding itoa
itoa-solid (pos n) = AllDigits-solid _ (digits-AllDigits 20 n [] tt)
itoa-solid (negsuc n) = AllDigits-solid _ (digits-AllDigits 20 (n + 1) [] tt)

pub itoa-ne-nil : (z : ℤ) → itoa z ≢ []
unfolding itoa
itoa-ne-nil (pos n) = shown-ne-nil n
itoa-ne-nil (negsuc n) = cc
