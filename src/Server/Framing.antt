-- ===== src/Server/Framing.antt =====
-- How a stream of bytes falls into messages.
use sipproxy.Message.{Message, new_message, get_header_int}
use sipproxy.Message.Wire.Fuel.{parse_message-Completes, read_line-shorter}
use sipproxy.Message.Wire.{
  read_line, parse_line, parse_lines, skip_white_space, read_body, parse_body, parse_message,
}
use sipproxy.Prelude.{
  ℕ, zero, suc, ◌<◌, ◌≡◌, subst, inl, inr, Bool, false, [], ◌∷◌, arith, Option-cases, length,
  end_of_input, Result, ok, err, ◌>>=◌, ◌≤◌, refl, ap, true, List, out_of_fuel, Completes, ◌≢◌, ltb,
  Bool-cases, take, drop, Error, ℤ, pos, negsuc,
}
use sipproxy.Server.{receive_messages}
use sipproxy.Text.{Bytes, codes, is_space}

-- What parse_lines does with a line, where the rest of the lines shortens the input.
line_parsed :
    (f : ℕ) (rest : Bytes) (read : Message × Bytes) (next : Result Message)
    → ((m : Message) → parse_lines f false m rest ≡ ok read → length read.1 < length rest)
    → elim next [ ok m ↦ parse_lines f false m rest | err e ↦ err e ] ≡ ok read
    → length read.1 < length rest
line_parsed f rest read (ok m) ih h = ih m h
line_parsed f rest read (err e) ih h = cc

parse_lines-shorter :
    (f : ℕ) (first : Bool) (m : Message) (s : Bytes) (read : Message × Bytes)
    → parse_lines f first m s ≡ ok read
    → length read.1 < length s
unfolding parse_lines
parse_lines-shorter zero first m s read h = cc
parse_lines-shorter (suc f) first m s read h = elim (Option-cases (read_line s)) [
  | inl e ↦
      let no_line : ◌≡◌ {A = Result (Message × Bytes)} (err end_of_input) (ok read) =
        rw (parse_lines, e) at h in
      cc
  | inr (([], rest), e) ↦
      let done : ◌≡◌ {A = Result (Message × Bytes)} (ok (m, rest)) (ok read) =
        rw (parse_lines, e) at h in
      let same : (m, rest) ≡ read = cc in
      subst (λ (r : Message × Bytes). length r.1 < length s) same (read_line-shorter s [] rest e)
  | inr ((c ∷ line, rest), e) ↦
      let more : length read.1 < length rest =
        line_parsed f rest read (parse_line first (c ∷ line) m)
          (λ m'. parse_lines-shorter f false m' rest read) (rw (parse_lines, e) at h) in
      omega (arith, more, read_line-shorter s (c ∷ line) rest e)
]

skip_white_space-shorter : (s : Bytes) → length (skip_white_space s) ≤ length s
unfolding skip_white_space
skip_white_space-shorter [] = omega arith
skip_white_space-shorter (c ∷ s) = elim (Bool-cases (is_space c)) [
  | inl e ↦ rw (skip_white_space, e) (omega (arith, skip_white_space-shorter s))
  | inr e ↦ rw (skip_white_space, e) (omega arith)
]

drop-shorter : (n : ℕ) (s : Bytes) → length (drop n s) ≤ length s
drop-shorter zero s = omega arith
drop-shorter (suc n) [] = omega arith
drop-shorter (suc n) (c ∷ s) = omega (arith, drop-shorter n s)

read_body-shorter :
    (n : ℤ) (m : Message) (s : Bytes) (r : Message × Bytes)
    → read_body n m s ≡ ok r
    → length r.1 ≤ length s
unfolding read_body
read_body-shorter (negsuc n) m s r h = cc
read_body-shorter (pos n) m s r h = elim (Bool-cases (ltb (length s) n)) [
  | inl e ↦
      let short : ◌≡◌ {A = Result (Message × Bytes)} (err end_of_input) (ok r) =
        rw (read_body, e) at h in
      cc
  | inr e ↦
      let whole : ◌≡◌ {A = Result (Message × Bytes)} (ok (record m { body = take n s }, drop n s))
          (ok r) =
        rw (read_body, e) at h in
      let same : (record m { body = take n s }, drop n s) ≡ r = cc in
      subst (λ (x : Message × Bytes). length x.1 ≤ length s) same (drop-shorter n s)
]

body_read :
    (n : Result ℤ) (m : Message) (s : Bytes) (r : Message × Bytes)
    → (do k ← n; read_body k m s) ≡ ok r
    → length r.1 ≤ length s
body_read (ok n) m s r h = read_body-shorter n m s r h
body_read (err e) m s r h = cc

message_read :
    (read : Result (Message × Bytes)) (s : Bytes) (r : Message × Bytes)
    → ((x : Message × Bytes) → read ≡ ok x → length x.1 < length s)
    → (do x ← read; parse_body x.0 x.1) ≡ ok r
    → length r.1 < length s
unfolding parse_body
message_read (ok x) s r k h =
    omega (arith, k x refl, body_read (get_header_int x.0 (codes "Content-Length")) x.0 x.1 r h)
message_read (err e) s r k h = cc

parse_message-shorter :
    (s : Bytes) (r : Message × Bytes) → parse_message s ≡ ok r → length r.1 < length s
unfolding parse_message
parse_message-shorter s r h =
    let start : Bytes = skip_white_space s in
    omega (
      arith,
      skip_white_space-shorter s,
      message_read (parse_lines (suc (length start)) true new_message start) start r
          (λ x. parse_lines-shorter (suc (length start)) true new_message start x) h,
    )

-- Every message takes a byte at least.
receive_more :
    (s : Bytes) (f g : ℕ) (o : Result (Message × Bytes))
    → ((r : Message × Bytes) → o ≡ ok r → receive_messages f r.1 ≡ receive_messages g r.1)
    → ◌≡◌ {A = List Message × Error}
        (elim o [
          | err e ↦ ([], e)
          | ok r ↦ (r.0 ∷ (receive_messages f r.1).0, (receive_messages f r.1).1)
        ])
        (elim o [
          | err e ↦ ([], e)
          | ok r ↦ (r.0 ∷ (receive_messages g r.1).0, (receive_messages g r.1).1)
        ])
receive_more s f g (err e) k = refl
receive_more s f g (ok r) k = ap (λ (x : List Message × Error). (r.0 ∷ x.0, x.1)) (k r refl)

-- Any two fuels above the length of the input give the same messages and the same error.
pub receive_messages_enough :
    (f g : ℕ) (s : Bytes)
    → length s < f
    → length s < g
    → receive_messages f s ≡ receive_messages g s
unfolding receive_messages
receive_messages_enough zero g s h k = absurd (omega (arith, h))
receive_messages_enough (suc f) zero s h k = absurd (omega (arith, k))
receive_messages_enough (suc f) (suc g) s h k = receive_more s f g (parse_message s) (λ r e.
    (let less : length r.1 < length s = parse_message-shorter s r e in
      receive_messages_enough f g r.1 (omega (arith, less, h)) (omega (arith, less, k))))

receive_step :
    (f : ℕ) (s : Bytes) (o : Result (Message × Bytes))
    → Completes o
    → ((r : Message × Bytes) → o ≡ ok r → (receive_messages f r.1).1 ≢ out_of_fuel)
    → (let received : List Message × Error = elim o [
      | err e ↦ ([], e)
      | ok r ↦ (r.0 ∷ (receive_messages f r.1).0, (receive_messages f r.1).1)
    ] in
        received.1)
      ≢ out_of_fuel
receive_step f s (err e) h k = λ p. h (ap err p)
receive_step f s (ok r) h k = k r refl

never_out_of_fuel : (f : ℕ) (s : Bytes) → length s < f → (receive_messages f s).1 ≢ out_of_fuel
unfolding receive_messages
never_out_of_fuel zero s h = absurd (omega (arith, h))
never_out_of_fuel (suc f) s h =
    receive_step f s (parse_message s) (parse_message-Completes s)
      (λ r e. never_out_of_fuel f r.1 (omega (arith, h, parse_message-shorter s r e)))

-- The receiving loop ends on every input, and so does the loop over the lines of a message that runs
-- in it: with a fuel above the length of the input neither runs out of its rounds, so what ends the
-- receiving is an error of the reader or of a message; and any two such fuels give the same messages
-- and the same error.
pub receive_messages_ends :
    (f g : ℕ) (s : Bytes)
    → length s < f
    → length s < g
    → ((receive_messages f s).1 ≢ out_of_fuel) × (receive_messages f s ≡ receive_messages g s)
receive_messages_ends f g s h k = (never_out_of_fuel f s h, receive_messages_enough f g s h k)
