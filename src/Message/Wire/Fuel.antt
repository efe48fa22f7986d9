-- ===== src/Message/Wire/Fuel.antt =====
-- Reading a message takes no more rounds than it is given: every line takes a byte at least, and none
-- of the functions that read a line stops for want of fuel.
use sipproxy.Address.{parse_addr_spec}
use sipproxy.Message.{
  HeaderValue, Header, Message, new_message, find_header, is_same_header, get_header_value, text_of,
  get_header_int,
}
use sipproxy.Message.Wire.{
  strip_return, read_line, request_of_fields, status_of_fields, is_request_line, parse_request_line,
  parse_status_line, parse_first_line, parse_header_line, parse_line, parse_lines, skip_white_space,
  read_body, parse_body, parse_message,
}
use sipproxy.Prelude.{
  ℕ, zero, suc, ◌<◌, ◌≡◌, inl, inr, Bool, true, false, Option, none, some, List, [], ◌∷◌, ◌++◌,
  arith, Option-cases, length, length-append, if-keeps, ltb, Result, ok, err, Completes,
  >>=-Completes, ℤ, pos, negsuc,
}
use sipproxy.SipUri.{parse_sip_uri}
use sipproxy.Text.{Bytes, codes, cut, fields}
use sipproxy.Text.Cut.{cut_sound}
use sipproxy.Text.Number.{atoi, atoi-Completes}

pub read_line-shorter :
    (s line rest : Bytes) → read_line s ≡ some (line, rest) → length rest < length s
unfolding read_line
read_line-shorter s line rest h = elim (Option-cases (cut b'\n' s)) [
  | inl e ↦
      let no_line : ◌≡◌ {A = Option (Bytes × Bytes)} none (some (line, rest)) =
        rw (read_line, e) at h in
      cc
  | inr ((a, b), e) ↦
      let found : ◌≡◌ {A = Option (Bytes × Bytes)} (some (strip_return a, b)) (some (line, rest)) =
        rw (read_line, e) at h in
      let same : b ≡ rest = cc in
      let parts : s ≡ a ++ b'\n' ∷ b = (cut_sound b'\n' s a b e).0 in
      rw parts (rw (length-append a (b'\n' ∷ b), same) (omega arith))
]

parse_addr_spec-Completes : (s : Bytes) → Completes (parse_addr_spec s)
unfolding parse_addr_spec parse_sip_uri
parse_addr_spec-Completes s = ground arith

request_of_fields-Completes : (words : List Bytes) → Completes (request_of_fields words)
unfolding request_of_fields
request_of_fields-Completes [] = λ p. cc
request_of_fields-Completes (a ∷ []) = λ p. cc
request_of_fields-Completes (a ∷ b ∷ []) = λ p. cc
request_of_fields-Completes (method ∷ uri ∷ version ∷ []) =
    >>=-Completes (parse_addr_spec uri) _ (parse_addr_spec-Completes uri) (λ a p. cc)
request_of_fields-Completes (a ∷ b ∷ c ∷ d ∷ words) = λ p. cc

status_of_fields-Completes : (words : List Bytes) → Completes (status_of_fields words)
unfolding status_of_fields
status_of_fields-Completes [] = λ p. cc
status_of_fields-Completes (a ∷ []) = λ p. cc
status_of_fields-Completes (a ∷ b ∷ []) = λ p. cc
status_of_fields-Completes (version ∷ code ∷ word ∷ words) =
    >>=-Completes (atoi code) _ (atoi-Completes code) (λ n p. cc)

parse_line-Completes :
    (first : Bool) (line : Bytes) (m : Message) → Completes (parse_line first line m)
unfolding parse_line parse_first_line parse_header_line parse_request_line parse_status_line
parse_line-Completes true line m =
    if-keeps Completes (is_request_line line) _ _
      (>>=-Completes (parse_request_line line) _ (request_of_fields-Completes (fields line))
        (λ r p. cc))
      (>>=-Completes (parse_status_line line) _ (status_of_fields-Completes (fields line))
        (λ r p. cc))
parse_line-Completes false line m = elim (Option-cases (cut b':' line)) [
  | inl e ↦ rw (parse_line, parse_header_line, e) (λ p. cc)
  | inr (parts, e) ↦ rw (parse_line, parse_header_line, e) (λ p. cc)
]

-- What parse_lines does with a line that is read.
line-Completes :
    (f : ℕ) (rest : Bytes) (next : Result Message)
    → Completes next
    → ((m : Message) → Completes (parse_lines f false m rest))
    → Completes (elim next [ ok m ↦ parse_lines f false m rest | err e ↦ err e ])
line-Completes f rest (ok m) h k = k m
line-Completes f rest (err e) h k = λ p. h (cc)

parse_lines-Completes :
    (f : ℕ) (first : Bool) (m : Message) (s : Bytes)
    → length s < f
    → Completes (parse_lines f first m s)
unfolding parse_lines
parse_lines-Completes zero first m s h = absurd (omega (arith, h))
parse_lines-Completes (suc f) first m s h = elim (Option-cases (read_line s)) [
  | inl e ↦ rw (parse_lines, e) (λ p. cc)
  | inr (([], rest), e) ↦ rw (parse_lines, e) (λ p. cc)
  | inr ((c ∷ line, rest), e) ↦
      rw (parse_lines, e)
        (line-Completes f rest (parse_line first (c ∷ line) m)
          (parse_line-Completes first (c ∷ line) m)
          (λ m'.
            parse_lines-Completes f false m' rest
              (omega (arith, h, read_line-shorter s (c ∷ line) rest e))))
]

find_header-Completes : (name : Bytes) (hs : List Header) → Completes (find_header name hs)
unfolding find_header
find_header-Completes name [] = λ p. cc
find_header-Completes name (h ∷ hs) =
    if-keeps Completes (is_same_header h.name name) (ok h) (find_header name hs) (λ p. cc)
      (find_header-Completes name hs)

text_of-Completes : (v : HeaderValue) → Completes (text_of v)
unfolding text_of
text_of-Completes v = ground arith

read_body-Completes : (n : ℤ) (m : Message) (s : Bytes) → Completes (read_body n m s)
unfolding read_body
read_body-Completes (negsuc n) m s = λ p. cc
read_body-Completes (pos n) m s = if-keeps Completes (ltb (length s) n) _ _ (λ p. cc) (λ p. cc)

parse_body-Completes : (m : Message) (s : Bytes) → Completes (parse_body m s)
unfolding parse_body get_header_int get_header_value
parse_body-Completes m s =
    let name : Bytes = codes "Content-Length" in
    >>=-Completes (get_header_int m name) (λ n. read_body n m s)
      (>>=-Completes (get_header_value m name) _
        (>>=-Completes (find_header name m.headers) _ (find_header-Completes name m.headers)
          (λ h p. cc))
        (λ v. >>=-Completes (text_of v) atoi (text_of-Completes v) atoi-Completes))
      (λ n. read_body-Completes n m s)

-- The fuel that parse_message gives to the loop over the lines is enough for every input.
pub parse_message-Completes : (s : Bytes) → Completes (parse_message s)
unfolding parse_message
parse_message-Completes s =
    let start : Bytes = skip_white_space s in
    >>=-Completes (parse_lines (suc (length start)) true new_message start) _
      (parse_lines-Completes (suc (length start)) true new_message start (omega arith))
      (λ read. parse_body-Completes read.0 read.1)
