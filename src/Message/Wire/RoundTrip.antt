-- ===== src/Message/Wire/RoundTrip.antt =====
-- A request is read back from its bytes, with the Content-Length that the writer adds.
use sipproxy.Address.{print_addr_spec}
use sipproxy.Message.{Header, Message, RequestLine, new_message, add_header}
use sipproxy.Message.Wire.{
  parse_body, skip_white_space, crlf, header_line, encode_headers, parse_lines, encode_first_line,
  message_bytes, strip_return, read_line, parse_message, print_request_line,
}
use sipproxy.Message.Wire.Lines.{
  text_header, IsTextHeader, not_length, read_line-append, parse_lines-step, parse_lines-header,
  parse_lines-headers,
}
use sipproxy.Message.Wire.Pieces.{
  length_header, parse_body-whole, request_text, print_request_line-text, skip_white_space-solid,
  IsRequestLine, request_line-read, request_line-clean,
}
use sipproxy.Prelude.{
  ◌>>=◌, ℕ, ◌<◌, ◌≡◌, refl, ap, ◌∙◌, true, false, List, [], ◌∷◌, ◌++◌, map, arith, length, All, ok,
  pos, ◌≤◌, sym, some, append_assoc, suc, ◌+◌, ◌-◌, none, length-append, append_cons-ne-nil,
  append-nil,
}
use sipproxy.Text.{Bytes, codes, str_eq, cut, drop_space, trim_space}
use sipproxy.Text.Number.{itoa}
use sipproxy.Text.Number.RoundTrip.{lacks-itoa, itoa-solid}
use sipproxy.Text.Trim.{trim_space-solid}

trim-blank : (s : Bytes) → trim_space (b' ' ∷ s) ≡ trim_space s
unfolding trim_space drop_space
trim-blank s = refl

header_line-long : (name text : Bytes) → 1 ≤ length (header_line name text)
unfolding header_line
header_line-long name text = rw (length-append name (b':' ∷ b' ' ∷ (text ++ crlf))) (omega arith)

headers-length :
    (kvs : List (Bytes × Bytes))
    → All IsTextHeader kvs
    → length kvs ≤ length (encode_headers (map text_header kvs))
unfolding encode_headers
headers-length [] h = omega arith
headers-length (kv ∷ kvs) h =
    let other : str_eq kv.0 (codes "Content-Length") ≡ false = not_length kv.0 h.0.no_length in
    let line : Bytes = header_line kv.0 kv.1 in
    rw other (
      rw (length-append line (encode_headers (map text_header kvs)))
        (omega (arith, header_line-long kv.0 kv.1, headers-length kvs h.1)))

-- A request with these headers, of which none is parsed yet.
abbrev pub request_of : RequestLine → List Header → Bytes → Message
request_of r hs body = record {
  request = some r;
  response = none;
  headers = hs;
  body = body;
  received_from = none;
}

module _ (r : RequestLine) (kvs : List (Bytes × Bytes)) (body rest : Bytes) (l : IsRequestLine r)
    (h : All IsTextHeader kvs) where
  -- The lines behind the headers.
  abbrev ending : Bytes
  ending =
      header_line (codes "Content-Length") (itoa (pos (length body))) ++ (crlf ++ (body ++ rest))

  abbrev behind : Bytes
  behind = encode_headers (map text_header kvs) ++ ending

  bytes-text :
      message_bytes (request_of r (map text_header kvs) body) ++ rest
      ≡ request_text r ++ (crlf ++ behind)
  unfolding message_bytes encode_first_line
  bytes-text =
      let line : Bytes = header_line (codes "Content-Length") (itoa (pos (length body))) in
      let headers : Bytes = encode_headers (map text_header kvs) in
      let first : Bytes = print_request_line r in
      append_assoc first (headers ++ (line ++ (crlf ++ body))) rest
      ∙ ap (λ t. first ++ t)
          (append_assoc headers (line ++ (crlf ++ body)) rest
            ∙ ap (λ t. headers ++ t)
                (append_assoc line (crlf ++ body) rest
                  ∙ ap (λ t. line ++ t) (append_assoc crlf body rest)))
      ∙ print_request_line-text r behind

  abbrev received : Message
  received = request_of r (map text_header kvs ++ length_header (length body) ∷ []) []

  blank_line :
      (f : ℕ) (m : Message)
      → parse_lines (suc f) false m (crlf ++ (body ++ rest)) ≡ ok (m, body ++ rest)
  unfolding parse_lines read_line strip_return cut
  blank_line f m = refl

  lines-read :
      (f : ℕ)
      → parse_lines
          (suc (length kvs + suc (suc f)))
          true
          new_message
          (request_text r ++ (crlf ++ behind))
        ≡ ok (received, body ++ rest)
  unfolding new_message add_header
  lines-read f =
      parse_lines-step (length kvs + suc (suc f)) true new_message (request_of r [] [])
        (request_text r ++ (crlf ++ behind)) (request_text r) behind
        (read_line-append (request_text r) behind (request_line-clean r l))
        (append_cons-ne-nil r.method b' ' (print_addr_spec r.request_uri ++ (b' ' ∷ r.version)))
        (request_line-read r l new_message)
      ∙ parse_lines-headers kvs (suc (suc f)) (request_of r [] []) ending h
      ∙ parse_lines-header (suc f) (request_of r (map text_header kvs) []) (codes "Content-Length")
          (itoa (pos (length body))) (crlf ++ (body ++ rest)) refl refl
          (lacks-itoa b'\n' (pos (length body)) refl refl)
          (trim-blank (itoa (pos (length body)))
            ∙ trim_space-solid (itoa (pos (length body))) (itoa-solid (pos (length body))))
      ∙ blank_line f received

  enough : (n : ℕ) → length kvs + 2 ≤ n → (f : ℕ) × (suc n ≡ suc (length kvs + suc (suc f)))
  enough n e = (n - (length kvs + 2), omega (arith, e))

  long : length kvs + 2 ≤ length (request_text r ++ (crlf ++ behind))
  long =
      let b : length behind ≡ length (encode_headers (map text_header kvs)) + length ending =
        length-append (encode_headers (map text_header kvs)) ending in
      rw (length-append (request_text r) (crlf ++ behind)) (omega (arith, b, headers-length kvs h))

  skip_nothing :
      skip_white_space (request_text r ++ (crlf ++ behind)) ≡ request_text r ++ (crlf ++ behind)
  skip_nothing =
      let words : Bytes = b' ' ∷ (print_addr_spec r.request_uri ++ (b' ' ∷ r.version)) in
      let around : request_text r ++ (crlf ++ behind) ≡ r.method ++ (words ++ (crlf ++ behind)) =
        append_assoc r.method words (crlf ++ behind) in
      ap skip_white_space around
      ∙ skip_white_space-solid r.method (words ++ (crlf ++ behind)) l.method_there l.method_word
      ∙ sym around

  -- The first request of an input is read, and the rest is left.
  pub parse-message_bytes_rest :
      length body < 9223372036854775808
      → parse_message (message_bytes (request_of r (map text_header kvs) body) ++ rest)
        ≡ ok (request_of r (map text_header kvs ++ length_header (length body) ∷ []) body, rest)
  unfolding parse_message
  parse-message_bytes_rest short =
      let start : Bytes = request_text r ++ (crlf ++ behind) in
      let (f, fuel) = enough (length start) long in
      ap parse_message bytes-text
      ∙ ap
          (λ s. (do
            read ← parse_lines (suc (length s)) true new_message s
            parse_body read.0 read.1))
          skip_nothing
      ∙ ap (λ n. (do read ← parse_lines n true new_message start; parse_body read.0 read.1)) fuel
      ∙ ap (λ x. (do read ← x; parse_body read.0 read.1)) (lines-read f)
      ∙ parse_body-whole received kvs body rest refl h short

-- A request with a well-formed request line and text headers is read back from the bytes that are
-- written for it, with nothing left over; the Content-Length that the writer adds is then the last
-- header. The body is shorter than 2 ^ 63 bytes. The fuel of the reader is enough.
pub parse-message_bytes :
    (r : RequestLine) (kvs : List (Bytes × Bytes)) (body : Bytes)
    → IsRequestLine r
    → All IsTextHeader kvs
    → length body < 9223372036854775808
    → parse_message (message_bytes (request_of r (map text_header kvs) body))
      ≡ ok (request_of r (map text_header kvs ++ length_header (length body) ∷ []) body, [])
parse-message_bytes r kvs body l h short =
    ap parse_message (sym (append-nil (message_bytes (request_of r (map text_header kvs) body))))
    ∙ parse-message_bytes_rest r kvs body [] l h short
