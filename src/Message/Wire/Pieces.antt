-- ===== src/Message/Wire/Pieces.antt =====
-- The request line and the body of a message are read back.
use sipproxy.Address.{print_addr_spec}
use sipproxy.Address.RoundTrip.{IsAddr, parse-print_addr_spec}
use sipproxy.Message.{
  Header, Message, is_same_header, find_header, get_header, get_header_value, text_of,
  get_header_int, RequestLine,
}
use sipproxy.Message.Wire.{
  read_body, parse_body, skip_white_space, is_request_line, request_of_fields, parse_request_line,
  parse_first_line, parse_line, crlf, print_request_line,
}
use sipproxy.Message.Wire.Lines.{text_header, IsTextHeader}
use sipproxy.Prelude.{
  ◌>>=◌, ℕ, ◌<◌, ◌≡◌, refl, ap, ◌∙◌, true, false, List, [], ◌∷◌, ◌++◌, map, arith, ltb, length, All,
  ok, pos, sym, ◌≢◌, some, append_assoc, length-append, take-append_left, drop-append_left,
}
use sipproxy.Text.{Bytes, codes, lacks, is_space, solid, starts_with, fields}
use sipproxy.Text.Cut.{lacks-append}
use sipproxy.Text.Number.{atoi, itoa}
use sipproxy.Text.Number.RoundTrip.{atoi-itoa}
use sipproxy.Text.Split.{fields-solid, fields-append}

-- The Content-Length header that a reader finds behind the others.
abbrev pub length_header : ℕ → Header
length_header n = text_header (codes "Content-Length", itoa (pos n))

find_header-length :
    (kvs : List (Bytes × Bytes)) (n : ℕ)
    → All IsTextHeader kvs
    → find_header (codes "Content-Length") (map text_header kvs ++ length_header n ∷ [])
      ≡ ok (length_header n)
unfolding find_header is_same_header
find_header-length [] n h = refl
find_header-length (kv ∷ kvs) n h = rw (h.0.no_length) (find_header-length kvs n h.1)

read_body-whole :
    (m : Message) (body rest : Bytes)
    → read_body (pos (length body)) m (body ++ rest) ≡ ok (record m { body = body }, rest)
unfolding read_body
read_body-whole m body rest =
    let all : ltb (length (body ++ rest)) (length body) ≡ false =
      rw (length-append body rest) (ground arith) in
    rw (all, take-append_left body rest, drop-append_left body rest) refl

-- A body in front of other bytes.
pub parse_body-whole :
    (m : Message) (kvs : List (Bytes × Bytes)) (body rest : Bytes)
    → m.headers ≡ map text_header kvs ++ length_header (length body) ∷ []
    → All IsTextHeader kvs
    → length body < 9223372036854775808
    → parse_body m (body ++ rest) ≡ ok (record m { body = body }, rest)
unfolding parse_body get_header_int get_header_value get_header
parse_body-whole m kvs body rest e h l =
    let found : get_header_int m (codes "Content-Length") ≡ ok (pos (length body)) =
      ap
        (λ hs. (do
          v ← (do x ← find_header (codes "Content-Length") hs; ok x.content)
          s ← text_of v
          atoi s))
        e
      ∙ ap (λ r. (do v ← (do x ← r; ok x.content); s ← text_of v; atoi s))
          (find_header-length kvs (length body) h)
      ∙ atoi-itoa (pos (length body)) l in
    ap (λ r. (do n ← r; read_body n m (body ++ rest))) found ∙ read_body-whole m body rest

solid-lacks : (c : ℕ) (s : Bytes) → is_space c ≡ true → solid s ≡ true → lacks c s ≡ true
solid-lacks c [] w h = refl
solid-lacks c (x ∷ s) w h = ground (arith, w, h, solid-lacks c s w)

-- The request line without its end.
abbrev pub request_text : RequestLine → Bytes
request_text r = r.method ++ (b' ' ∷ (print_addr_spec r.request_uri ++ (b' ' ∷ r.version)))

pub print_request_line-text :
    (r : RequestLine) (rest : Bytes)
    → print_request_line r ++ rest ≡ request_text r ++ (crlf ++ rest)
unfolding print_request_line
print_request_line-text r rest =
    let uri : Bytes = print_addr_spec r.request_uri in
    append_assoc r.method (b' ' ∷ (uri ++ (b' ' ∷ (r.version ++ crlf)))) rest
    ∙ ap (λ t. r.method ++ b' ' ∷ t)
        (append_assoc uri (b' ' ∷ (r.version ++ crlf)) rest
          ∙ ap (λ t. uri ++ b' ' ∷ t) (append_assoc r.version crlf rest)
          ∙ sym (append_assoc uri (b' ' ∷ r.version) (crlf ++ rest)))
    ∙ sym (append_assoc r.method (b' ' ∷ (uri ++ (b' ' ∷ r.version))) (crlf ++ rest))

pub skip_white_space-solid :
    (w rest : Bytes) → w ≢ [] → solid w ≡ true → skip_white_space (w ++ rest) ≡ w ++ rest
unfolding skip_white_space
skip_white_space-solid [] rest n s = absurd (n refl)
skip_white_space-solid (c ∷ w) rest n s =
    let black : is_space c ≡ false = ground (arith, s) in rw black refl

-- A request line of three words that does not look like a status line.
pub record IsRequestLine (r : RequestLine) : Type 0 where
  pub method_word : solid r.method ≡ true
  pub method_there : r.method ≢ []
  pub no_status : starts_with (codes "SIP/") (request_text r) ≡ false
  pub uri_clean : IsAddr r.request_uri
  pub uri_word : solid (print_addr_spec r.request_uri) ≡ true
  pub uri_there : print_addr_spec r.request_uri ≢ []
  pub version_word : solid r.version ≡ true
  pub version_there : r.version ≢ []

module _ (r : RequestLine) (h : IsRequestLine r) where
  pub request_line-read :
      (m : Message) → parse_line true (request_text r) m ≡ ok (record m { request = some r })
  unfolding parse_line parse_first_line is_request_line parse_request_line request_of_fields
  request_line-read m =
      let uri : Bytes = print_addr_spec r.request_uri in
      let words : fields (request_text r) ≡ r.method ∷ uri ∷ r.version ∷ [] =
        fields-append r.method (uri ++ b' ' ∷ r.version) h.method_there h.method_word
        ∙ ap (λ ws. r.method ∷ ws)
            (fields-append uri r.version h.uri_there h.uri_word
              ∙ ap (λ ws. uri ∷ ws) (fields-solid r.version h.version_there h.version_word)) in
      rw (h.no_status, words, parse-print_addr_spec r.request_uri h.uri_clean) refl

  pub request_line-clean : lacks b'\n' (request_text r) ≡ true
  request_line-clean =
      lacks-append b'\n' r.method (b' ' ∷ (print_addr_spec r.request_uri ++ b' ' ∷ r.version))
        (solid-lacks b'\n' r.method refl h.method_word)
        (lacks-append b'\n' (print_addr_spec r.request_uri) (b' ' ∷ r.version)
          (solid-lacks b'\n' (print_addr_spec r.request_uri) refl h.uri_word)
          (solid-lacks b'\n' r.version refl h.version_word))
