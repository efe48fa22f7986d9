-- ===== src/Message/Wire/Lines.antt =====
-- A message is read back from the lines that are written for it.
use mathlib.Core.Path.{ap₂}
use sipproxy.Message.{raw, Header, Message, is_same_header, add_header}
use sipproxy.Message.Access.{parsed}
use sipproxy.Message.Wire.{
  strip_return, read_line, parse_lines, crlf, header_line, parse_header_line, parse_line,
  print_value, encode_headers,
}
use sipproxy.Prelude.{
  ℕ, suc, ◌≡◌, refl, sym, ap, ◌∙◌, true, false, none, some, [], ◌∷◌, ◌++◌, append_assoc, ◌+◌, ◌≢◌,
  Bool, List, map, append-nil, arith, length, append_cons-ne-nil, All, ok, inl, inr, Bool-cases,
}
use sipproxy.Text.{Bytes, codes, cut, lacks, trim_space, str_eq}
use sipproxy.Text.Cut.{cut-append, lacks-append}
use sipproxy.Text.Equality.{str_eq_sound}

strip_return-append : (s : Bytes) → strip_return (s ++ b'\r' ∷ []) ≡ s
unfolding strip_return
strip_return-append [] = refl
strip_return-append (c ∷ []) = refl
strip_return-append (c ∷ d ∷ s) = ap (λ t. c ∷ t) (strip_return-append (d ∷ s))

pub read_line-append :
    (s rest : Bytes) → lacks b'\n' s ≡ true → read_line (s ++ (crlf ++ rest)) ≡ some (s, rest)
unfolding read_line
read_line-append s rest h =
    let around : s ++ (crlf ++ rest) ≡ (s ++ b'\r' ∷ []) ++ b'\n' ∷ rest =
      sym (append_assoc s (b'\r' ∷ []) (b'\n' ∷ rest)) in
    let clean : lacks b'\n' (s ++ b'\r' ∷ []) ≡ true = lacks-append b'\n' s (b'\r' ∷ []) h refl in
    ap (λ o. elim o [ some (line, rest) ↦ some (strip_return line, rest) | none ↦ none ])
      (ap (cut b'\n') around ∙ cut-append b'\n' (s ++ b'\r' ∷ []) rest clean)
    ∙ ap (λ t. some (t, rest)) (strip_return-append s)

-- A header that is still a text.
abbrev pub text_header : Bytes × Bytes → Header
text_header (name, text) = record { name = name; content = raw text }

-- A header line that is read back: no colon in the name, no line feed, no white space around the
-- text, and not a Content-Length in any spelling, which the writer makes itself.
pub record IsTextHeader (h : Bytes × Bytes) : Type 0 where
  pub name_colon : lacks b':' h.0 ≡ true
  pub name_line : lacks b'\n' h.0 ≡ true
  pub text_line : lacks b'\n' h.1 ≡ true
  pub trimmed : trim_space (b' ' ∷ h.1) ≡ h.1
  pub no_length : is_same_header h.0 (codes "Content-Length") ≡ false

abbrev line_of : Bytes → Bytes → Bytes
line_of name text = name ++ (b':' ∷ b' ' ∷ text)

header_line-of :
    (name text rest : Bytes) → header_line name text ++ rest ≡ line_of name text ++ (crlf ++ rest)
unfolding header_line
header_line-of name text rest =
    append_assoc name (b':' ∷ b' ' ∷ (text ++ crlf)) rest
    ∙ ap (λ t. name ++ (b':' ∷ b' ' ∷ t)) (append_assoc text crlf rest)
    ∙ sym (append_assoc name (b':' ∷ b' ' ∷ text) (crlf ++ rest))

pub parse_lines-step :
    (f : ℕ) (first : Bool) (m next : Message) (s line rest : Bytes)
    → read_line s ≡ some (line, rest)
    → line ≢ []
    → parse_line first line m ≡ ok next
    → parse_lines (suc f) first m s ≡ parse_lines f false next rest
unfolding parse_lines
parse_lines-step f first m next s [] rest read n parsed = absurd (n refl)
parse_lines-step f first m next s (c ∷ line) rest read n parsed =
    rw (parse_lines, read, parsed) refl

parse_header_line-of :
    (m : Message) (name text : Bytes)
    → lacks b':' name ≡ true
    → trim_space (b' ' ∷ text) ≡ text
    → parse_header_line (line_of name text) m ≡ ok (add_header name text m)
unfolding parse_header_line
parse_header_line-of m name text c trimmed =
    rw (parse_header_line, cut-append b':' name (b' ' ∷ text) c, trimmed) refl

pub parse_lines-header :
    (f : ℕ) (m : Message) (name text rest : Bytes)
    → lacks b':' name ≡ true
    → lacks b'\n' name ≡ true
    → lacks b'\n' text ≡ true
    → trim_space (b' ' ∷ text) ≡ text
    → parse_lines (suc f) false m (header_line name text ++ rest)
      ≡ parse_lines f false (add_header name text m) rest
unfolding parse_line
parse_lines-header f m name text rest c n t trimmed =
    let clean : lacks b'\n' (line_of name text) ≡ true =
      lacks-append b'\n' name (b':' ∷ b' ' ∷ text) n t in
    parse_lines-step f false m (add_header name text m) (header_line name text ++ rest)
      (line_of name text) rest
      (ap read_line (header_line-of name text rest)
        ∙ read_line-append (line_of name text) rest clean)
      (append_cons-ne-nil name b':' (b' ' ∷ text)) (parse_header_line-of m name text c trimmed)

pub not_length :
    (name : Bytes)
    → is_same_header name (codes "Content-Length") ≡ false
    → str_eq name (codes "Content-Length") ≡ false
unfolding is_same_header
not_length name h = elim (Bool-cases (str_eq name (codes "Content-Length"))) [
  | inl e ↦
      let same : name ≡ codes "Content-Length" = str_eq_sound name (codes "Content-Length") e in
      let no : is_same_header (codes "Content-Length") (codes "Content-Length") ≡ false =
        rw same at h in
      let yes : is_same_header (codes "Content-Length") (codes "Content-Length") ≡ true = refl in cc
  | inr e ↦ e
]

-- The lines of text headers are read one after another, each to the end of the list.
pub parse_lines-headers :
    (kvs : List (Bytes × Bytes)) (f : ℕ) (m : Message) (rest : Bytes)
    → All IsTextHeader kvs
    → parse_lines (length kvs + f) false m (encode_headers (map text_header kvs) ++ rest)
      ≡ parse_lines f false (record m { headers = m.headers ++ map text_header kvs }) rest
unfolding encode_headers print_value add_header
parse_lines-headers [] f m rest h =
    let same : 0 + f ≡ f = omega arith in
    let headers : m.headers ≡ m.headers ++ [] = sym (append-nil m.headers) in
    ap₂ (λ g hs. parse_lines g false (record m { headers = hs }) rest) same headers
parse_lines-headers (kv ∷ kvs) f m rest h =
    let same : suc (length kvs) + f ≡ suc (length kvs + f) = omega arith in
    let other : str_eq kv.0 (codes "Content-Length") ≡ false = not_length kv.0 h.0.no_length in
    let one : encode_headers (map text_header (kv ∷ kvs)) ++ rest
        ≡ header_line kv.0 kv.1 ++ (encode_headers (map text_header kvs) ++ rest) =
      rw other (append_assoc (header_line kv.0 kv.1) (encode_headers (map text_header kvs)) rest) in
    ap₂ (λ g s. parse_lines g false m s) same one
    ∙ parse_lines-header (length kvs + f) m kv.0 kv.1 _ h.0.name_colon h.0.name_line h.0.text_line
        h.0.trimmed
    ∙ parse_lines-headers kvs f (add_header kv.0 kv.1 m) rest h.1
    ∙ ap (λ hs. parse_lines f false (record m { headers = hs }) rest)
        (append_assoc m.headers (text_header kv ∷ []) (map text_header kvs))
