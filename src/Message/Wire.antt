-- ===== src/Message/Wire.antt =====
-- The text of a message: ParseMessage and Write. A reader is the bytes that are left to read.
pub mod Fuel
pub mod Lines
pub mod Pieces
pub mod RoundTrip
use Prim.Native.Char.{code}
use sipproxy.Address.{parse_addr_spec, print_addr_spec}
use sipproxy.CSeq.{print_cseq}
use sipproxy.Message.{
  RequestLine, StatusLine, HeaderValue, raw, from_value, to_value, route_value, via_value,
  cseq_value, record_route_value, Header, Message, new_message, add_header, get_header_int,
}
use sipproxy.Message.Access.{◌>>◌}
use sipproxy.Party.{print_from_spec, print_to}
use sipproxy.Prelude.{
  ◌>>=◌, ℕ, zero, suc, Bool, true, false, not, Option, none, some, List, [], ◌∷◌, ◌++◌, ltb, ◌==◌,
  if◌then◌else◌, length, take, drop, malformed_first_line, malformed_header_line, end_of_input,
  negative_length, out_of_fuel, Result, ok, err, ℤ, pos, negsuc,
}
use sipproxy.Routes.{print_route, print_record_route}
use sipproxy.Text.{Bytes, codes, str_eq, starts_with, cut, is_space, trim_space, join, fields}
use sipproxy.Text.Number.{atoi, itoa}
use sipproxy.Via.{print_via}

-- ReadBytes up to a line feed; a line that the input does not end is an error.
unfoldable pub strip_return : Bytes → Bytes
strip_return [] = []
strip_return (c ∷ []) = if c == b'\r' then [] else c ∷ []
strip_return (c ∷ d ∷ s) = c ∷ strip_return (d ∷ s)

unfoldable pub read_line : Bytes → Option (Bytes × Bytes)
unfolding strip_return cut
read_line s = elim (cut b'\n' s) [
  | some (line, rest) ↦ some (strip_return line, rest)
  | none ↦ none
]

unfoldable pub skip_white_space : Bytes → Bytes
skip_white_space [] = []
skip_white_space (c ∷ s) = let rest = skip_white_space s in if is_space c then rest else c ∷ s

unfoldable pub is_request_line : Bytes → Bool
unfolding starts_with
is_request_line line = not (starts_with (codes "SIP/") line)

unfoldable pub request_of_fields : List Bytes → Result RequestLine
unfolding parse_addr_spec
request_of_fields (method ∷ uri ∷ version ∷ []) = do
  a ← parse_addr_spec uri
  ok (record { method = method; request_uri = a; version = version })
request_of_fields _ = err malformed_first_line

unfoldable pub parse_request_line : Bytes → Result RequestLine
unfolding request_of_fields fields
parse_request_line line = request_of_fields (fields line)

unfoldable pub status_of_fields : List Bytes → Result StatusLine
unfolding atoi join
status_of_fields (version ∷ code ∷ word ∷ words) = do
  n ← atoi code
  ok (record { version = version; status_code = n; reason = join (word ∷ words) (codes " ") })
status_of_fields _ = err malformed_first_line

unfoldable pub parse_status_line : Bytes → Result StatusLine
unfolding status_of_fields fields
parse_status_line line = status_of_fields (fields line)

unfoldable pub parse_first_line : Bytes → Message → Result Message
unfolding is_request_line parse_request_line parse_status_line
parse_first_line line m =
    if is_request_line line
    then (do r ← parse_request_line line; ok (record m { request = some r }))
    else (do s ← parse_status_line line; ok (record m { response = some s }))

unfoldable pub parse_header_line : Bytes → Message → Result Message
unfolding cut trim_space add_header
parse_header_line line m = elim (cut b':' line) [
  | some (name, value) ↦ ok (add_header name (trim_space value) m)
  | none ↦ err malformed_header_line
]

unfoldable pub parse_line : Bool → Bytes → Message → Result Message
unfolding parse_first_line parse_header_line
parse_line true = parse_first_line
parse_line false = parse_header_line

-- The loop over the lines, to the empty one; the flag is `firstLine`. The fuel is the number of
-- lines that it can read; running out of it is an error of its own.
unfoldable pub parse_lines : ℕ → Bool → Message → Bytes → Result (Message × Bytes)
unfolding read_line parse_line
parse_lines zero first m s = err out_of_fuel
parse_lines (suc f) first m s = elim (read_line s) [
  | none ↦ err end_of_input
  | some ([], rest) ↦ ok (m, rest)
  | some (c ∷ line, rest) ↦ elim (parse_line first (c ∷ line) m) [
    | ok m' ↦ parse_lines f false m' rest
    | err e ↦ err e
  ]
]

-- io.ReadFull into a buffer of the content length; making that buffer is not modelled.
unfoldable pub read_body : ℤ → Message → Bytes → Result (Message × Bytes)
read_body (negsuc n) m s = err negative_length
read_body (pos n) m s =
    if ltb (length s) n then err end_of_input else ok (record m { body = take n s }, drop n s)

unfoldable pub parse_body : Message → Bytes → Result (Message × Bytes)
unfolding read_body get_header_int
parse_body m s = do n ← get_header_int m (codes "Content-Length"); read_body n m s

-- The message, and what is left of the input behind it.
unfoldable pub parse_message : Bytes → Result (Message × Bytes)
unfolding parse_lines parse_body skip_white_space new_message
parse_message s = do
  let start = skip_white_space s
  read ← parse_lines (suc (length start)) true new_message start
  parse_body read.0 read.1

-- "%v" of a header value
unfoldable pub print_value : HeaderValue → Bytes
unfolding print_from_spec print_to print_route print_via print_cseq print_record_route
print_value (raw s) = s
print_value (from_value p) = print_from_spec p
print_value (to_value p) = print_to p
print_value (route_value r) = print_route r
print_value (via_value v) = print_via v
print_value (cseq_value c) = print_cseq c
print_value (record_route_value r) = print_record_route r

abbrev pub crlf : Bytes
crlf = codes "\r\n"

unfoldable pub print_request_line : RequestLine → Bytes
unfolding print_addr_spec
print_request_line r =
    r.method ++ (b' ' ∷ (print_addr_spec r.request_uri ++ (b' ' ∷ (r.version ++ crlf))))

unfoldable pub print_status_line : StatusLine → Bytes
unfolding itoa
print_status_line s = s.version ++ (b' ' ∷ (itoa s.status_code ++ (b' ' ∷ (s.reason ++ crlf))))

unfoldable pub encode_first_line : Option RequestLine → Option StatusLine → Bytes
unfolding print_request_line print_status_line
encode_first_line (some r) _ = print_request_line r
encode_first_line none (some s) = print_status_line s
encode_first_line none none = []

unfoldable pub header_line : Bytes → Bytes → Bytes
header_line name text = name ++ (b':' ∷ b' ' ∷ (text ++ crlf))

-- Only a name in exactly this spelling is left out.
unfoldable pub encode_headers : List Header → Bytes
unfolding print_value header_line str_eq
encode_headers [] = []
encode_headers (h ∷ hs) =
    (if str_eq h.name (codes "Content-Length")
      then []
      else header_line h.name (print_value h.content))
    ++ encode_headers hs

-- Message.Write and Bytes, on a writer that takes every byte
unfoldable pub message_bytes : Message → Bytes
unfolding encode_first_line encode_headers header_line itoa
message_bytes m =
    encode_first_line m.request m.response
    ++ (encode_headers m.headers
        ++ (header_line (codes "Content-Length") (itoa (pos (length m.body))) ++ (crlf ++ m.body)))
