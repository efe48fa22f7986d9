-- ===== src/Message.antt =====
-- SIP messages, message.go: the data and the operations on the list of headers. The modules below
-- this one have the typed headers, the identifiers and the text of a message.
pub mod Access
pub mod Headers
pub mod Ids
pub mod IdLaws
pub mod Transactions
pub mod Vias
pub mod Wire
use Prim.Native.Char.{code}
use sipproxy.Address.{AddrSpec, parse_addr_spec}
use sipproxy.CSeq.{CSeq}
use sipproxy.Party.{Party}
use sipproxy.Prelude.{
  ℕ, ◌+◌, ◌/◌, Bool, true, false, ◌&&◌, ◌||◌, Option, none, some, List, [], ◌∷◌, ◌++◌, ltb, leb,
  if◌then◌else◌, take, drop, no_such_header, wrong_type, not_request, Result, ok, err, ◌>>=◌,
  value_or, ℤ, pos, negsuc,
}
use sipproxy.Routes.{Route, RecordRoute}
use sipproxy.Text.{Bytes, codes, str_eq, to_lower, equal_fold}
use sipproxy.Text.Number.{atoi}
use sipproxy.Via.{Via}

pub record RequestLine : Type 0 where
  pub method : Bytes
  pub request_uri : AddrSpec
  pub version : Bytes

pub record StatusLine : Type 0 where
  pub version : Bytes
  pub status_code : ℤ
  pub reason : Bytes

-- `value interface{}`: the text of the header, or what an accessor has parsed it to.
pub data HeaderValue : Type 0 where
  raw : Bytes → HeaderValue
  from_value : Party → HeaderValue
  to_value : Party → HeaderValue
  route_value : Route → HeaderValue
  via_value : Via → HeaderValue
  cseq_value : CSeq → HeaderValue
  record_route_value : RecordRoute → HeaderValue

pub record Header : Type 0 where
  pub name : Bytes
  pub content : HeaderValue

-- What a ServerTransport answers to GetProtocol, GetAddress and GetPort.
pub record ServerTransport : Type 0 where
  pub protocol : Bytes
  pub address : Bytes
  pub local_port : ℤ

pub record Message : Type 0 where
  pub request : Option RequestLine
  pub response : Option StatusLine
  pub headers : List Header
  pub body : Bytes
  pub received_from : Option ServerTransport

-- compactHeaderNames: a map in both directions, in lower case; the newest entry comes first
abbrev pub CompactNames : Type 0
CompactNames = List (Bytes × Bytes)

unfoldable pub add_compact : Bytes → Bytes → CompactNames → CompactNames
unfolding to_lower
add_compact name compact names =
    (to_lower compact, to_lower name) ∷ (to_lower name, to_lower compact) ∷ names

unfoldable pub lookup_compact : Bytes → CompactNames → Option Bytes
unfolding str_eq
lookup_compact name [] = none
lookup_compact name ((k, v) ∷ names) = if str_eq k name then some v else lookup_compact name names

unfoldable pub compact_names : CompactNames
unfolding add_compact
compact_names = add_compact (codes "Via") (codes "v") (
    add_compact (codes "Allow-Events") (codes "u") (
      add_compact (codes "To") (codes "t") (
        add_compact (codes "Subject") (codes "s") (
          add_compact (codes "Refer-To") (codes "r") (
            add_compact (codes "Event") (codes "o") (
              add_compact (codes "Contact") (codes "m") (
                add_compact (codes "Content-Length") (codes "l") (
                  add_compact (codes "Supported") (codes "k") (
                    add_compact (codes "Call-ID") (codes "i") (
                      add_compact (codes "From") (codes "f") (
                        add_compact (codes "Content-Encoding") (codes "e") (
                          add_compact (codes "Content-Type") (codes "c") (
                            add_compact (codes "Referred-By") (codes "b")
                              (add_compact (codes "Accept-Contact") (codes "a") []))))))))))))))

unfoldable pub get_compact : Bytes → Option Bytes
unfolding lookup_compact compact_names to_lower
get_compact name = lookup_compact (to_lower name) compact_names

unfoldable pub same_compact : Bytes → Option Bytes → Bool
unfolding equal_fold
same_compact name none = false
same_compact name (some compact) = equal_fold name compact

unfoldable pub is_same_header : Bytes → Bytes → Bool
unfolding same_compact get_compact equal_fold
is_same_header name_1 name_2 = equal_fold name_1 name_2 || same_compact name_1 (get_compact name_2)

unfoldable pub new_message : Message
new_message = record {
  request = none;
  response = none;
  headers = [];
  body = [];
  received_from = none;
}

-- NewRequest
unfoldable pub create_request : Bytes → Bytes → Bytes → Result Message
unfolding parse_addr_spec new_message
create_request method uri version = do
  a ← parse_addr_spec uri
  ok (record new_message {
    request = some (record { method = method; request_uri = a; version = version });
  })

-- NewResponseOf, for a message that is a request
unfoldable pub create_response_of : RequestLine → ℤ → Bytes → Message
unfolding new_message
create_response_of line code reason = record new_message {
  response = some (record { version = line.version; status_code = code; reason = reason });
}

unfoldable pub add_header : Bytes → Bytes → Message → Message
add_header name text m = record m {
  headers = m.headers ++ record { name = name; content = raw text } ∷ [];
}

unfoldable pub find_header : Bytes → List Header → Result Header
unfolding is_same_header
find_header name [] = err no_such_header
find_header name (h ∷ hs) = if is_same_header h.name name then ok h else find_header name hs

-- Message.GetHeader and GetHeaderValue
unfoldable pub get_header : Message → Bytes → Result Header
unfolding find_header
get_header m name = find_header name m.headers

unfoldable pub get_header_value : Message → Bytes → Result HeaderValue
unfolding get_header
get_header_value m name = do h ← get_header m name; ok h.content

unfoldable pub find_header_pos : Bytes → List Header → Result ℕ
unfolding is_same_header
find_header_pos name [] = err no_such_header
find_header_pos name (h ∷ hs) =
    let rest = find_header_pos name hs in
    if is_same_header h.name name then ok 0 else (do i ← rest; ok (i + 1))

unfoldable pub text_of : HeaderValue → Result Bytes
text_of (raw s) = ok s
text_of _ = err wrong_type

unfoldable pub get_header_int : Message → Bytes → Result ℤ
unfolding get_header_value text_of atoi
get_header_int m name = do v ← get_header_value m name; s ← text_of v; atoi s

-- The headers without the first of the name, and its value.
unfoldable pub remove_first : Bytes → List Header → Result HeaderValue × List Header
unfolding is_same_header
remove_first name [] = (err no_such_header, [])
remove_first name (h ∷ hs) =
    let rest = remove_first name hs in
    if is_same_header h.name name then (ok h.content, hs) else (rest.0, h ∷ rest.1)

unfoldable pub remove_header : Bytes → Message → Result HeaderValue × Message
unfolding remove_first
remove_header name m =
    let rest = remove_first name m.headers in (rest.0, record m { headers = rest.1 })

-- Inserting in front of a position.
unfoldable pub insert_at : ℕ → Header → List Header → List Header
insert_at i h hs = take i hs ++ (h ∷ drop i hs)

unfoldable pub find_via_insert_pos : Message → ℕ
unfolding find_header_pos
find_via_insert_pos m = value_or (find_header_pos (codes "Via") m.headers) 0

unfoldable pub add_via : Via → Message → Message
unfolding find_via_insert_pos insert_at
add_via v m = record m {
  headers =
      insert_at (find_via_insert_pos m) (record { name = codes "Via"; content = via_value v })
        m.headers;
}

unfoldable pub earlier : Result ℕ → Result ℕ → ℕ
earlier (ok i) (ok j) = if ltb i j then i else j
earlier (ok i) (err _) = i
earlier (err _) (ok j) = j
earlier (err _) (err _) = 0

unfoldable pub find_record_route_pos : List Header → ℕ
unfolding find_header_pos earlier
find_record_route_pos hs = elim (find_header_pos (codes "Record-Route") hs) [
  | ok i ↦ i
  | err _ ↦ earlier (find_header_pos (codes "From") hs) (find_header_pos (codes "Max-Forwards") hs)
]

unfoldable pub add_record_route : RecordRoute → Message → Message
unfolding find_record_route_pos insert_at
add_record_route r m = record m {
  headers =
      insert_at (find_record_route_pos m.headers)
        (record { name = codes "Record-Route"; content = record_route_value r }) m.headers;
}

unfoldable pub is_request : Message → Bool
is_request m = elim m.request [ some _ ↦ true | none ↦ false ]

unfoldable pub is_response : Message → Bool
is_response m = elim m.response [ some _ ↦ true | none ↦ false ]

unfoldable pub get_request_uri : Message → Result AddrSpec
get_request_uri m = elim m.request [ some line ↦ ok line.request_uri | none ↦ err not_request ]

-- Go's division of the status code by 100 rounds towards 0.
unfoldable pub is_final_code : ℤ → Bool
is_final_code (pos n) = leb 2 (n / 100) && leb (n / 100) 6
is_final_code (negsuc n) = false

unfoldable pub is_final_response : Message → Bool
unfolding is_final_code
is_final_response m = elim m.response [ some line ↦ is_final_code line.status_code | none ↦ false ]

unfoldable pub get_expires : ℤ → Message → ℤ
unfolding get_header_int
get_expires default_value m = value_or (get_header_int m (codes "Expires")) default_value

-- The headers are shared with the original, which a value does not show.
unfoldable pub clone : Message → Message
clone m = m
