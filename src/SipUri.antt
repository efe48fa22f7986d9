-- ===== src/SipUri.antt =====
-- SIP URIs, sip_uri.go, and other URIs, absolute_uri.go.
pub mod Pieces
pub mod RoundTrip
use sipproxy.KeyValue.{KeyValue, find_param, set_param}
use sipproxy.Prelude.{
  ℕ, Bool, true, not, Option, none, some, List, [], ◌∷◌, ◌++◌, if◌then◌else◌, drop, invalid_scheme,
  Result, ok, err, value_or, ℤ, pos, int_eq,
}
use sipproxy.Text.{Bytes, codes, str_eq, starts_with, cut, split}
use sipproxy.Text.Number.{atoi_full, itoa}

pub record SipUri : Type 0 where
  pub scheme : Bytes
  pub user : Bytes
  pub password : Bytes
  pub host : Bytes
  pub port : ℤ
  pub parameters : List KeyValue
  pub headers : List KeyValue

abbrev pub blank_uri : SipUri
blank_uri = record {
  scheme = [];
  user = [];
  password = [];
  host = [];
  port = pos 0;
  parameters = [];
  headers = [];
}

unfoldable pub parse_user_info_at : Bytes → Option (Bytes × Bytes) → SipUri → SipUri
parse_user_info_at s none u = record u { user = s }
parse_user_info_at s (some (user, password)) u = record u { user = user; password = password }

unfoldable pub parse_user_info : Bytes → SipUri → SipUri
unfolding parse_user_info_at cut
parse_user_info s u = parse_user_info_at s (cut b':' s) u

-- The error of Atoi is dropped and its value kept.
unfoldable pub parse_host_port_at : Bytes → Option (Bytes × Bytes) → SipUri → SipUri
unfolding atoi_full
parse_host_port_at s none u = record u { host = s; port = pos 0 }
parse_host_port_at s (some (host, port)) u = record u { host = host; port = (atoi_full port).0 }

unfoldable pub parse_host_port : Bytes → SipUri → SipUri
unfolding parse_host_port_at cut
parse_host_port s u = parse_host_port_at s (cut b':' s) u

-- The parameters up to the first that has no `=` and is not `lr`, where the source stops with an
-- error that its caller drops.
unfoldable pub add_uri_parameters : List Bytes → List KeyValue
unfolding cut str_eq
add_uri_parameters [] = []
add_uri_parameters (s ∷ ss) =
    let rest = add_uri_parameters ss in
    elim (cut b'=' s) [
      | some (name, value) ↦ record { key = name; value = value } ∷ rest
      | none ↦ if str_eq s (codes "lr") then record { key = codes "lr"; value = [] } ∷ rest else []
    ]

unfoldable pub parse_uri_parameters : Bytes → SipUri → SipUri
unfolding add_uri_parameters split
parse_uri_parameters s u = record u {
  parameters = u.parameters ++ add_uri_parameters (split s b';');
}

unfoldable pub add_uri_headers : List Bytes → List KeyValue
unfolding cut
add_uri_headers [] = []
add_uri_headers (s ∷ ss) =
    let rest = add_uri_headers ss in
    elim (cut b'=' s) [
      | some (name, value) ↦ record { key = name; value = value } ∷ rest
      | none ↦ []
    ]

unfoldable pub parse_uri_header : Bytes → SipUri → SipUri
unfolding add_uri_headers split
parse_uri_header s u = record u { headers = u.headers ++ add_uri_headers (split s b'&') }

-- The three steps of ParseSipURI behind the scheme, each on what the one before it left.
unfoldable pub parse_userhost : Bytes → SipUri → SipUri
unfolding parse_user_info parse_host_port cut
parse_userhost s u = elim (cut b'@' s) [
  | some (info, host) ↦ parse_host_port host (parse_user_info info u)
  | none ↦ parse_host_port s u
]

unfoldable pub parse_before_headers : Bytes → SipUri → SipUri
unfolding parse_userhost parse_uri_parameters cut
parse_before_headers s u = elim (cut b';' s) [
  | some (rest, parameters) ↦ parse_userhost rest (parse_uri_parameters parameters u)
  | none ↦ parse_userhost s u
]

unfoldable pub parse_after_scheme : Bytes → SipUri → SipUri
unfolding parse_before_headers parse_uri_header cut
parse_after_scheme s u = elim (cut b'?' s) [
  | some (rest, headers) ↦ parse_before_headers rest (parse_uri_header headers u)
  | none ↦ parse_before_headers s u
]

unfoldable pub parse_sip_uri : Bytes → Result SipUri
unfolding parse_after_scheme starts_with
parse_sip_uri uri =
    if starts_with (codes "sip:") uri
    then ok (parse_after_scheme (drop 4 uri) (record blank_uri { scheme = codes "sip" }))
    else if starts_with (codes "sips:") uri
    then ok (parse_after_scheme (drop 5 uri) (record blank_uri { scheme = codes "sips" }))
    else err invalid_scheme

unfoldable pub get_parameter : SipUri → Bytes → Result Bytes
unfolding find_param
get_parameter u name = find_param name u.parameters

unfoldable pub add_parameter : SipUri → Bytes → Bytes → SipUri
add_parameter u name v = record u {
  parameters = u.parameters ++ record { key = name; value = v } ∷ [];
}

unfoldable pub set_parameter : SipUri → Bytes → Bytes → SipUri
unfolding set_param
set_parameter u name v = record u { parameters = set_param name v u.parameters }

unfoldable pub get_transport : SipUri → Bytes
unfolding get_parameter
get_transport u = value_or (get_parameter u (codes "transport")) (codes "udp")

unfoldable pub get_uri_port : SipUri → ℤ
unfolding get_transport str_eq
get_uri_port u =
    if not (int_eq u.port (pos 0))
    then u.port
    else if str_eq (get_transport u) (codes "tls")
    then pos 5061
    else pos 5060

unfoldable pub get_uri_header : SipUri → Bytes → Result Bytes
unfolding find_param
get_uri_header u name = find_param name u.headers

unfoldable pub print_user_info : Bytes → Bytes → Bytes
print_user_info [] password = []
print_user_info (c ∷ user) [] = (c ∷ user) ++ (b'@' ∷ [])
print_user_info (c ∷ user) (d ∷ password) = (c ∷ user) ++ (b':' ∷ ((d ∷ password) ++ (b'@' ∷ [])))

unfoldable pub print_host_port : Bytes → ℤ → Bytes
unfolding itoa
print_host_port host port = if not (int_eq port (pos 0)) then host ++ (b':' ∷ itoa port) else host

unfoldable pub print_uri_parameter : Bytes → Bytes → Bytes
print_uri_parameter key [] = key
print_uri_parameter key (c ∷ value) = key ++ (b'=' ∷ c ∷ value)

unfoldable pub print_uri_parameters : List KeyValue → Bytes
unfolding print_uri_parameter
print_uri_parameters [] = []
print_uri_parameters (kv ∷ kvs) =
    b';' ∷ (print_uri_parameter kv.key kv.value ++ print_uri_parameters kvs)

unfoldable pub print_uri_headers : ℕ → List KeyValue → Bytes
print_uri_headers mark [] = []
print_uri_headers mark (kv ∷ kvs) =
    mark ∷ (kv.key ++ (b'=' ∷ (kv.value ++ print_uri_headers b'&' kvs)))

-- SIPURI.ToString; the flags are withParams and withHeaders
unfoldable pub print_sip_uri_with : Bool → Bool → SipUri → Bytes
unfolding print_user_info print_host_port print_uri_parameters print_uri_headers
print_sip_uri_with with_params with_headers u =
    u.scheme
    ++ (b':'
        ∷ (print_user_info u.user u.password
            ++ (print_host_port u.host u.port
                ++ ((if with_params then print_uri_parameters u.parameters else [])
                    ++ (if with_headers then print_uri_headers b'?' u.headers else [])))))

unfoldable pub print_sip_uri : SipUri → Bytes
unfolding print_sip_uri_with
print_sip_uri u = print_sip_uri_with true true u
