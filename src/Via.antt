-- ===== src/Via.antt =====
-- The Via header, via.go.
pub mod RoundTrip
use sipproxy.KeyValue.{KeyValue, key_value_of, find_param, set_param, has_param, print_params}
use sipproxy.Prelude.{
  ℕ, Bool, not, none, some, List, [], ◌∷◌, ◌++◌, if◌then◌else◌, length, get_elem?, malformed_via,
  malformed_protocol, malformed_sent_by, no_via_param, out_of_bound, Result, ok, err, ◌>>=◌, ℤ, pos,
  int_eq,
}
use sipproxy.Text.{Bytes, codes, str_eq, cut, to_upper, split, fields}
use sipproxy.Text.Number.{atoi, itoa}

pub record ViaParam : Type 0 where
  pub protocol_name : Bytes
  pub protocol_version : Bytes
  pub transport : Bytes
  pub host : Bytes
  pub port : ℤ
  pub params : List KeyValue

pub record Via : Type 0 where
  pub params : List ViaParam

unfoldable pub new_via : Via
new_via = record { params = [] }

unfoldable pub add_via_param : Via → ViaParam → Via
add_via_param v p = record { params = v.params ++ p ∷ [] }

unfoldable pub pop_first : List ViaParam → Result ViaParam × Via
pop_first [] = (err no_via_param, record { params = [] })
pop_first (p ∷ ps) = (ok p, record { params = ps })

unfoldable pub pop_via_param : Via → Result ViaParam × Via
unfolding pop_first
pop_via_param v = pop_first v.params

unfoldable pub size : Via → ℕ
size v = length v.params

-- An index is never negative where it is used.
unfoldable pub get_via_param : Via → ℕ → Result ViaParam
get_via_param v i = elim (get_elem? v.params i) [ none ↦ err out_of_bound | some p ↦ ok p ]

unfoldable pub set_via_value : ViaParam → Bytes → Bytes → ViaParam
unfolding set_param
set_via_value p name v = record p { params = set_param name v p.params }

unfoldable pub get_via_value : ViaParam → Bytes → Result Bytes
unfolding find_param
get_via_value p name = find_param name p.params

unfoldable pub has_via_value : ViaParam → Bytes → Bool
unfolding has_param
has_via_value p name = has_param name p.params

unfoldable pub get_branch : ViaParam → Result Bytes
unfolding get_via_value
get_branch p = get_via_value p (codes "branch")

unfoldable pub set_branch : ViaParam → Bytes → ViaParam
unfolding set_via_value
set_branch p branch = set_via_value p (codes "branch") branch

unfoldable pub get_via_port : ViaParam → ℤ
unfolding str_eq
get_via_port p =
    if not (int_eq p.port (pos 0))
    then p.port
    else if str_eq p.transport (codes "TLS")
    then pos 5061
    else pos 5060

unfoldable pub get_sent_by : ViaParam → Bytes
unfolding get_via_port itoa
get_sent_by p = p.host ++ (b':' ∷ itoa (get_via_port p))

unfoldable pub get_received : ViaParam → Result Bytes
unfolding get_via_value
get_received p = get_via_value p (codes "received")

unfoldable pub set_via_received : ViaParam → Bytes → ViaParam
unfolding set_via_value
set_via_received p received = set_via_value p (codes "received") received

unfoldable pub get_rport : ViaParam → Result ℤ
unfolding get_via_value atoi
get_rport p = do rport ← get_via_value p (codes "rport"); atoi rport

unfoldable pub get_ttl : ViaParam → Result ℤ
unfolding get_via_value atoi
get_ttl p = do ttl ← get_via_value p (codes "ttl"); atoi ttl

unfoldable pub print_via_param : ViaParam → Bytes
unfolding get_sent_by print_params
print_via_param p =
    p.protocol_name
    ++ (b'/'
        ∷ (p.protocol_version
            ++ (b'/' ∷ (p.transport ++ (b' ' ∷ (get_sent_by p ++ print_params p.params))))))

unfoldable pub print_list : List ViaParam → Bytes
unfolding print_via_param
print_list [] = []
print_list (p ∷ []) = print_via_param p
print_list (p ∷ q ∷ ps) = print_via_param p ++ (b',' ∷ print_list (q ∷ ps))

unfoldable pub print_via : Via → Bytes
unfolding print_list
print_via v = print_list v.params

-- t[0], "SIP/2.0/UDP host:port", in its two fields
unfoldable pub sent_protocol : List Bytes → Result (Bytes × Bytes × Bytes)
sent_protocol (name ∷ version ∷ transport ∷ []) = ok (name, version, transport)
sent_protocol _ = err malformed_protocol

unfoldable pub sent_by : List Bytes → Result (Bytes × ℤ)
unfolding atoi
sent_by (host ∷ []) = ok (host, pos 0)
sent_by (host ∷ port ∷ []) = do n ← atoi port; ok (host, n)
sent_by _ = err malformed_sent_by

unfoldable pub parse_sent : List Bytes → List KeyValue → Result ViaParam
unfolding sent_protocol sent_by split
parse_sent (protocol ∷ by ∷ []) kvs = do
  triple ← sent_protocol (split protocol b'/')
  hostport ← sent_by (split by b':')
  ok (record {
    protocol_name = triple.0;
    protocol_version = triple.1;
    transport = triple.2;
    host = hostport.0;
    port = hostport.1;
    params = kvs;
  })
parse_sent _ kvs = err malformed_via

-- Every text behind the first `;` is a parameter, the empty one too.
unfoldable pub via_values : List Bytes → List KeyValue
unfolding cut
via_values [] = []
via_values (s ∷ ss) = key_value_of s (cut b'=' s) ∷ via_values ss

unfoldable pub parse_parts : List Bytes → Result ViaParam
unfolding parse_sent via_values fields
parse_parts [] = err malformed_via
parse_parts (sent ∷ values) = parse_sent (fields sent) (via_values values)

unfoldable pub parse_via_param : Bytes → Result ViaParam
unfolding parse_parts split
parse_via_param s = parse_parts (split s b';')

unfoldable pub parse_list : List Bytes → Result (List ViaParam)
unfolding parse_via_param
parse_list [] = ok []
parse_list (s ∷ ss) = do p ← parse_via_param s; ps ← parse_list ss; ok (p ∷ ps)

unfoldable pub parse_via : Bytes → Result Via
unfolding parse_list split
parse_via s = do ps ← parse_list (split s b','); ok (record { params = ps })

unfoldable pub create_via_param : Bytes → Bytes → ℤ → ViaParam
create_via_param transport host port = record {
  protocol_name = codes "SIP";
  protocol_version = codes "2.0";
  transport = transport;
  host = host;
  port = port;
  params = [];
}

-- `branch` is what CreateBranch made of a random UUID, or its error.
unfoldable pub create_via : Result Bytes → Bytes → Bytes → ℤ → Result Via
unfolding create_via_param set_branch add_via_param new_via to_upper
create_via branch transport host port = do
  b ← branch
  let p = set_branch (create_via_param (to_upper transport) host port) b
  ok (add_via_param new_via p)
