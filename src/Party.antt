-- ===== src/Party.antt =====
-- The From and To headers, from_spec.go and to.go: FromSpec and To have the same fields.
pub mod RoundTrip
use sipproxy.Address.{
  AddrSpec, parse_addr_spec, get_sip_uri, get_absolute_uri, print_addr_spec, NameAddr,
  parse_name_addr, print_name_addr,
}
use sipproxy.KeyValue.{
  KeyValue, parse_generic_params, find_param, set_param, has_param, print_params,
}
use sipproxy.Prelude.{
  Option, none, some, List, [], ◌∷◌, ◌++◌, ltb, if◌then◌else◌, length, malformed_header, no_address,
  Result, ok, err, ◌>>=◌,
}
use sipproxy.Text.{Bytes, codes, cut, split}

pub record Party : Type 0 where
  pub name_addr : Option NameAddr
  pub addr_spec : Option AddrSpec
  pub params : List KeyValue

-- The parameters behind the first `;`, if there is a text.
unfoldable pub parse_tail : Bytes → Result (List KeyValue)
unfolding parse_generic_params split
parse_tail [] = ok []
parse_tail (c ∷ s) = parse_generic_params (split (c ∷ s) b';')

unfoldable pub tail_of : Option (Bytes × Bytes) → Bytes
tail_of none = []
tail_of (some (_, tail)) = tail

-- The name-addr up to the `>`; what stands between it and the next `;` is dropped.
unfoldable pub parse_named : Bytes → Bytes → Result Party
unfolding parse_name_addr tail_of parse_tail cut
parse_named before behind = do
  na ← parse_name_addr (before ++ b'>' ∷ [])
  kvs ← parse_tail (tail_of (cut b';' behind))
  ok (record { name_addr = some na; addr_spec = none; params = kvs })

-- Without brackets the address keeps the `;` that ends it.
unfoldable pub parse_bare : Bytes → Option (Bytes × Bytes) → Result Party
unfolding parse_addr_spec parse_tail
parse_bare s none = do
  a ← parse_addr_spec s
  ok (record { name_addr = none; addr_spec = some a; params = [] })
parse_bare s (some (address, tail)) = do
  a ← parse_addr_spec (address ++ b';' ∷ [])
  kvs ← parse_tail tail
  ok (record { name_addr = none; addr_spec = some a; params = kvs })

unfoldable pub parse_bracketed : Bytes → Option (Bytes × Bytes) → Result Party
unfolding parse_named
parse_bracketed name none = err malformed_header
parse_bracketed name (some (before, behind)) =
    if ltb (length before) (length name) then err malformed_header else parse_named before behind

unfoldable pub parse_party : Bytes → Result Party
unfolding parse_bracketed parse_bare cut
parse_party s = elim (cut b'<' s) [
  | some (name, _) ↦ parse_bracketed name (cut b'>' s)
  | none ↦ parse_bare s (cut b';' s)
]

unfoldable pub parse_from_spec : Bytes → Result Party
unfolding parse_party
parse_from_spec = parse_party

unfoldable pub parse_to : Bytes → Result Party
unfolding parse_party
parse_to = parse_party

unfoldable pub address_of : Option NameAddr → Option AddrSpec → Result AddrSpec
address_of (some na) _ = ok na.addr
address_of none (some a) = ok a
address_of none none = err no_address

-- FromSpec.GetAddrSpec and To.GetAddrSpec
unfoldable pub get_addr_spec : Party → Result AddrSpec
unfolding address_of
get_addr_spec p = address_of p.name_addr p.addr_spec

unfoldable pub print_address : Bytes → Option NameAddr → Option AddrSpec → Bytes
unfolding print_name_addr print_addr_spec
print_address missing (some na) _ = print_name_addr na
print_address missing none (some a) = print_addr_spec a
print_address missing none none = missing

unfoldable pub print_from_spec : Party → Bytes
unfolding print_address print_params
print_from_spec p = print_address [] p.name_addr p.addr_spec ++ print_params p.params

unfoldable pub print_to : Party → Bytes
unfolding print_address print_params
print_to p = print_address (codes "<nil>") p.name_addr p.addr_spec ++ print_params p.params

unfoldable pub get_from_param : Party → Bytes → Result Bytes
unfolding find_param
get_from_param p name = find_param name p.params

unfoldable pub get_to_param : Party → Bytes → Result Bytes
unfolding find_param
get_to_param p name = find_param name p.params

unfoldable pub get_tag : Party → Result Bytes
unfolding find_param
get_tag p = find_param (codes "tag") p.params

-- To.AddParam
unfoldable pub add_to_param : Party → Bytes → Bytes → Party
unfolding set_param
add_to_param p name v = record p { params = set_param name v p.params }

-- FromSpec.SetTag: a new tag goes to the front.
unfoldable pub set_tag : Party → Bytes → Party
unfolding set_param has_param
set_tag p tag = record p {
  params =
      if has_param (codes "tag") p.params
      then set_param (codes "tag") tag p.params
      else record { key = codes "tag"; value = tag } ∷ p.params;
}

-- To.GetAbsoluteURI
unfoldable pub get_to_absolute_uri : Party → Result Bytes
unfolding get_addr_spec get_absolute_uri
get_to_absolute_uri p = do a ← get_addr_spec p; get_absolute_uri a

-- To.GetUserHost
unfoldable pub get_user_host : Party → Result Bytes
unfolding get_addr_spec get_sip_uri
get_user_host p = do a ← get_addr_spec p; u ← get_sip_uri a; ok (u.user ++ (b'@' ∷ u.host))

-- To.GetHost
unfoldable pub get_host : Party → Result Bytes
unfolding get_addr_spec get_sip_uri
get_host p = do a ← get_addr_spec p; u ← get_sip_uri a; ok u.host
