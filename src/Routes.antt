-- ===== src/Routes.antt =====
-- The Route and Record-Route headers, route.go and record_route.go. RouteParam and RecRoute have
-- the same fields.
pub mod RoundTrip
use sipproxy.Address.{sip_uri, NameAddr, parse_name_addr, print_name_addr}
use sipproxy.KeyValue.{KeyValue, print_key_value, parse_generic_params, print_params}
use sipproxy.Prelude.{
  ℕ, not, Option, none, some, List, [], ◌∷◌, ◌++◌, ◌==◌, if◌then◌else◌, length, get_elem?,
  out_of_bound, malformed_route, no_route_param, Result, ok, err, ◌>>=◌, ℤ,
}
use sipproxy.SipUri.{blank_uri, add_parameter}
use sipproxy.Text.{Bytes, codes, cut, trim_space, split}

pub record RouteParam : Type 0 where
  pub name_addr : NameAddr
  pub rr_param : List KeyValue

pub record Route : Type 0 where
  pub route_params : List RouteParam

pub record RecordRoute : Type 0 where
  pub rec_route : List RouteParam

-- What stands behind the `>`, without white space at its ends.
unfoldable pub parse_rr_params : Bytes → Result (List KeyValue)
unfolding parse_generic_params split
parse_rr_params [] = ok []
parse_rr_params (c ∷ s) =
    if not (c == b';') then err malformed_route else parse_generic_params (split s b';')

unfoldable pub parse_route_param_at : Option (Bytes × Bytes) → Result RouteParam
unfolding parse_rr_params parse_name_addr trim_space
parse_route_param_at none = err malformed_route
parse_route_param_at (some (before, behind)) = do
  na ← parse_name_addr (before ++ b'>' ∷ [])
  kvs ← parse_rr_params (trim_space behind)
  ok (record { name_addr = na; rr_param = kvs })

unfoldable pub parse_route_param : Bytes → Result RouteParam
unfolding parse_route_param_at cut
parse_route_param s = parse_route_param_at (cut b'>' s)

-- ParseRecRoute
unfoldable pub parse_rec_route : Bytes → Result RouteParam
unfolding parse_route_param_at cut
parse_rec_route s = parse_route_param_at (cut b'>' s)

unfoldable pub parse_route_params : List Bytes → Result (List RouteParam)
unfolding parse_route_param
parse_route_params [] = ok []
parse_route_params (s ∷ ss) = do r ← parse_route_param s; rs ← parse_route_params ss; ok (r ∷ rs)

unfoldable pub parse_route : Bytes → Result Route
unfolding parse_route_params split
parse_route s = do rs ← parse_route_params (split s b','); ok (record { route_params = rs })

unfoldable pub parse_rec_routes : List Bytes → Result (List RouteParam)
unfolding parse_rec_route
parse_rec_routes [] = ok []
parse_rec_routes (s ∷ ss) = do r ← parse_rec_route s; rs ← parse_rec_routes ss; ok (r ∷ rs)

unfoldable pub non_empty : List RouteParam → Result RecordRoute
non_empty [] = err malformed_route
non_empty (r ∷ rs) = ok (record { rec_route = r ∷ rs })

unfoldable pub parse_record_route : Bytes → Result RecordRoute
unfolding parse_rec_routes non_empty split
parse_record_route s = do rs ← parse_rec_routes (split s b','); non_empty rs

-- An index is never negative where it is used.
unfoldable pub get_route_param : Route → ℕ → Result RouteParam
get_route_param r i = elim (get_elem? r.route_params i) [ none ↦ err out_of_bound | some p ↦ ok p ]

unfoldable pub pop_first_route : List RouteParam → Result RouteParam × Route
pop_first_route [] = (err no_route_param, record { route_params = [] })
pop_first_route (p ∷ ps) = (ok p, record { route_params = ps })

unfoldable pub pop_route_param : Route → Result RouteParam × Route
unfolding pop_first_route
pop_route_param r = pop_first_route r.route_params

unfoldable pub get_route_param_count : Route → ℕ
get_route_param_count r = length r.route_params

-- RouteParam.Write puts no `;` before a parameter.
unfoldable pub write_rr_params : List KeyValue → Bytes
unfolding print_key_value
write_rr_params [] = []
write_rr_params (kv ∷ kvs) = print_key_value kv ++ write_rr_params kvs

unfoldable pub print_route_param : RouteParam → Bytes
unfolding write_rr_params print_name_addr
print_route_param r = print_name_addr r.name_addr ++ write_rr_params r.rr_param

unfoldable pub print_route_params : List RouteParam → Bytes
unfolding print_route_param
print_route_params [] = []
print_route_params (r ∷ []) = print_route_param r
print_route_params (r ∷ q ∷ rs) = print_route_param r ++ (b',' ∷ print_route_params (q ∷ rs))

unfoldable pub print_route : Route → Bytes
unfolding print_route_params
print_route r = print_route_params r.route_params

unfoldable pub get_rec_route_count : RecordRoute → ℕ
get_rec_route_count r = length r.rec_route

unfoldable pub get_rec_route : RecordRoute → ℕ → Result RouteParam
get_rec_route r i = elim (get_elem? r.rec_route i) [ none ↦ err out_of_bound | some p ↦ ok p ]

unfoldable pub add_rec_route : RecordRoute → RouteParam → RecordRoute
add_rec_route r p = record { rec_route = r.rec_route ++ p ∷ [] }

unfoldable pub print_rec_route : RouteParam → Bytes
unfolding print_name_addr print_params
print_rec_route r = print_name_addr r.name_addr ++ print_params r.rr_param

unfoldable pub print_rec_routes : List RouteParam → Bytes
unfolding print_rec_route
print_rec_routes [] = []
print_rec_routes (r ∷ []) = print_rec_route r
print_rec_routes (r ∷ q ∷ rs) = print_rec_route r ++ (b',' ∷ print_rec_routes (q ∷ rs))

unfoldable pub print_record_route : RecordRoute → Bytes
unfolding print_rec_routes
print_record_route r = print_rec_routes r.rec_route

-- RecRoute.AddParam
unfoldable pub add_rr_param : RouteParam → Bytes → Bytes → RouteParam
add_rr_param r name v = record r { rr_param = r.rr_param ++ record { key = name; value = v } ∷ [] }

unfoldable pub get_rr_param : RouteParam → ℕ → Result KeyValue
get_rr_param r i = elim (get_elem? r.rr_param i) [ none ↦ err out_of_bound | some p ↦ ok p ]

unfoldable pub create_record_route : Bytes → ℤ → RecordRoute
unfolding add_parameter add_rec_route
create_record_route address port =
    let uri =
      add_parameter (record blank_uri { scheme = codes "sip"; host = address; port = port })
        (codes "lr") [] in
    add_rec_route (record { rec_route = [] })
      (record { name_addr = record { display_name = []; addr = sip_uri uri }; rr_param = [] })
