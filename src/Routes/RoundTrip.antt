-- ===== src/Routes/RoundTrip.antt =====
-- Record-Route headers are read back from what is printed for them; Route parameters are not.
use sipproxy.Address.{print_name_addr}
use sipproxy.Address.RoundTrip.{IsNameAddr, cut-print_name_addr, parse_name_addr-open}
use sipproxy.KeyValue.{KeyValue, print_key_value, print_params}
use sipproxy.KeyValue.RoundTrip.{
  IsPrintable, IsParam, split-print_params, lacks-print_params, texts-lack,
  parse_generic_params-print, IsSolid, solid-print_params, solid-print_key_value,
  print_key_value-key,
}
use sipproxy.Prelude.{
  ◌≡◌, refl, ◌≢◌, true, List, [], ◌∷◌, ◌++◌, All, malformed_route, ok, err, append_assoc, arith,
}
use sipproxy.Routes.{
  RouteParam, parse_rr_params, parse_route_param_at, parse_route_param, parse_rec_route,
  parse_rec_routes, non_empty, parse_record_route, print_route_param, print_rec_route,
  print_rec_routes, print_record_route, write_rr_params,
}
use sipproxy.Text.{Bytes, codes, lacks, solid, split}
use sipproxy.Text.Cut.{lacks-append, solid-append}
use sipproxy.Text.Split.{split-lacks, split-append}
use sipproxy.Text.Trim.{trim_space-solid}

abbrev separators : Bytes
separators = codes ";,"

pub record IsRoute (r : RouteParam) : Type 0 where
  pub addr : IsNameAddr r.name_addr
  pub addr_comma : lacks b',' (print_name_addr r.name_addr) ≡ true
  pub clean : All (IsParam separators) r.rr_param
  pub solid_params : All (λ kv. IsPrintable kv × IsSolid kv) r.rr_param
  pub named : All (λ kv. kv.key ≢ []) r.rr_param

parse_rr_params-print :
    (kvs : List KeyValue)
    → All (IsParam separators) kvs
    → All (λ kv. kv.key ≢ []) kvs
    → parse_rr_params (print_params kvs) ≡ ok kvs
unfolding parse_rr_params print_params
parse_rr_params-print [] h n = refl
parse_rr_params-print (kv ∷ kvs) h n =
    let texts = texts-lack separators b';' refl (λ s c. c.0) (kv ∷ kvs) h in
    rw (split-print_params (print_key_value kv) kvs texts.0 texts.1)
      (parse_generic_params-print separators (kv ∷ kvs) h n)

parse_rec_route-print : (r : RouteParam) → IsRoute r → parse_rec_route (print_rec_route r) ≡ ok r
unfolding parse_rec_route print_rec_route parse_route_param_at
parse_rec_route-print r h = rw (
  cut-print_name_addr r.name_addr h.addr (print_params r.rr_param),
  parse_name_addr-open r.name_addr h.addr,
  trim_space-solid _ (solid-print_params r.rr_param h.solid_params),
  parse_rr_params-print r.rr_param h.clean h.named,
)

lacks_comma-print : (r : RouteParam) → IsRoute r → lacks b',' (print_rec_route r) ≡ true
unfolding print_rec_route
lacks_comma-print r h =
    let texts = texts-lack separators b',' refl (λ s c. c.1.0) r.rr_param h.clean in
    lacks-append b',' (print_name_addr r.name_addr) (print_params r.rr_param) h.addr_comma
      (lacks-print_params b',' r.rr_param refl texts)

parse_rec_routes-print :
    (r : RouteParam) (rs : List RouteParam)
    → All IsRoute (r ∷ rs)
    → parse_rec_routes (split (print_rec_routes (r ∷ rs)) b',') ≡ ok (r ∷ rs)
unfolding parse_rec_routes print_rec_routes
parse_rec_routes-print r [] h =
    rw (split-lacks (print_rec_route r) b',' (lacks_comma-print r h.0), parse_rec_route-print r h.0)
parse_rec_routes-print r (q ∷ rs) h = rw (
  split-append (print_rec_route r) (print_rec_routes (q ∷ rs)) b',' (lacks_comma-print r h.0),
  parse_rec_route-print r h.0,
  parse_rec_routes-print q rs h.1,
)

-- Printing a non-empty Record-Route header of well-formed routes and parsing the text gives the
-- header back.
pub parse-print_record_route :
    (r : RouteParam) (rs : List RouteParam)
    → All IsRoute (r ∷ rs)
    → parse_record_route (print_record_route (record { rec_route = r ∷ rs }))
      ≡ ok (record { rec_route = r ∷ rs })
unfolding parse_record_route print_record_route non_empty
parse-print_record_route r rs h = rw (parse_rec_routes-print r rs h)

rr_refused :
    (k w : Bytes) → k ≢ [] → lacks b';' k ≡ true → parse_rr_params (k ++ w) ≡ err malformed_route
unfolding parse_rr_params
rr_refused [] w n l = absurd (n refl)
rr_refused (c ∷ k) w n l = ground arith

solid-write_rr_params :
    (kvs : List KeyValue)
    → All (λ kv. IsPrintable kv × IsSolid kv) kvs
    → solid (write_rr_params kvs) ≡ true
unfolding write_rr_params
solid-write_rr_params [] h = refl
solid-write_rr_params (kv ∷ kvs) h =
    solid-append (print_key_value kv) (write_rr_params kvs) (solid-print_key_value kv h.0.0 h.0.1)
      (solid-write_rr_params kvs h.1)

write_rr_params-refused :
    (kvs : List KeyValue)
    → kvs ≢ []
    → All (IsParam separators) kvs
    → All (λ kv. kv.key ≢ []) kvs
    → parse_rr_params (write_rr_params kvs) ≡ err malformed_route
unfolding write_rr_params
write_rr_params-refused [] n h k = absurd (n refl)
write_rr_params-refused (kv ∷ kvs) n h k =
    let (w, e) = print_key_value-key kv h.0.printable in
    rw (e, append_assoc) (rr_refused kv.key (w ++ write_rr_params kvs) k.0 h.0.key_free.0)

-- A Route header loses the `;` in front of its parameters, so the text of a route with well-formed
-- parameters is refused when it is parsed.
pub parse-print_route_param :
    (r : RouteParam)
    → IsRoute r
    → r.rr_param ≢ []
    → parse_route_param (print_route_param r) ≡ err malformed_route
unfolding parse_route_param print_route_param parse_route_param_at
parse-print_route_param r h n = rw (
  cut-print_name_addr r.name_addr h.addr (write_rr_params r.rr_param),
  parse_name_addr-open r.name_addr h.addr,
  trim_space-solid _ (solid-write_rr_params r.rr_param h.solid_params),
  write_rr_params-refused r.rr_param n h.clean h.named,
)
