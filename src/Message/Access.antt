-- ===== src/Message/Access.antt =====
-- The accessors of typed headers. Each finds the first header of its name and, if the value is
-- still a text, parses it and stores the result in the header; so they change the message.
use sipproxy.Address.{get_sip_uri}
use sipproxy.CSeq.{CSeq, parse_cseq}
use sipproxy.Message.{
  HeaderValue, raw, from_value, to_value, route_value, via_value, cseq_value, record_route_value,
  Header, Message, is_same_header, text_of, remove_header,
}
use sipproxy.Party.{Party, parse_from_spec, parse_to}
use sipproxy.Prelude.{
  Bool, false, ◌&&◌, Option, none, some, List, [], ◌∷◌, ◌++◌, ltb, if◌then◌else◌, no_such_header,
  not_my_address, Result, ok, err, value_or, ℤ, int_eq, ◌≡◌, ap,
}
use sipproxy.Routes.{
  Route, RecordRoute, parse_route, parse_record_route, get_route_param, pop_route_param,
  get_route_param_count,
}
use sipproxy.SipUri.{SipUri, get_uri_port}
use sipproxy.Text.{Bytes, codes, str_eq}
use sipproxy.Text.Number.{itoa}
use sipproxy.Via.{
  ViaParam, Via, new_via, add_via_param, pop_via_param, size, get_via_param, set_via_value,
  has_via_value, set_via_received, parse_via,
}

abbrev pub M : Type 0 → Type 0
M A = Message → Result A × Message

abbrev pub pure : {A : Type 0} → A → M A
pure a m = (ok a, m)

infixl 5 ◌>>=◌ ◌>>◌
abbrev pub ◌>>=◌ : {A B : Type 0} → M A → (A → M B) → M B
◌>>=◌ x f m = elim (x m).0 [ ok a ↦ f a (x m).1 | err e ↦ (err e, (x m).1) ]

abbrev pub ◌>>◌ : {A B : Type 0} → M A → M B → M B
x >> y = x >>= λ _. y

-- An action that succeeds hands its result and its message on.
pub bind-ok :
    {A B : Type 0} (x : M A) (f : A → M B) (m : Message) {a : A} {m' : Message}
    → x m ≡ (ok a, m')
    → (x >>= f) m ≡ f a m'
bind-ok x f m e = ap (λ r. elim r.0 [ ok b ↦ f b r.1 | err e ↦ (err e, r.1) ]) e

pub then-ok :
    {A B : Type 0} (x : M A) (y : M B) (m : Message) {a : A} {m' : Message}
    → x m ≡ (ok a, m')
    → (x >> y) m ≡ y m'
then-ok x y m e = bind-ok x (λ _. y) m e

-- A function of the source that leaves the message alone.
abbrev pub lift : {A : Type 0} → Result A → M A
lift r m = (r, m)

abbrev pub gets : {A : Type 0} → (Message → Result A) → M A
gets f m = (f m, m)

-- `x, err := f()` where the error is dropped and the value used.
abbrev pub try : {A : Type 0} → A → M A → M A
try d x m = (ok (value_or (x m).0 d), (x m).1)

-- The work of an accessor on the value of its header.
unfoldable pub parsed :
    {A : Type 0} → (A → HeaderValue) → HeaderValue → Result A → Result A × HeaderValue
parsed inject v (ok a) = (ok a, inject a)
parsed inject v (err e) = (err e, v)

unfoldable pub read_value :
    {A : Type 0}
    → (HeaderValue → Option A)
    → (A → HeaderValue)
    → (Bytes → Result A)
    → HeaderValue
    → Result A × HeaderValue
unfolding parsed text_of
read_value cast inject parse v = elim (cast v) [
  | some a ↦ (ok a, v)
  | none ↦ elim (text_of v) [ ok s ↦ parsed inject v (parse s) | err e ↦ (err e, v) ]
]

unfoldable pub on_first :
    {A : Type 0}
    → Bytes
    → (HeaderValue → Result A × HeaderValue)
    → List Header
    → Result A × List Header
unfolding is_same_header
on_first name f [] = (err no_such_header, [])
on_first name f (h ∷ hs) =
    let rest = on_first name f hs in
    if is_same_header h.name name
    then ((f h.content).0, record h { content = (f h.content).1 } ∷ hs)
    else (rest.0, h ∷ rest.1)

unfoldable pub on_header : {A : Type 0} → Bytes → (HeaderValue → Result A × HeaderValue) → M A
unfolding on_first
on_header name f m = let rest = on_first name f m.headers in (rest.0, record m { headers = rest.1 })

-- Writing through the pointer that an accessor returned.
abbrev pub store : HeaderValue → HeaderValue → Result (Unit {0}) × HeaderValue
store v _ = (ok tt, v)

abbrev pub to_from : HeaderValue → Option Party
to_from (from_value p) = some p
to_from _ = none

abbrev pub to_to : HeaderValue → Option Party
to_to (to_value p) = some p
to_to _ = none

abbrev pub to_route : HeaderValue → Option Route
to_route (route_value r) = some r
to_route _ = none

abbrev pub to_via : HeaderValue → Option Via
to_via (via_value v) = some v
to_via _ = none

abbrev pub to_cseq : HeaderValue → Option CSeq
to_cseq (cseq_value c) = some c
to_cseq _ = none

abbrev pub to_record_route : HeaderValue → Option RecordRoute
to_record_route (record_route_value r) = some r
to_record_route _ = none

unfoldable pub get_from : M Party
unfolding on_header read_value parse_from_spec
get_from = on_header (codes "From") (read_value to_from from_value parse_from_spec)

unfoldable pub get_to : M Party
unfolding on_header read_value parse_to
get_to = on_header (codes "To") (read_value to_to to_value parse_to)

unfoldable pub get_route : M Route
unfolding on_header read_value parse_route
get_route = on_header (codes "Route") (read_value to_route route_value parse_route)

unfoldable pub get_via : M Via
unfolding on_header read_value parse_via
get_via = on_header (codes "Via") (read_value to_via via_value parse_via)

unfoldable pub get_cseq : M CSeq
unfolding on_header read_value parse_cseq
get_cseq = on_header (codes "CSeq") (read_value to_cseq cseq_value parse_cseq)

unfoldable pub get_record_route : M RecordRoute
unfolding on_header read_value parse_record_route
get_record_route =
    on_header (codes "Record-Route")
      (read_value to_record_route record_route_value parse_record_route)

-- route.PopRouteParam() where the header keeps more routes, else the header goes.
unfoldable pub pop_route : M (Unit {0})
unfolding get_route remove_header on_header get_route_param_count pop_route_param
pop_route = do
  r ← get_route
  if ltb 1 (get_route_param_count r)
      then (do on_header (codes "Route") (store (route_value (pop_route_param r).1)); pure tt)
      else (do remove_header (codes "Route"); pure tt)

-- PopVia returns a Via header with the via-param that it removed, or the whole header. The rest of
-- it, with the header's value:
unfoldable pub split_off : Result ViaParam → M Via
unfolding add_via_param new_via
split_off r = do p ← lift r; pure (add_via_param new_via p)

unfoldable pub pop_found_via : Via → M Via
unfolding remove_header on_header size pop_via_param split_off
pop_found_via v =
    if ltb 1 (size v)
    then (do
      on_header (codes "Via") (store (via_value (pop_via_param v).1))
      split_off (pop_via_param v).0)
    else (do remove_header (codes "Via"); pure v)

unfoldable pub pop_via : M Via
unfolding get_via pop_found_via
pop_via = do v ← get_via; pop_found_via v

unfoldable pub pop_record_route : M RecordRoute
unfolding remove_header read_value parse_record_route
pop_record_route = do
  v ← remove_header (codes "Record-Route")
  lift (read_value to_record_route record_route_value parse_record_route v).0

unfoldable pub get_method : M Bytes
unfolding get_cseq
get_method m = elim m.request [
  | some line ↦ (ok line.method, m)
  | none ↦ (do c ← get_cseq; pure c.method) m
]

-- The top via-param with `received`, and with `rport` if the peer asked for it.
unfoldable pub mark_received : Bytes → ℤ → ViaParam → ViaParam
unfolding set_via_received set_via_value has_via_value itoa
mark_received peer_addr peer_port p =
    let p' = set_via_received p peer_addr in
    if has_via_value p' (codes "rport")
    then set_via_value p' (codes "rport") (itoa peer_port)
    else p'

unfoldable pub replace_top : ViaParam → List ViaParam → Via
replace_top p [] = record { params = [] }
replace_top p (_ ∷ ps) = record { params = p ∷ ps }

unfoldable pub set_received : Bytes → ℤ → M (Unit {0})
unfolding get_via get_via_param mark_received replace_top on_header
set_received peer_addr peer_port = do
  v ← get_via
  p ← lift (get_via_param v 0)
  on_header (codes "Via")
      (store (via_value (replace_top (mark_received peer_addr peer_port p) v.params)))

unfoldable pub is_my_address : Bytes → ℤ → Result SipUri → Bool
unfolding str_eq get_uri_port
is_my_address my_addr my_port (err _) = false
is_my_address my_addr my_port (ok u) = str_eq u.host my_addr && int_eq (get_uri_port u) my_port

unfoldable pub try_remove_top_route : Bytes → ℤ → M (Unit {0})
unfolding get_route get_route_param is_my_address pop_route get_sip_uri
try_remove_top_route my_addr my_port = do
  r ← get_route
  p ← lift (get_route_param r 0)
  if is_my_address my_addr my_port (get_sip_uri p.name_addr.addr)
      then try tt pop_route
      else lift (err not_my_address)

-- ForEachViaParam, for a handler that folds a state: every Via header that is or parses to a Via.
unfoldable pub via_of : HeaderValue → Option Via
unfolding parse_via
via_of (via_value v) = some v
via_of (raw s) = elim (parse_via s) [ ok v ↦ some v | err _ ↦ none ]
via_of _ = none

unfoldable pub parse_vias : List Header → List Header
unfolding via_of is_same_header
parse_vias [] = []
parse_vias (h ∷ hs) =
    (if is_same_header h.name (codes "Via")
      then elim (via_of h.content) [ some v ↦ record h { content = via_value v } | none ↦ h ]
      else h)
    ∷ parse_vias hs

unfoldable pub via_params : List Header → List ViaParam
unfolding via_of is_same_header
via_params [] = []
via_params (h ∷ hs) =
    (if is_same_header h.name (codes "Via")
      then elim (via_of h.content) [ some v ↦ v.params | none ↦ [] ]
      else [])
    ++ via_params hs

-- The via-params that the handler is called with, in order, and the message with its Via headers parsed.
unfoldable pub each_via_param : Message → List ViaParam × Message
unfolding parse_vias via_params
each_via_param m = (via_params m.headers, record m { headers = parse_vias m.headers })
