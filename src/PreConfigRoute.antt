-- ===== src/PreConfigRoute.antt =====
-- The configured routes, preconfig_route.go.
pub mod Laws
use sipproxy.Dict.{Dict, dict_get, dict_put}
use sipproxy.Message.Access.{◌>>◌}
use sipproxy.Prelude.{
  ◌>>=◌, ℕ, Bool, Option, none, some, [], ◌∷◌, ◌++◌, reverse, ◌==◌, if◌then◌else◌, no_route, Result,
  ok, err, ℤ, pos,
}
use sipproxy.Text.{Bytes, codes, cut, equal_fold}
use sipproxy.Text.Number.{atoi}

pub record PreRouteItem : Type 0 where
  pub protocol : Bytes
  pub dest : Bytes
  pub host : Bytes
  pub port : ℤ

pub record Hop : Type 0 where
  pub host : Bytes
  pub port : ℤ
  pub transport : Bytes

-- s[0:pos] and s[pos+1:] at the last occurrence of a byte.
unfoldable pub cut_last : ℕ → Bytes → Option (Bytes × Bytes)
unfolding cut
cut_last c s = elim (cut c (reverse s)) [ none ↦ none | some (b, a) ↦ some (reverse a, reverse b) ]

unfoldable pub default_port : Bytes → ℤ
unfolding equal_fold
default_port protocol = if equal_fold (codes "tls") protocol then pos 5061 else pos 5060

unfoldable pub new_pre_route_item : Bytes → Bytes → Bytes → Result PreRouteItem
unfolding cut_last default_port atoi
new_pre_route_item protocol dest next_hop = elim (cut_last b':' next_hop) [
  | none ↦
      ok
        (record { protocol = protocol; dest = dest; host = next_hop; port = default_port protocol })
  | some (host, port) ↦ (do
    n ← atoi port
    ok (record { protocol = protocol; dest = dest; host = host; port = n }))
]

unfoldable pub add_route_item :
    Bytes → Bytes → Bytes → Dict PreRouteItem → Result PreRouteItem × Dict PreRouteItem
unfolding new_pre_route_item dict_put
add_route_item protocol dest next_hop items =
    let item = new_pre_route_item protocol dest next_hop in
    (item, elim item [ ok i ↦ dict_put dest i items | err _ ↦ items ])

-- strings.Replace(s, old, new, -1) for one byte
unfoldable pub replace_byte : ℕ → Bytes → Bytes → Bytes
replace_byte c new [] = []
replace_byte c new (x ∷ s) = (if x == c then new else x ∷ []) ++ replace_byte c new s

unfoldable pub to_regular_exp : Bytes → Bytes
unfolding replace_byte
to_regular_exp s =
    b'^' ∷ (replace_byte b'*' (codes ".*") (replace_byte b'.' (codes "\\.") s) ++ b'$' ∷ [])

unfoldable pub hop_of : PreRouteItem → Hop
hop_of i = record { host = i.host; port = i.port; transport = i.protocol }

-- The first match in the order of the range; `matches` is regexp.MatchString(pattern, text), false
-- where it has an error.
unfoldable pub first_match :
    (Bytes → Bytes → Bool) → Bytes → Dict PreRouteItem → Option PreRouteItem
unfolding to_regular_exp
first_match matches dest [] = none
first_match matches dest ((_, i) ∷ items) =
    let rest = first_match matches dest items in
    if matches (to_regular_exp i.dest) dest then some i else rest

unfoldable pub matched_or_default :
    (Bytes → Bytes → Bool) → Bytes → Dict PreRouteItem → Option PreRouteItem → Result Hop
unfolding hop_of dict_get
matched_or_default matches dest items (some i) = ok (hop_of i)
matched_or_default matches dest items none = elim (dict_get (codes "default") items) [
  | some i ↦ ok (hop_of i)
  | none ↦ err no_route
]

unfoldable pub find_route : (Bytes → Bytes → Bool) → Bytes → Dict PreRouteItem → Result Hop
unfolding first_match matched_or_default hop_of dict_get
find_route matches dest items = elim (dict_get dest items) [
  | some i ↦ ok (hop_of i)
  | none ↦ matched_or_default matches dest items (first_match matches dest items)
]
