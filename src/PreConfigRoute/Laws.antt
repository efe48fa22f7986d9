-- ===== src/PreConfigRoute/Laws.antt =====
-- Which configured route a destination takes, and how the next hop of one is read.
use mathlib.Core.List.{reverse-cons, reverse-append, reverse-reverse}
use mathlib.Core.Path.{ap₂}
use sipproxy.Dict.{Dict, dict_get-put, dict_get}
use sipproxy.PreConfigRoute.{
  PreRouteItem, cut_last, new_pre_route_item, add_route_item, hop_of, find_route,
}
use sipproxy.Prelude.{
  ◌≡◌, refl, Bool, ◌∷◌, ◌++◌, ok, ℤ, ℕ, ◌∙◌, true, some, [], reverse, append_assoc, arith, ap, none,
}
use sipproxy.Text.{Bytes, lacks, cut}
use sipproxy.Text.Cut.{cut-append, lacks-append}
use sipproxy.Text.Equality.{str_eq_refl}
use sipproxy.Text.Number.{itoa}
use sipproxy.Text.Number.RoundTrip.{IsInt, atoi-itoa, lacks-itoa}

-- A destination that is configured literally takes that route, whatever patterns match it.
pub find_route_exact :
    (matches : Bytes → Bytes → Bool) (protocol dest next_hop : Bytes) (items : Dict PreRouteItem)
    (i : PreRouteItem)
    → new_pre_route_item protocol dest next_hop ≡ ok i
    → find_route matches dest (add_route_item protocol dest next_hop items).1 ≡ ok (hop_of i)
unfolding find_route add_route_item
find_route_exact matches protocol dest next_hop items i h =
    let stored : dict_get dest (add_route_item protocol dest next_hop items).1 ≡ some i =
      rw (h, dict_get) (dict_get-put dest dest i items ∙ rw (str_eq_refl dest) refl) in
    rw (stored, find_route) refl

lacks-reverse : (c : ℕ) (s : Bytes) → lacks c s ≡ true → lacks c (reverse s) ≡ true
lacks-reverse c [] h = refl
lacks-reverse c (x ∷ s) h = rw (reverse-cons x s) (
    lacks-append c (reverse s) (x ∷ []) (lacks-reverse c s (ground (arith, h))) (ground (arith, h)))

cut_last-append : (c : ℕ) (a b : Bytes) → lacks c b ≡ true → cut_last c (a ++ c ∷ b) ≡ some (a, b)
unfolding cut_last
cut_last-append c a b h =
    let around : reverse (a ++ c ∷ b) ≡ reverse b ++ c ∷ reverse a =
      reverse-append a (c ∷ b)
      ∙ rw (reverse-cons c b) (append_assoc (reverse b) (c ∷ []) (reverse a)) in
    let found : cut c (reverse (a ++ c ∷ b)) ≡ some (reverse b, reverse a) =
      ap (cut c) around ∙ cut-append c (reverse b) (reverse a) (lacks-reverse c b h) in
    ap (λ o. elim o [ none ↦ none | some (x, y) ↦ some (reverse y, reverse x) ]) found
    ∙ ap₂ (λ x y. some (x, y)) (reverse-reverse a) (reverse-reverse b)

-- A next hop written `host:port` is read back as that host and port, also where the host has colons.
pub read_next_hop :
    (protocol dest host : Bytes) (n : ℤ)
    → IsInt n
    → new_pre_route_item protocol dest (host ++ b':' ∷ itoa n)
      ≡ ok (record { protocol = protocol; dest = dest; host = host; port = n })
unfolding new_pre_route_item
read_next_hop protocol dest host n h =
    rw
      (
        new_pre_route_item,
        cut_last-append b':' host (itoa n) (lacks-itoa b':' n refl refl),
        atoi-itoa n h,
      )
      refl
