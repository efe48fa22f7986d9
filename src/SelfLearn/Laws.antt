-- ===== src/SelfLearn/Laws.antt =====
-- What a host's learned route is after learning one.
use sipproxy.Dict.{dict_get, dict_put, dict_get-put}
use sipproxy.Message.{ServerTransport}
use sipproxy.Prelude.{
  ℕ, ◌≡◌, true, none, some, arith, int_eq_sound, ◌+◌, refl, ap, ◌∙◌, inl, inr, Bool-cases,
  Option-cases,
}
use sipproxy.SelfLearn.{
  SelfLearnRoute, is_same_transport, learned_same, learn_route, get_learned, route_key,
  clean_expires, learn_at,
}
use sipproxy.Text.{Bytes}
use sipproxy.Text.Equality.{str_eq_sound, str_eq_refl}

is_same_transport_sound : (a b : ServerTransport) → is_same_transport a b ≡ true → a ≡ b
unfolding is_same_transport
is_same_transport_sound a b h =
    let p : a.protocol ≡ b.protocol = str_eq_sound a.protocol b.protocol (ground (arith, h)) in
    let q : a.address ≡ b.address = str_eq_sound a.address b.address (ground (arith, h)) in
    let r : a.local_port ≡ b.local_port =
      int_eq_sound a.local_port b.local_port (ground (arith, h)) in
    λ i. record { protocol = p i; address = q i; local_port = r i }

learn_at-finds :
    (key : Bytes) (t : ServerTransport) (now : ℕ) (s : SelfLearnRoute)
    → (e : ℕ) × (dict_get key (learn_at key t now s).route
        ≡ some (record { transport = t; expire = e }))
unfolding learn_at learned_same
learn_at-finds key t now s = elim (Option-cases (dict_get key s.route)) [
  | inl e ↦ rw e put
  | inr (item, e) ↦ elim (Bool-cases (is_same_transport item.transport t)) [
    | inl same ↦
        rw (e, same)
          (
            item.expire,
            e
                ∙ ap (λ u. some (record { transport = u; expire = item.expire }))
                    (is_same_transport_sound item.transport t same),
          )
    | inr other ↦ rw (e, other) put
  ]
]
  where
    put :
        (e : ℕ) × (dict_get key
            (dict_put key (record { transport = t; expire = now + s.expire }) s.route)
          ≡ some (record { transport = t; expire = e }))
    put = (now + s.expire, dict_get-put key key _ s.route ∙ rw (str_eq_refl key) refl)

-- The route of a host is the transport that was learned last, whatever was learned or swept before.
pub get-learn_route :
    (ip : Bytes) (t : ServerTransport) (clean_now now : ℕ) (s : SelfLearnRoute)
    → get_learned ip t.protocol (learn_route ip t clean_now now s) ≡ some t
unfolding get_learned learn_route
get-learn_route ip t clean_now now s =
    ap (λ o. elim o [ some item ↦ some item.transport | none ↦ none ])
      (learn_at-finds (route_key ip t.protocol) t now (clean_expires clean_now s)).1
