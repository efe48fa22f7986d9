-- ===== src/Proxy/Responses.antt =====
-- Where a response from the network goes.
use sipproxy.Message.{HeaderValue, via_value, Header, Message, remove_header}
use sipproxy.Message.Access.{
  store, on_header, pure, bind-ok, then-ok, split_off, get_via, pop_found_via, pop_via, via_params,
}
use sipproxy.Message.Ids.{get_client_transaction}
use sipproxy.Message.Vias.{
  via_name, is_via, IsReadable, other_headers, NotVia, Top, find-Top, via_params-before,
  IsReadable-before, other_headers-before, Left, with_via, top_via, on_first-top, remove_first-top,
  other_headers-top, get_via-top, with_via-others, with_via-params, with_via-IsReadable,
}
use sipproxy.Prelude.{
  ◌≡◌, refl, sym, ap, ◌∙◌, true, List, [], ◌∷◌, ◌++◌, arith, ltb, length, suc, All, Result, ok,
  value_or,
}
use sipproxy.Proxy.{
  hop_of_via, hop_of_top, get_next_response_hop, send_on, send_response, handle_response,
}
use sipproxy.Via.{ViaParam, Via, get_via_param, pop_via_param, size}

module _ (m : Message) (before : List Header) (top : Header) (behind : List Header)
    (h : All NotVia before) (named : is_via top ≡ true) where
  abbrev whole : Message
  whole = record m { headers = before ++ top ∷ behind }

  pop_single :
      (p : ViaParam)
      → (pop_found_via (record { params = p ∷ [] }) whole).1
        ≡ record m { headers = before ++ behind }
  unfolding pop_found_via remove_header size
  pop_single p =
      let removed : remove_header via_name whole
          ≡ (ok top.content, record m { headers = before ++ behind }) =
        ap (λ (x : Result HeaderValue × List Header). (x.0, record m { headers = x.1 }))
          (remove_first-top top behind named before h) in
      ap (λ (x : Result Via × Message). x.1)
        (then-ok (remove_header via_name) (pure (record { params = p ∷ [] })) whole removed)

  pop_several :
      (p q : ViaParam) (qs : List ViaParam)
      → (pop_found_via (record { params = p ∷ q ∷ qs }) whole).1 ≡ record m {
        headers =
            before ++ record top { content = via_value (record { params = q ∷ qs }) } ∷ behind;
      }
  unfolding pop_found_via on_header size pop_via_param split_off
  pop_several p q qs =
      let several : ltb 1 (suc (suc (length qs))) ≡ true = ground arith in
      let rest : Via = record { params = q ∷ qs } in
      let stored : on_header via_name (store (via_value rest)) whole ≡ (
        ok tt,
        record m { headers = before ++ record top { content = via_value rest } ∷ behind },
      ) =
        ap (λ (x : Result (Unit {0}) × List Header). (x.0, record m { headers = x.1 }))
          (on_first-top top behind named (store (via_value rest)) before h) in
      rw several (
        ap (λ (x : Result Via × Message). x.1)
          (then-ok (on_header via_name (store (via_value rest))) (split_off (ok p)) whole stored))

module _ (m : Message) (p : ViaParam) (ps : List ViaParam) (t : Top m.headers p ps) where
  pop_top :
      pop_via m
      ≡ pop_found_via (top_via m p ps t) (record m { headers = with_via t (top_via m p ps t) })
  unfolding pop_via
  pop_top = bind-ok get_via pop_found_via m (get_via-top m p ps t)

  abbrev read_top : List ViaParam → Header
  read_top more = record t.top { content = via_value (record { params = p ∷ more }) }

  popped_top :
      (more : List ViaParam)
      → t.more ≡ more
      → (pop_via m).1
        ≡ (pop_found_via
            (record { params = p ∷ more })
            (record m { headers = t.before ++ read_top more ∷ t.behind })).1
  popped_top more e =
      ap (λ (x : Result Via × Message). x.1) pop_top
      ∙ ap
          (λ x.
            (pop_found_via (record { params = p ∷ x })
              (record m { headers = t.before ++ read_top x ∷ t.behind })).1)
          e

  after_pop : (more : List ViaParam) → t.more ≡ more → Left m ps (pop_via m).1
  after_pop [] e = record {
    headers = t.before ++ t.behind;
    same = popped_top [] e ∙ pop_single m t.before (read_top []) t.behind t.none_before t.named p;
    vias =
        via_params-before t.before t.behind t.none_before
        ∙ sym (t.rest ∙ ap (λ x. x ++ via_params t.behind) e);
    others =
        other_headers-before t.before t.behind t.none_before
        ∙ sym (other_headers-top t.top t.behind t.named t.before t.none_before)
        ∙ ap other_headers (sym t.split);
    readable = IsReadable-before t.before t.behind t.none_before t.readable;
  }
  after_pop (q ∷ qs) e = record {
    headers = with_via t (record { params = q ∷ qs });
    same =
        popped_top (q ∷ qs) e
        ∙ pop_several m t.before (read_top (q ∷ qs)) t.behind t.none_before t.named p q qs;
    vias =
        with_via-params m p ps t (record { params = q ∷ qs })
        ∙ sym (t.rest ∙ ap (λ x. x ++ via_params t.behind) e);
    others = with_via-others m p ps t (record { params = q ∷ qs });
    readable = with_via-IsReadable m p ps t (record { params = q ∷ qs }) (λ n. cc);
  }

-- The next hop of a message is read from its first via-param, and the rest of it stays.
module _ (m : Message) (p : ViaParam) (ps : List ViaParam) where
  next_hop :
      (t : Top m.headers p ps)
      → get_next_response_hop m
        ≡ (ok (hop_of_via p), record m { headers = with_via t (top_via m p ps t) })
  unfolding get_next_response_hop hop_of_top get_via_param
  next_hop t = bind-ok get_via hop_of_top m (get_via-top m p ps t)

  after_next_hop : (t : Top m.headers p ps) → Left m (p ∷ ps) (get_next_response_hop m).1
  after_next_hop t = record {
    headers = with_via t (top_via m p ps t);
    same = ap (λ x. x.1) (next_hop t);
    vias = with_via-params m p ps t (top_via m p ps t) ∙ ap (λ qs. p ∷ qs) (sym t.rest);
    others = with_via-others m p ps t (top_via m p ps t);
    readable = with_via-IsReadable m p ps t (top_via m p ps t) (λ n. cc);
  }

-- The next hop of a message whose Via headers can be read, with the headers that are left.
pub next_hop_left :
    (m : Message) (p : ViaParam) (ps : List ViaParam)
    → All IsReadable m.headers
    → via_params m.headers ≡ p ∷ ps
    → (headers : List Header) × (All IsReadable headers)
      × (via_params headers ≡ p ∷ ps)
      × (other_headers headers ≡ other_headers m.headers)
      × (get_next_response_hop m ≡ (ok (hop_of_via p), record m { headers = headers }))
unfolding after_next_hop
next_hop_left m p ps readable vias =
    let t : Top m.headers p ps = find-Top m.headers p ps readable vias in
    let left : Left m (p ∷ ps) (get_next_response_hop m).1 = after_next_hop m p ps t in
    (left.headers, left.readable, left.vias, left.others, next_hop m p ps t)

-- The headers with which a response goes on.
pub response_left :
    (m : Message) (own p : ViaParam) (ps : List ViaParam)
    → All IsReadable m.headers
    → via_params m.headers ≡ own ∷ p ∷ ps
    → (headers : List Header) × (All IsReadable headers)
      × (via_params headers ≡ p ∷ ps)
      × (other_headers headers ≡ other_headers m.headers)
      × (handle_response m
          ≡ send_on
              (hop_of_via p)
              (value_or (get_client_transaction (record m { headers = headers })).0 [])
              (get_client_transaction (record m { headers = headers })).1)
unfolding handle_response send_response after_next_hop
response_left m own p ps readable vias =
    let t : Top m.headers own (p ∷ ps) = find-Top m.headers own (p ∷ ps) readable vias in
    let rest : Left m (p ∷ ps) (pop_via m).1 = after_pop m own (p ∷ ps) t t.more refl in
    let left : Message = record m { headers = rest.headers } in
    let u : Top rest.headers p ps = find-Top rest.headers p ps rest.readable rest.vias in
    let sent : Left left (p ∷ ps) (get_next_response_hop left).1 = after_next_hop left p ps u in
    (
      sent.headers,
      sent.readable,
      sent.vias,
      sent.others ∙ rest.others,
      ap (λ n. send_response (get_next_response_hop n)) rest.same
          ∙ ap send_response (next_hop left p ps u),
    )

-- A response whose Via headers can be read, be they texts or parsed, one via-param to a header or
-- several, loses its first via-param, which the proxy had added, and goes to the address of the second,
-- with the transaction of what is left. What is left has the other via-params in their order, and every
-- other part and header of the message as it was.
pub response_hop :
    (m : Message) (own p : ViaParam) (ps : List ViaParam)
    → All IsReadable m.headers
    → via_params m.headers ≡ own ∷ p ∷ ps
    → (headers : List Header) × (via_params headers ≡ p ∷ ps)
      × (other_headers headers ≡ other_headers m.headers)
      × (handle_response m
          ≡ send_on
              (hop_of_via p)
              (value_or (get_client_transaction (record m { headers = headers })).0 [])
              (get_client_transaction (record m { headers = headers })).1)
response_hop m own p ps readable vias =
    let (headers, _, left, others, sent) = response_left m own p ps readable vias in
    (headers, left, others, sent)
