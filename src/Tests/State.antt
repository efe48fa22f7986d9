-- ===== src/Tests/State.antt =====
-- The theorems on messages and the proxy at concrete values.
use sipproxy.Message.{
  raw, Header, ServerTransport, Message, add_via, add_compact, lookup_compact, compact_names,
  get_compact, same_compact, is_same_header,
}
use sipproxy.Message.Access.{pop_via, mark_received, via_of, via_params}
use sipproxy.Message.Headers.{pop-add_via}
use sipproxy.Message.Ids.{get_client_transaction, get_top_via_branch}
use sipproxy.Message.Vias.{IsReadable, other_headers}
use sipproxy.Prelude.{
  ◌≡◌, refl, none, some, inl, inr, List, [], ◌∷◌, All, arith, if◌then◌else◌, ok, value_or, ℤ, pos,
}
use sipproxy.Proxy.{hop_of_via, get_next_response_hop, add_proxy_via, send_on, handle_response}
use sipproxy.Proxy.Hops.{add_proxy_via_lem, hop-mark_received}
use sipproxy.Proxy.Responses.{response_hop}
use sipproxy.Text.{Bytes, codes, str_eq, to_lower, to_upper, equal_fold, split, fields}
use sipproxy.Text.Number.{atoi, atoi_full}
use sipproxy.Via.{
  ViaParam, Via, size, has_via_value, get_via_port, parse_via, parse_list, parse_via_param,
  parse_parts, parse_sent, sent_protocol, sent_by, via_values,
}

abbrev hop_param : Bytes → ℤ → ViaParam
hop_param host port = record {
  protocol_name = codes "SIP";
  protocol_version = codes "2.0";
  transport = codes "UDP";
  host = host;
  port = port;
  params = [];
}

abbrev own : Via
own = record { params = hop_param (codes "10.0.0.9") (pos 5060) ∷ [] }

abbrev peer : Via
peer = record {
  params = hop_param (codes "10.0.0.1") (pos 5070) ∷ hop_param (codes "h") (pos 0) ∷ [];
}

abbrev bye : Message
bye = record {
  request = none;
  response = none;
  headers =
      record { name = codes "From"; content = raw (codes "<sip:a@h>") }
      ∷ record { name = codes "v"; content = raw (codes "SIP/2.0/UDP h") }
      ∷ record { name = codes "CSeq"; content = raw (codes "2 BYE") }
      ∷ [];
  body = codes "x";
  received_from = none;
}

pop-add_via_example : pop_via (add_via own bye) ≡ (ok own, bye)
unfolding size
pop-add_via_example = pop-add_via own bye (omega arith)

-- A response as it comes off the wire: the second Via header has two via-params.
abbrev ringing : Message
ringing = record {
  request = none;
  response =
      some (record { version = codes "SIP/2.0"; status_code = pos 180; reason = codes "Ringing" });
  headers =
      record { name = codes "From"; content = raw (codes "<sip:a@h>") }
      ∷ record { name = codes "Via"; content = raw (codes "SIP/2.0/UDP 10.0.0.9:5060") }
      ∷ record { name = codes "CSeq"; content = raw (codes "2 INVITE") }
      ∷ record { name = codes "v"; content = raw (codes "SIP/2.0/UDP 10.0.0.1:5070,SIP/2.0/UDP h") }
      ∷ [];
  body = [];
  received_from = none;
}

ringing-IsReadable : All IsReadable ringing.headers
unfolding is_same_header same_compact get_compact lookup_compact compact_names add_compact str_eq
    to_lower equal_fold via_of parse_via parse_list parse_via_param parse_parts parse_sent
    sent_protocol sent_by via_values split fields atoi atoi_full
ringing-IsReadable = (
  inl refl,
  (inr (refl, (own, refl, λ n. cc)), (inl refl, (inr (refl, (peer, refl, λ n. cc)), tt))),
)

ringing_vias :
    via_params ringing.headers
    ≡ hop_param (codes "10.0.0.9") (pos 5060)
      ∷ hop_param (codes "10.0.0.1") (pos 5070)
      ∷ hop_param (codes "h") (pos 0)
      ∷ []
unfolding via_params is_same_header same_compact get_compact lookup_compact compact_names
    add_compact str_eq to_lower equal_fold via_of parse_via parse_list parse_via_param parse_parts
    parse_sent sent_protocol sent_by via_values split fields atoi atoi_full
ringing_vias = refl

response_hop_example :
    (headers : List Header) × (via_params headers
      ≡ hop_param (codes "10.0.0.1") (pos 5070) ∷ hop_param (codes "h") (pos 0) ∷ [])
    × (other_headers headers ≡ other_headers ringing.headers)
    × (handle_response ringing
        ≡ send_on
            (hop_of_via (hop_param (codes "10.0.0.1") (pos 5070)))
            (value_or (get_client_transaction (record ringing { headers = headers })).0 [])
            (get_client_transaction (record ringing { headers = headers })).1)
response_hop_example =
    response_hop ringing (hop_param (codes "10.0.0.9") (pos 5060))
      (hop_param (codes "10.0.0.1") (pos 5070)) (hop_param (codes "h") (pos 0) ∷ [])
      ringing-IsReadable ringing_vias

abbrev udp : ServerTransport
udp = record { protocol = codes "udp"; address = codes "10.0.0.9"; local_port = pos 5060 }

add_proxy_via_lem_example :
    let sent = add_proxy_via (ok (codes "z9hG4bK1")) udp bye in
    (get_next_response_hop sent ≡ (
      ok (record { host = codes "10.0.0.9"; port = pos 5060; transport = to_upper (codes "udp") }),
      sent,
    ))
    × ((get_top_via_branch sent).0 ≡ ok (codes "z9hG4bK1"))
    × ((pop_via sent).1 ≡ bye)
add_proxy_via_lem_example = add_proxy_via_lem (codes "z9hG4bK1") udp bye refl

abbrev behind_nat : ViaParam
behind_nat = record (hop_param (codes "192.168.0.2") (pos 5060)) {
  params = record { key = codes "rport"; value = [] } ∷ [];
}

hop-mark_received_example :
    hop_of_via (mark_received (codes "1.2.3.4") (pos 40000) behind_nat) ≡ record {
      host = codes "1.2.3.4";
      port =
          if has_via_value behind_nat (codes "rport") then pos 40000 else get_via_port behind_nat;
      transport = codes "UDP";
    }
hop-mark_received_example = hop-mark_received (codes "1.2.3.4") (pos 40000) behind_nat (omega arith)
