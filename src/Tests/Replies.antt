-- ===== src/Tests/Replies.antt =====
-- A response that goes back on the connection of its request.
use sipproxy.Clients.{
  Clients, new_clients, accepted_client, alloc_client, alloc_fail_over, factory_client,
  create_tcp_client, new_fail_over,
}
use sipproxy.Clients.Manager.{
  clean_expired_transport, is_supported, full_addr, tcp_transport_for, create_client_transport,
  found_or_created, get_client_transport,
}
use sipproxy.CSeq.{CSeq, parse_cseq, parse_cseq_fields}
use sipproxy.Dict.{dict_get}
use sipproxy.KeyValue.{find_param}
use sipproxy.Loop.{ProxyState, surroundings_of, attach_transaction, attach_request}
use sipproxy.Loop.Connections.{attached_request, reply_on_connection}
use sipproxy.Loop.Sends.{by_client, learned_udp, send_on_hop}
use sipproxy.Message.{
  raw, text_of, Header, Message, add_compact, lookup_compact, compact_names, get_compact,
  same_compact, is_same_header,
}
use sipproxy.Message.Access.{parsed, read_value, on_first, on_header, get_cseq, via_of, via_params}
use sipproxy.Message.Ids.{client_transaction}
use sipproxy.Message.Vias.{IsReadable}
use sipproxy.Prelude.{
  ℕ, ◌≡◌, refl, none, some, [], ◌∷◌, arith, length, get_elem?, Result, ok, pos, inl, inr, false,
}
use sipproxy.Proxy.{hop_of_via, send_on, handle_response}
use sipproxy.SelfLearn.{get_learned}
use sipproxy.Session.{LocalSessions}
use sipproxy.Tests.Loop.{empty_message, outside, start, from_peer}
use sipproxy.Text.{Bytes, codes, str_eq, to_lower, equal_fold, split, fields, cut, starts_with}
use sipproxy.Text.Number.{atoi, atoi_full}
use sipproxy.Via.{
  ViaParam, get_branch, get_via_value, get_received, parse_via, parse_list, parse_via_param,
  parse_parts, parse_sent, sent_protocol, sent_by, via_values,
}

-- An INVITE from the peer, and the answer that comes back behind the proxy's own Via.
abbrev peer_param : ViaParam
peer_param = record {
  protocol_name = codes "SIP";
  protocol_version = codes "2.0";
  transport = codes "TCP";
  host = codes "10.0.0.1";
  port = pos 5060;
  params = record { key = codes "branch"; value = codes "z9hG4bK7" } ∷ [];
}

abbrev own_via_param : ViaParam
own_via_param = record peer_param {
  host = codes "10.0.0.9";
  params = record { key = codes "branch"; value = codes "z9hG4bK1" } ∷ [];
}

abbrev invite_cseq : CSeq
invite_cseq = record { seq = pos 1; method = codes "INVITE" }

abbrev cseq_header : Header
cseq_header = record { name = codes "CSeq"; content = raw (codes "1 INVITE") }

abbrev peer_via : Header
peer_via = record {
  name = codes "v";
  content = raw (codes "SIP/2.0/TCP 10.0.0.1:5060;branch=z9hG4bK7");
}

abbrev own_via : Header
own_via = record {
  name = codes "Via";
  content = raw (codes "SIP/2.0/TCP 10.0.0.9:5060;branch=z9hG4bK1");
}

abbrev invite : Message
invite = record empty_message { headers = peer_via ∷ cseq_header ∷ [] }

abbrev answer : Message
answer = record empty_message {
  response =
      some (record { version = codes "SIP/2.0"; status_code = pos 200; reason = codes "OK" });
  headers = own_via ∷ peer_via ∷ cseq_header ∷ [];
}

peer_via-IsReadable : IsReadable peer_via
unfolding is_same_header same_compact get_compact lookup_compact compact_names add_compact str_eq
    to_lower equal_fold via_of parse_via parse_list parse_via_param parse_parts parse_sent
    sent_protocol sent_by via_values split fields atoi atoi_full cut
peer_via-IsReadable = inr (refl, (record { params = peer_param ∷ [] }, refl, λ n. cc))

own_via-IsReadable : IsReadable own_via
unfolding is_same_header same_compact get_compact lookup_compact compact_names add_compact str_eq
    to_lower equal_fold via_of parse_via parse_list parse_via_param parse_parts parse_sent
    sent_protocol sent_by via_values split fields atoi atoi_full cut
own_via-IsReadable = inr (refl, (record { params = own_via_param ∷ [] }, refl, λ n. cc))

cseq_header-IsReadable : IsReadable cseq_header
unfolding is_same_header same_compact get_compact lookup_compact compact_names add_compact str_eq
    to_lower equal_fold
cseq_header-IsReadable = inl refl

answer_vias : via_params answer.headers ≡ own_via_param ∷ peer_param ∷ []
unfolding via_params is_same_header same_compact get_compact lookup_compact compact_names
    add_compact str_eq to_lower equal_fold via_of parse_via parse_list parse_via_param parse_parts
    parse_sent sent_protocol sent_by via_values split fields atoi atoi_full cut
answer_vias = refl

invite_vias : via_params invite.headers ≡ peer_param ∷ []
unfolding via_params is_same_header same_compact get_compact lookup_compact compact_names
    add_compact str_eq to_lower equal_fold via_of parse_via parse_list parse_via_param parse_parts
    parse_sent sent_protocol sent_by via_values split fields atoi atoi_full cut
invite_vias = refl

invite_method : (get_cseq invite).0 ≡ ok invite_cseq
unfolding get_cseq on_header on_first read_value parsed text_of parse_cseq parse_cseq_fields
    is_same_header same_compact get_compact lookup_compact compact_names add_compact str_eq to_lower
    equal_fold fields atoi atoi_full
invite_method = refl

answer_method : (get_cseq answer).0 ≡ ok invite_cseq
unfolding get_cseq on_header on_first read_value parsed text_of parse_cseq parse_cseq_fields
    is_same_header same_compact get_compact lookup_compact compact_names add_compact str_eq to_lower
    equal_fold fields atoi atoi_full
answer_method = refl

abbrev transaction : Bytes
transaction = client_transaction (codes "INVITE") (codes "z9hG4bK7")

abbrev asked_for : Result ℕ × Clients
asked_for =
    get_client_transport (surroundings_of (outside 10) start.routes) 10 (λ i. 10) (codes "tcp")
      (hop_of_via peer_param).host (hop_of_via peer_param).port transaction start.clients

asked_for_first : asked_for ≡ (ok 0, asked_for.1)
unfolding get_client_transport clean_expired_transport is_supported to_lower str_eq full_addr
    found_or_created create_client_transport tcp_transport_for dict_get new_clients surroundings_of
    alloc_fail_over
asked_for_first = refl

invite_branch : get_branch peer_param ≡ ok (codes "z9hG4bK7")
unfolding get_branch get_via_value find_param str_eq
invite_branch = refl

plain_host : starts_with (codes "[") (hop_of_via peer_param).host ≡ false
unfolding hop_of_via get_received get_via_value find_param str_eq starts_with
plain_host = refl

-- What attaching the connection of the INVITE leaves.
invite_attached :
    (m : Message) × (attach_request (outside 10) from_peer invite start
      ≡ ok (
          attach_transaction
            (outside 10)
            from_peer
            (hop_of_via peer_param).host
            (hop_of_via peer_param).port
            (ok transaction, m)
            start))
unfolding str_eq
invite_attached =
    attached_request (outside 10) from_peer 7 invite peer_param [] invite_cseq (codes "z9hG4bK7")
      start refl (peer_via-IsReadable, (cseq_header-IsReadable, tt)) invite_vias invite_method refl
      invite_branch plain_host

abbrev prepared_invite : Message × ProxyState LocalSessions
prepared_invite =
    attach_transaction (outside 10) from_peer (hop_of_via peer_param).host
      (hop_of_via peer_param).port (ok transaction, invite_attached.0) start

reply_on_connection_example :
    (sent : Message) × (handle_response answer ≡ send_on (hop_of_via peer_param) transaction sent)
    × ((send_on_hop (outside 20) (hop_of_via peer_param) transaction sent prepared_invite.1).0
        ≡ ok (by_client (length asked_for.1.clients), sent))
    × (get_elem? prepared_invite.1.clients.clients (length asked_for.1.clients)
        ≡ some (accepted_client (codes "10.0.0.1") (pos 40000) 10))
unfolding get_client_transport clean_expired_transport is_supported to_lower str_eq full_addr
    found_or_created create_client_transport tcp_transport_for dict_get new_clients surroundings_of
    alloc_fail_over new_fail_over create_tcp_client factory_client alloc_client learned_udp
    get_learned attach_transaction
reply_on_connection_example =
    reply_on_connection (outside 10) (outside 20) from_peer 7 invite answer own_via_param peer_param
      [] [] invite_cseq invite_cseq (codes "z9hG4bK7") start prepared_invite.1 prepared_invite 0
      asked_for.1 (record { primary = none; secondaries = [] }) refl
      (peer_via-IsReadable, (cseq_header-IsReadable, tt)) invite_vias invite_method
      invite_attached.1 (own_via-IsReadable, (peer_via-IsReadable, (cseq_header-IsReadable, tt)))
      answer_vias answer_method refl refl invite_branch refl plain_host asked_for_first refl refl
      refl refl (omega arith) refl
