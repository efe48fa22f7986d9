-- ===== src/Tests/Sessions.antt =====
-- A response to a BYE at the end of a call, and a message with a Route.
use sipproxy.Address.{absolute_uri, print_addr_spec, sip_uri}
use sipproxy.Dict.{dict_get}
use sipproxy.Dispatch.{Clock, local_store, RedisStore, composite, first_bound}
use sipproxy.Dispatch.Stores.{session_backends}
use sipproxy.Loop.Sends.{handle_session}
use sipproxy.Loop.Sessions.{handle_session-bye}
use sipproxy.Message.{
  raw, from_value, to_value, cseq_value, Message, add_compact, lookup_compact, compact_names,
  get_compact, same_compact, is_same_header, find_header, get_header, get_header_value, text_of,
  is_response, route_value,
}
use sipproxy.Message.Access.{
  read_value, on_first, on_header, get_from, get_to, get_cseq, get_method, get_route,
}
use sipproxy.Message.Ids.{get_call_id, print_dialog, get_dialog_addr, session_id, get_session_id}
use sipproxy.Party.{Party, address_of, get_addr_spec}
use sipproxy.Pool.{Backend}
use sipproxy.Prelude.{
  ℕ, Result, true, ◌≡◌, refl, none, some, [], ◌∷◌, no_session, ok, err, pos, false, no_route,
}
use sipproxy.Proxy.{get_next_request_hop}
use sipproxy.Proxy.Requests.{get_next_request_hop-route}
use sipproxy.Routes.{RouteParam, Route}
use sipproxy.Session.{LocalSessions, get_session, fresh_backend}
use sipproxy.SipUri.{SipUri, get_transport, get_uri_port}
use sipproxy.Text.{Bytes, codes, str_eq, str_lt, to_lower, equal_fold}

abbrev party : Bytes → Party
party uri = record { name_addr = none; addr_spec = some (absolute_uri uri); params = [] }

abbrev bye_ok : Message
bye_ok = record {
  request = none;
  response =
      some (record { version = codes "SIP/2.0"; status_code = pos 200; reason = codes "OK" });
  headers =
      record { name = codes "From"; content = from_value (party (codes "tel:1")) }
      ∷ record { name = codes "t"; content = to_value (party (codes "tel:2")) }
      ∷ record { name = codes "Call-ID"; content = raw (codes "c1") }
      ∷ record {
        name = codes "CSeq";
        content = cseq_value (record { seq = pos 2; method = codes "BYE" });
      }
      ∷ [];
  body = [];
  received_from = none;
}

abbrev call : Bytes
call = codes "c1-tel:1-tel:2"

bye_ok_session : (get_session_id bye_ok).0 ≡ ok call
unfolding get_session_id get_call_id get_header_value get_header find_header is_same_header
    same_compact get_compact lookup_compact compact_names add_compact str_eq to_lower equal_fold
    text_of get_from get_to on_header on_first read_value get_addr_spec address_of get_dialog_addr
    print_addr_spec session_id str_lt print_dialog
bye_ok_session = refl

bye_ok_method : (get_method (get_session_id bye_ok).1).0 ≡ ok (codes "BYE")
unfolding get_session_id get_call_id get_header_value get_header find_header is_same_header
    same_compact get_compact lookup_compact compact_names add_compact str_eq to_lower equal_fold
    text_of get_from get_to on_header on_first read_value get_addr_spec address_of get_dialog_addr
    print_addr_spec session_id str_lt print_dialog get_method get_cseq
bye_ok_method = refl

abbrev calls : LocalSessions
calls = record {
  timeout = 30;
  sessions =
      (call, record { backend = record { identity = 1; address = codes "a" }; expire = 100 }) ∷ [];
  next_clean_time = 5;
}

abbrev at_time : ℕ → Clock
at_time n = record { get_now = n; now = n; test_now = n; clean_now = n; entry_now = λ k. n }

-- The session stands in both stores.
abbrev both : LocalSessions × RedisStore
both = (
  calls,
  record {
    timeout = 30;
    addresses = record {
      addresses = (call, record { address = codes "a"; expires = 100 }) ∷ [];
      next_clean = 100;
    };
    count = 1;
    master = 0;
    published = [];
  },
)

abbrev known_backend : Bytes → Result Backend
known_backend address = ok (record { identity = 1; address = address })

handle_session-bye_example :
    ((session_backends true (at_time 50) (λ i. true) known_backend).get_bound call (
      handle_session (session_backends true (at_time 40) (λ i. false) known_backend) bye_ok both)).0
    ≡ err no_session
unfolding is_response session_backends composite first_bound local_store get_session fresh_backend
    dict_get str_eq
handle_session-bye_example =
    handle_session-bye true (at_time 40) (at_time 50) (λ i. false) (λ i. true) known_backend
      known_backend call bye_ok both refl bye_ok_session bye_ok_method refl

abbrev edge_uri : SipUri
edge_uri = record {
  scheme = codes "sip";
  user = [];
  password = [];
  host = codes "10.0.0.3";
  port = pos 0;
  parameters = record { key = codes "lr"; value = [] } ∷ [];
  headers = [];
}

abbrev edge_param : RouteParam
edge_param = record {
  name_addr = record { display_name = []; addr = sip_uri edge_uri };
  rr_param = [];
}

abbrev edge_route : Route
edge_route = record { route_params = edge_param ∷ [] }

abbrev routed : Message
routed = record bye_ok {
  headers = record { name = codes "Route"; content = route_value edge_route } ∷ bye_ok.headers;
}

routed_route : get_route routed ≡ (ok edge_route, routed)
unfolding get_route on_header on_first read_value is_same_header same_compact get_compact
    lookup_compact compact_names add_compact str_eq to_lower equal_fold
routed_route = refl

get_next_request_hop-route_example :
    (get_next_request_hop false (λ host. err no_route) routed).0
    ≡ ok (record {
      host = codes "10.0.0.3";
      port = get_uri_port edge_uri;
      transport = get_transport edge_uri;
    })
get_next_request_hop-route_example =
    get_next_request_hop-route false (λ host. err no_route) routed routed edge_route edge_param []
      edge_uri routed_route refl refl
