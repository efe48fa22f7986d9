-- ===== src/Tests/Dispatch.antt =====
-- Two messages of one call that are sent to a backend, and a listener without backends.
use sipproxy.Address.{absolute_uri, print_addr_spec}
use sipproxy.Dict.{dict_get, dict_put}
use sipproxy.Dispatch.{
  ProxyItem, Clock, local_store, composite, on_left, on_right, find_transport, find_in_items,
  find_transport_by_via_config, find_transport_by_backend_addr, pool_has_prefix, find_backend_item,
}
use sipproxy.Dispatch.Choice.{
  send_to_backend, pool_of, target_addresses, first_for_addresses, transport_for_target,
  transport_of_item, with_transport, choose_target, send_to_target, after_send, send_chosen,
  send_in_session,
}
use sipproxy.Dispatch.Sticky.{
  find_backend_item-never, nil_pool_dereferenced, send_to_backend-sticky,
}
use sipproxy.Dispatch.Stores.{Keeps, local-Keeps, composite-Keeps}
use sipproxy.KeyValue.{set_param}
use sipproxy.Message.{
  raw, Message, from_value, to_value, add_compact, lookup_compact, compact_names, get_compact,
  same_compact, is_same_header, find_header, get_header, get_header_value, text_of, get_header_int,
  insert_at, find_via_insert_pos, add_via, add_record_route, get_expires,
}
use sipproxy.Message.Access.{read_value, on_first, on_header, get_from, get_to}
use sipproxy.Message.Ids.{get_session_id, get_call_id, print_dialog, get_dialog_addr, session_id}
use sipproxy.Party.{Party, address_of, get_addr_spec}
use sipproxy.Pool.{
  Backend, new_pool, add_backend, make_room, join_pool, get_backend_count, get_next_backend_index,
  get_backend_at, try_backends, send_after, pool_send, addresses_after, pool_address,
  get_all_backend_addresses,
}
use sipproxy.Prelude.{
  ℕ, ◌≡◌, true, none, some, List, [], ◌∷◌, Result, ok, err, pos, refl, inl, arith, no_session,
  nil_dereference,
}
use sipproxy.Proxy.{add_proxy_via, add_proxy_record_route, stamp}
use sipproxy.Routes.{create_record_route}
use sipproxy.Session.{LocalSessions, fresh_backend, get_session, session_seconds}
use sipproxy.Text.{Bytes, codes, str_eq, str_lt, starts_with, to_lower, equal_fold}
use sipproxy.Via.{new_via, add_via_param, set_via_value, set_branch, create_via_param, create_via}

abbrev caller : Bytes → Party
caller uri = record { name_addr = none; addr_spec = some (absolute_uri uri); params = [] }

abbrev invite : Message
invite = record {
  request = none;
  response = none;
  headers =
      record { name = codes "From"; content = from_value (caller (codes "tel:1")) }
      ∷ record { name = codes "t"; content = to_value (caller (codes "tel:2")) }
      ∷ record { name = codes "Call-ID"; content = raw (codes "c1") }
      ∷ [];
  body = [];
  received_from = none;
}

abbrev again : Message
again = record invite { body = codes "again" }

abbrev pbx : ℕ → Bytes → Backend
pbx i a = record { identity = i; address = a }

abbrev listener : ProxyItem
listener = record {
  transports =
      record { protocol = codes "udp"; address = codes "10.0.0.9"; local_port = pos 5060 } ∷ [];
  pool = some (
      add_backend (pbx 1 (codes "udp://10.0.0.1"))
        (add_backend (pbx 2 (codes "udp://10.0.0.2")) new_pool));
}

abbrev bare_listener : ProxyItem
bare_listener = record listener { pool = none }

abbrev at : ℕ → Clock
at t = record { get_now = t; now = t; test_now = t; clean_now = t; entry_now = λ id. t }

abbrev no_calls : LocalSessions
no_calls = record { timeout = 30; sessions = []; next_clean_time = 0 }

abbrev first_outcome : Result (Backend × Message) × List ProxyItem × LocalSessions
first_outcome =
    send_to_backend (ok (codes "z9hG4bK1")) true (λ b. true) (local_store (at 10)) (codes "udp")
      (some 0) none invite (listener ∷ []) no_calls

abbrev sent_invite : Message
sent_invite = elim first_outcome.0 [ ok p ↦ p.1 | err _ ↦ invite ]

abbrev call_id : Bytes
call_id = codes "c1-tel:1-tel:2"

invite_session : (get_session_id invite).0 ≡ ok call_id
unfolding get_session_id get_call_id get_header_value get_header find_header is_same_header
    same_compact get_compact lookup_compact compact_names add_compact str_eq to_lower equal_fold
    text_of get_from get_to on_header on_first read_value get_addr_spec address_of get_dialog_addr
    print_addr_spec session_id str_lt print_dialog
invite_session = refl

again_session : (get_session_id again).0 ≡ ok call_id
unfolding get_session_id get_call_id get_header_value get_header find_header is_same_header
    same_compact get_compact lookup_compact compact_names add_compact str_eq to_lower equal_fold
    text_of get_from get_to on_header on_first read_value get_addr_spec address_of get_dialog_addr
    print_addr_spec session_id str_lt print_dialog
again_session = refl

outcome_sent : first_outcome.0 ≡ ok (pbx 1 (codes "udp://10.0.0.1"), sent_invite)
unfolding get_session_id get_call_id get_header_value get_header find_header is_same_header
    same_compact get_compact lookup_compact compact_names add_compact str_eq to_lower equal_fold
    text_of get_from get_to on_header on_first read_value get_addr_spec address_of get_dialog_addr
    print_addr_spec session_id str_lt print_dialog send_to_backend send_in_session find_backend_item
    pool_has_prefix pool_address addresses_after starts_with local_store get_session fresh_backend
    dict_get choose_target with_transport find_transport_by_via_config transport_for_target
    target_addresses pool_of get_all_backend_addresses first_for_addresses
    find_transport_by_backend_addr find_in_items find_transport transport_of_item send_chosen
    send_to_target pool_send get_next_backend_index send_after get_backend_count try_backends
    get_backend_at add_backend new_pool make_room join_pool dict_put stamp add_proxy_via create_via
    create_via_param new_via add_via_param set_via_value set_param set_branch add_via
    find_via_insert_pos insert_at add_proxy_record_route create_record_route add_record_route
    after_send
outcome_sent = refl

no_expires : get_expires (pos 0) sent_invite ≡ pos 0
unfolding get_session_id get_call_id get_header_value get_header find_header is_same_header
    same_compact get_compact lookup_compact compact_names add_compact str_eq to_lower equal_fold
    text_of get_from get_to on_header on_first read_value get_addr_spec address_of get_dialog_addr
    print_addr_spec session_id str_lt print_dialog send_to_backend send_in_session find_backend_item
    pool_has_prefix pool_address addresses_after starts_with local_store get_session fresh_backend
    dict_get choose_target with_transport find_transport_by_via_config transport_for_target
    target_addresses pool_of get_all_backend_addresses first_for_addresses
    find_transport_by_backend_addr find_in_items find_transport transport_of_item send_chosen
    send_to_target pool_send get_next_backend_index send_after get_backend_count try_backends
    get_backend_at add_backend new_pool make_room join_pool dict_put stamp add_proxy_via create_via
    create_via_param new_via add_via_param set_via_value set_param set_branch add_via
    find_via_insert_pos insert_at add_proxy_record_route create_record_route add_record_route
    after_send get_expires get_header_int
no_expires = refl

calls_kept :
    Keeps
      (local_store (at 10))
      (local_store (at 20))
      (get_expires (pos 0) sent_invite)
      ((local_store (at 10)).get_bound call_id no_calls).1
unfolding local_store get_session fresh_backend dict_get session_seconds
calls_kept = rw no_expires (
    local-Keeps (at 10) (at 20) (pos 0) no_calls tt (omega arith) (omega arith) (λ id. omega arith))

send_to_backend-sticky_example :
    (sent : Message) × ((send_to_backend
        (ok (codes "z9hG4bK2"))
        true
        (λ b. true)
        (local_store (at 20))
        (codes "udp")
        (some 0)
        none
        again
        (listener ∷ [])
        first_outcome.2).0
      ≡ ok (pbx 1 (codes "udp://10.0.0.1"), sent))
send_to_backend-sticky_example =
    send_to_backend-sticky (ok (codes "z9hG4bK1")) (ok (codes "z9hG4bK2")) true (λ b. true)
      (λ b. true) (local_store (at 10)) (local_store (at 20)) (codes "udp") (codes "udp") (some 0) 0
      none none invite again (listener ∷ []) (listener ∷ []) no_calls 99 (codes "1-tel:1-tel:2")
      (pbx 1 (codes "udp://10.0.0.1")) sent_invite (inl refl) invite_session again_session
      calls_kept refl outcome_sent

nil_pool_dereferenced_example :
    (send_to_backend
      (ok (codes "z9hG4bK1"))
      true
      (λ b. true)
      (local_store (at 10))
      (codes "udp")
      (some 0)
      none
      invite
      (bare_listener ∷ [])
      no_calls).0
    ≡ err nil_dereference
unfolding pool_of local_store get_session fresh_backend dict_get
nil_pool_dereferenced_example =
    nil_pool_dereferenced (ok (codes "z9hG4bK1")) true (λ b. true) (local_store (at 10))
      (codes "udp") 0 none invite (bare_listener ∷ []) no_calls no_session (inl refl) refl refl

find_backend_item-never_example : find_backend_item (codes "udp") (listener ∷ []) 0 ≡ none
find_backend_item-never_example = find_backend_item-never (codes "udp") (inl refl) (listener ∷ []) 0

composite-Keeps_example :
    Keeps
      (composite (on_left (local_store (at 10)) ∷ on_right (local_store (at 10)) ∷ []))
      (composite (on_left (local_store (at 20)) ∷ on_right (local_store (at 20)) ∷ []))
      (pos 0)
      (no_calls, no_calls)
unfolding session_seconds
composite-Keeps_example =
    composite-Keeps (local_store (at 10)) (local_store (at 20)) (local_store (at 10))
      (local_store (at 20)) (pos 0) (no_calls, no_calls)
      (local-Keeps (at 10) (at 20) (pos 0) no_calls tt (omega arith) (omega arith)
        (λ id. omega arith))
