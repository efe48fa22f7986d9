-- ===== src/Clients/Manager.antt =====
-- ClientTransportMgr of transport.go: the fail-over transports by address. `join` is
-- net.JoinHostPort, and `show_conn` is the `%p` of the connection that a server transport listens on.
use sipproxy.Clients.{
  FailOverClient, Clients, accepted_client, alloc_client, alloc_fail_over, create_udp_client,
  create_udp_client_with_conn, create_tcp_client, new_fail_over, set_primary, transport_expired,
}
use sipproxy.Dict.{dict_get, dict_delete, dict_put, dict_sweep}
use sipproxy.Message.{ServerTransport}
use sipproxy.Prelude.{
  ℕ, zero, suc, ◌+◌, Bool, ◌||◌, Option, none, some, List, [], ◌∷◌, ◌++◌, ltb, if◌then◌else◌,
  get_elem?, unsupported_protocol, Result, ok, err, ℤ,
}
use sipproxy.Text.{Bytes, codes, str_eq, to_lower, join}
use sipproxy.Text.Number.{itoa}

-- cleanExpiredTransport
unfoldable pub clean_expired_transport : ℕ → (ℕ → ℕ) → Clients → Clients
unfolding transport_expired dict_sweep
clean_expired_transport now client_now s =
    if ltb now (s.last_clean_time + 60) then s else record s {
      last_clean_time = now;
      transports = dict_sweep (λ key i. transport_expired client_now s i) s.transports;
    }

unfoldable pub is_supported : Bytes → Bool
unfolding str_eq
is_supported protocol = str_eq protocol (codes "udp") || str_eq protocol (codes "tcp")

-- getFullAddr
unfoldable pub with_transaction : Bytes → Bytes → Bytes
with_transaction addr [] = addr
with_transaction addr (c ∷ id) = addr ++ (b'-' ∷ c ∷ id)

unfoldable pub full_addr : (Bytes → Bytes → Bytes) → Bytes → Bytes → ℤ → Bytes → Bytes
unfolding with_transaction itoa str_eq
full_addr join protocol host port trans_id =
    let addr = protocol ++ (codes "://" ++ join host (itoa port)) in
    if str_eq protocol (codes "tcp") then with_transaction addr trans_id else addr

-- The client of a UDP transport: on the connection of the learned server transport, if there is one.
unfoldable pub udp_client_for :
    (ServerTransport → Bytes) → Option ServerTransport → Bytes → ℤ → Bytes → Clients → ℕ × Clients
unfolding create_udp_client create_udp_client_with_conn
udp_client_for show_conn none host port local s = create_udp_client host port local s
udp_client_for show_conn (some t) host port local s =
    create_udp_client_with_conn host port (show_conn t) s

-- A fail-over transport of the secondaries that stand under the address without a transaction, or of
-- none; where none stand there, one of a new client is stored.
unfoldable pub secondaries_of : List FailOverClient → ℕ → List ℕ
secondaries_of fs i = elim (get_elem? fs i) [ none ↦ [] | some f ↦ f.secondaries ]

unfoldable pub tcp_transport_for : Bytes → Bytes → ℤ → Bytes → Option ℕ → Clients → ℕ × Clients
unfolding alloc_fail_over new_fail_over secondaries_of create_tcp_client dict_put
tcp_transport_for addr host port local (some i) s =
    alloc_fail_over (new_fail_over none (secondaries_of s.fail_overs i)) s
tcp_transport_for addr host port local none s =
    let client = create_tcp_client host port local s in
    let made = alloc_fail_over (new_fail_over none (client.0 ∷ [])) client.1 in
    (made.0, record made.1 { transports = dict_put addr made.0 made.1.transports })

-- What the manager asks of its surroundings: net.JoinHostPort, the connections of server transports,
-- and the learned routes.
pub record Surroundings : Type 0 where
  pub join : Bytes → Bytes → Bytes
  pub show_conn : ServerTransport → Bytes
  pub learned : Bytes → Bytes → Option ServerTransport
  pub route_address : Bytes → Bytes → Bytes

-- createClientTransport, for a protocol that is supported
unfoldable pub create_client_transport : Surroundings → Bytes → Bytes → ℤ → Clients → ℕ × Clients
unfolding udp_client_for tcp_transport_for alloc_fail_over new_fail_over full_addr str_eq dict_get
create_client_transport env protocol host port s =
    let local = env.route_address host protocol in
    if str_eq protocol (codes "udp")
    then (let client = udp_client_for env.show_conn (env.learned host protocol) host port local s in
        alloc_fail_over (new_fail_over (some client.0) []) client.1)
    else (let addr = full_addr env.join protocol host port [] in
        tcp_transport_for addr host port local (dict_get addr s.transports) s)

unfoldable pub found_or_created :
    Surroundings → Bytes → Bytes → Bytes → ℤ → Option ℕ → Clients → ℕ × Clients
unfolding create_client_transport dict_put
found_or_created env addr protocol host port (some i) s = (i, s)
found_or_created env addr protocol host port none s =
    let made = create_client_transport env protocol host port s in
    (made.0, record made.1 { transports = dict_put addr made.0 made.1.transports })

-- GetTransport
unfoldable pub get_client_transport :
    Surroundings → ℕ → (ℕ → ℕ) → Bytes → Bytes → ℤ → Bytes → Clients → Result ℕ × Clients
unfolding clean_expired_transport is_supported full_addr found_or_created to_lower dict_get
get_client_transport env now client_now protocol host port trans_id s =
    let s' = clean_expired_transport now client_now s in
    let lower = to_lower protocol in
    let addr = full_addr env.join lower host port trans_id in
    if is_supported lower
    then (let found = found_or_created env addr lower host port (dict_get addr s'.transports) s' in
        (ok found.0, found.1))
    else (err unsupported_protocol, s')

-- RemoveTransport
unfoldable pub remove_transport : Surroundings → Bytes → Bytes → ℤ → Bytes → Clients → Clients
unfolding is_supported full_addr to_lower dict_delete
remove_transport env protocol host port trans_id s =
    let lower = to_lower protocol in
    if is_supported lower
    then record s {
      transports = dict_delete (full_addr env.join lower host port trans_id) s.transports;
    }
    else s

-- `trans.primary, _ = NewTCPClientTransportWithConn(conn)` on a fail-over transport
unfoldable pub set_at : ℕ → Option ℕ → List FailOverClient → List FailOverClient
unfolding set_primary
set_at i client [] = []
set_at zero client (f ∷ fs) = set_primary client f ∷ fs
set_at (suc i) client (f ∷ fs) = f ∷ set_at i client fs

unfoldable pub use_connection : Bytes → ℤ → ℕ → ℕ → Clients → Clients
unfolding alloc_client accepted_client set_at
use_connection host port now i s =
    let made = alloc_client (accepted_client host port now) s in
    record made.1 { fail_overs = set_at i (some made.0) made.1.fail_overs }
