-- ===== src/Clients/FailOver.antt =====
-- Which transports of the manager can send. NewFailOverClientTransport drops the secondaries that it
-- is given, so only a primary sends.
use sipproxy.Clients.{
  Client, FailOverClient, Clients, alloc_client, alloc_fail_over, factory_client, create_udp_client,
  create_udp_client_with_conn, create_tcp_client, new_fail_over, set_primary, new_clients,
  fail_over_send,
}
use sipproxy.Clients.Manager.{
  clean_expired_transport, is_supported, full_addr, udp_client_for, secondaries_of,
  tcp_transport_for, Surroundings, create_client_transport, found_or_created, get_client_transport,
  remove_transport, set_at, use_connection,
}
use sipproxy.Dict.{dict_get}
use sipproxy.Message.{ServerTransport}
use sipproxy.Prelude.{
  ℕ, ◌≡◌, refl, Option, none, some, List, [], All, All-append, ℤ, ◌∷◌, zero, suc, Bool, ◌+◌, ltb,
  unsupported_protocol, Result, ok, err, get_elem?, send_failed, get_elem?-length, if-keeps,
}
use sipproxy.Text.{Bytes, codes, str_eq, to_lower}

abbrev pub OnlyPrimary : FailOverClient → Type 0
OnlyPrimary f = f.secondaries ≡ []

abbrev pub IsOnlyPrimary : Clients → Type 0
IsOnlyPrimary s = All OnlyPrimary s.fail_overs

-- What the proxy does to the clients, each time in other surroundings: the routes that are learned
-- change from one step to the next. findClientTransport makes a client of the factory by `created`.
pub data Step : Clients → Clients → Type 0 where
  got :
      (env : Surroundings) (now : ℕ) (client_now : ℕ → ℕ) (protocol host : Bytes) (port : ℤ)
      (trans_id : Bytes) (s : Clients)
      → Step s (get_client_transport env now client_now protocol host port trans_id s).1
  created :
      (host : Bytes) (port : ℤ) (local : Bytes) (s : Clients)
      → Step s (create_udp_client host port local s).1
  removed :
      (env : Surroundings) (protocol host : Bytes) (port : ℤ) (trans_id : Bytes) (s : Clients)
      → Step s (remove_transport env protocol host port trans_id s)
  accepted :
      (host : Bytes) (port : ℤ) (now i : ℕ) (s : Clients)
      → Step s (use_connection host port now i s)

pub data Reach (s : Clients) : Clients → Type 0 where
  here : Reach s s
  next : {t u : Clients} → Reach s t → Step t u → Reach s u

alloc-IsOnlyPrimary :
    (primary : Option ℕ) (cs : List ℕ) (s : Clients)
    → IsOnlyPrimary s
    → IsOnlyPrimary (alloc_fail_over (new_fail_over primary cs) s).1
unfolding alloc_fail_over new_fail_over
alloc-IsOnlyPrimary primary cs s h = All-append OnlyPrimary s.fail_overs _ h (refl, tt)

factory_client-same :
    (key : Bytes) (c : Client) (o : Option ℕ) (s : Clients)
    → (factory_client key c o s).1.fail_overs ≡ s.fail_overs
unfolding factory_client alloc_client
factory_client-same key c (some i) s = refl
factory_client-same key c none s = refl

udp_client_for-same :
    (show_conn : ServerTransport → Bytes) (o : Option ServerTransport) (host : Bytes) (port : ℤ)
    (local : Bytes) (s : Clients)
    → (udp_client_for show_conn o host port local s).1.fail_overs ≡ s.fail_overs
unfolding udp_client_for create_udp_client create_udp_client_with_conn
udp_client_for-same show_conn none host port local s = factory_client-same _ _ _ s
udp_client_for-same show_conn (some t) host port local s = factory_client-same _ _ _ s

create_tcp_client-same :
    (host : Bytes) (port : ℤ) (local : Bytes) (s : Clients)
    → (create_tcp_client host port local s).1.fail_overs ≡ s.fail_overs
unfolding create_tcp_client
create_tcp_client-same host port local s = factory_client-same _ _ _ s

tcp-IsOnlyPrimary :
    (addr host : Bytes) (port : ℤ) (local : Bytes) (o : Option ℕ) (s : Clients)
    → IsOnlyPrimary s
    → IsOnlyPrimary (tcp_transport_for addr host port local o s).1
unfolding tcp_transport_for create_tcp_client
tcp-IsOnlyPrimary addr host port local (some i) s h =
    alloc-IsOnlyPrimary none (secondaries_of s.fail_overs i) s h
tcp-IsOnlyPrimary addr host port local none s h =
    let client : ℕ × Clients = create_tcp_client host port local s in
    alloc-IsOnlyPrimary none (client.0 ∷ []) client.1
      (rw (create_tcp_client-same host port local s) h)

create-IsOnlyPrimary :
    (env : Surroundings) (protocol host : Bytes) (port : ℤ) (s : Clients)
    → IsOnlyPrimary s
    → IsOnlyPrimary (create_client_transport env protocol host port s).1
unfolding create_client_transport
create-IsOnlyPrimary env protocol host port s h =
    let local : Bytes = env.route_address host protocol in
    let client : ℕ × Clients =
      udp_client_for env.show_conn (env.learned host protocol) host port local s in
    let addr : Bytes = full_addr env.join protocol host port [] in
    if-keeps (λ (r : ℕ × Clients). IsOnlyPrimary r.1) (str_eq protocol (codes "udp"))
      (alloc_fail_over (new_fail_over (some client.0) []) client.1)
      (tcp_transport_for addr host port local (dict_get addr s.transports) s)
      (alloc-IsOnlyPrimary (some client.0) [] client.1
        (rw (udp_client_for-same env.show_conn (env.learned host protocol) host port local s) h))
      (tcp-IsOnlyPrimary addr host port local (dict_get addr s.transports) s h)

found-IsOnlyPrimary :
    (env : Surroundings) (addr protocol host : Bytes) (port : ℤ) (o : Option ℕ) (s : Clients)
    → IsOnlyPrimary s
    → IsOnlyPrimary (found_or_created env addr protocol host port o s).1
unfolding found_or_created
found-IsOnlyPrimary env addr protocol host port (some i) s h = h
found-IsOnlyPrimary env addr protocol host port none s h =
    create-IsOnlyPrimary env protocol host port s h

clean-IsOnlyPrimary :
    (now : ℕ) (client_now : ℕ → ℕ) (s : Clients)
    → IsOnlyPrimary s
    → IsOnlyPrimary (clean_expired_transport now client_now s)
unfolding clean_expired_transport
clean-IsOnlyPrimary now client_now s h =
    if-keeps IsOnlyPrimary (ltb now (s.last_clean_time + 60)) s _ h h

set_at-OnlyPrimary :
    (i : ℕ) (client : Option ℕ) (fs : List FailOverClient)
    → All OnlyPrimary fs
    → All OnlyPrimary (set_at i client fs)
unfolding set_at set_primary
set_at-OnlyPrimary i client [] h = tt
set_at-OnlyPrimary zero client (f ∷ fs) h = h
set_at-OnlyPrimary (suc i) client (f ∷ fs) h = (h.0, set_at-OnlyPrimary i client fs h.1)

Step-IsOnlyPrimary : {s t : Clients} → IsOnlyPrimary s → Step s t → IsOnlyPrimary t
unfolding get_client_transport remove_transport use_connection create_udp_client
Step-IsOnlyPrimary h (got env now client_now protocol host port trans_id s) =
    let lower : Bytes = to_lower protocol in
    let s' : Clients = clean_expired_transport now client_now s in
    let addr : Bytes = full_addr env.join lower host port trans_id in
    let found : ℕ × Clients =
      found_or_created env addr lower host port (dict_get addr s'.transports) s' in
    let clean : IsOnlyPrimary s' = clean-IsOnlyPrimary now client_now s h in
    if-keeps (λ (r : Result ℕ × Clients). IsOnlyPrimary r.1) (is_supported lower)
      (ok found.0, found.1) (err unsupported_protocol, s')
      (found-IsOnlyPrimary env addr lower host port (dict_get addr s'.transports) s' clean) clean
Step-IsOnlyPrimary h (created host port local s) = rw (factory_client-same _ _ _ s) h
Step-IsOnlyPrimary h (removed env protocol host port trans_id s) =
    if-keeps IsOnlyPrimary (is_supported (to_lower protocol)) _ s h h
Step-IsOnlyPrimary h (accepted host port now i s) = set_at-OnlyPrimary i _ s.fail_overs h

-- Whatever sequence of four kinds of steps the proxy takes from the start on, each step with its own
-- learned routes, no fail-over transport has a secondary: only its primary can send. The steps are
-- asking the manager for a transport, making a UDP client of the factory, removing a transport, and
-- attaching a connection to one.
pub Reach-IsOnlyPrimary : (now : ℕ) {s : Clients} → Reach (new_clients now) s → IsOnlyPrimary s
unfolding new_clients
Reach-IsOnlyPrimary now here = tt
Reach-IsOnlyPrimary now (next r step) = Step-IsOnlyPrimary (Reach-IsOnlyPrimary now r) step

abbrev no_client : FailOverClient
no_client = record { primary = none; secondaries = [] }

tcp_transport_for-idle :
    (addr host : Bytes) (port : ℤ) (local : Bytes) (o : Option ℕ) (s : Clients)
    → let made = tcp_transport_for addr host port local o s in
      get_elem? made.1.fail_overs made.0 ≡ some no_client
unfolding tcp_transport_for alloc_fail_over new_fail_over
tcp_transport_for-idle addr host port local (some i) s = get_elem?-length s.fail_overs no_client
tcp_transport_for-idle addr host port local none s =
    get_elem?-length (create_tcp_client host port local s).1.fail_overs no_client

create_client_transport-idle :
    (env : Surroundings) (host : Bytes) (port : ℤ) (s : Clients)
    → let made = create_client_transport env (codes "tcp") host port s in
      get_elem? made.1.fail_overs made.0 ≡ some no_client
unfolding create_client_transport
create_client_transport-idle env host port s =
    let addr : Bytes = full_addr env.join (codes "tcp") host port [] in
    tcp_transport_for-idle addr host port (env.route_address host (codes "tcp"))
      (dict_get addr s.transports) s

-- A transport that the manager makes for TCP has no client, so it refuses every message until a
-- connection is accepted for it: the client that was made for it is not among its secondaries.
pub new_tcp_transport-refuses :
    (env : Surroundings) (now : ℕ) (client_now : ℕ → ℕ) (protocol host : Bytes) (port : ℤ)
    (trans_id : Bytes) (s : Clients) (delivers : ℕ → Bool)
    → to_lower protocol ≡ codes "tcp"
    → dict_get
        (full_addr env.join (codes "tcp") host port trans_id)
        (clean_expired_transport now client_now s).transports
      ≡ none
    → let r = get_client_transport env now client_now protocol host port trans_id s in
      (i : ℕ) × (f : FailOverClient) × ((r.0 ≡ ok i)
        × ((get_elem? r.1.fail_overs i ≡ some f) × (fail_over_send delivers f ≡ err send_failed)))
unfolding get_client_transport found_or_created fail_over_send
new_tcp_transport-refuses env now client_now protocol host port trans_id s delivers p n =
    let s' : Clients = clean_expired_transport now client_now s in
    let made : ℕ × Clients = create_client_transport env (codes "tcp") host port s' in
    (made.0, no_client, rw (p, n) (refl, (create_client_transport-idle env host port s', refl)))
