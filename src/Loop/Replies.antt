-- ===== src/Loop/Replies.antt =====
-- A response to a request that came over TCP goes back on the connection of the request.
use sipproxy.Clients.{
  FailOverClient, Clients, alloc_client, set_primary, first_sent, primary_list, fail_over_send,
  accepted_client,
}
use sipproxy.Clients.Lookup.{
  found_or_created-stored, get_client_transport-supported, get_client_transport-known,
}
use sipproxy.Clients.Manager.{
  clean_expired_transport, is_supported, full_addr, Surroundings, found_or_created,
  get_client_transport, remove_transport, set_at, use_connection,
}
use sipproxy.Dict.{dict_get}
use sipproxy.Loop.{Outside, surroundings_of, ProxyState, attach_to, attach_transaction}
use sipproxy.Loop.Sends.{
  managed, send_to_destination, after_find, learned_udp, find_client_transport, by_client,
  sent_by_client, send_found, send_on_hop, Destination,
}
use sipproxy.Message.{Message, is_final_response}
use sipproxy.PreConfigRoute.{Hop}
use sipproxy.Prelude.{
  ℕ, zero, suc, ◌≡◌, refl, ap, inl, inr, Bool, true, Option, none, some, List, [], ◌∷◌, Bool-cases,
  length, get_elem?, no_transport, ok, err, ℤ, ◌+◌, ◌<◌, sym, ◌∙◌, Result, get_elem?-length,
}
use sipproxy.SelfLearn.{SelfLearnRoute, get_learned}
use sipproxy.Server.{RawMessage}
use sipproxy.Text.{Bytes, to_lower, codes, str_eq}

get_elem?-set_at :
    (i : ℕ) (client : Option ℕ) (fs : List FailOverClient) (f : FailOverClient)
    → get_elem? fs i ≡ some f
    → get_elem? (set_at i client fs) i ≡ some (record f { primary = client })
unfolding set_at set_primary
get_elem?-set_at i client [] f h = cc
get_elem?-set_at zero client (g ∷ fs) f h =
    let same : g ≡ f = cc in ap (λ (x : FailOverClient). some (record x { primary = client })) same
get_elem?-set_at (suc i) client (g ∷ fs) f h = get_elem?-set_at i client fs f h

-- The transport of a connection sends over it.
connection_sends :
    (takes : ℕ → Bool) (host : Bytes) (port : ℤ) (now i : ℕ) (c : Clients) (f : FailOverClient)
    → get_elem? c.fail_overs i ≡ some f
    → takes (length c.clients) ≡ true
    → send_to_destination takes (use_connection host port now i c) (managed i)
      ≡ ok (length c.clients)
unfolding send_to_destination use_connection alloc_client fail_over_send first_sent primary_list
connection_sends takes host port now i c f h t =
    rw (get_elem?-set_at i (some (length c.clients)) c.fail_overs f h, t) refl

module _ {S : Type 0} (out : Outside S) (routes : SelfLearnRoute) (hop : Hop) (id : Bytes)
    (m : Message) (c : Clients) where
  after_find-same : (after_find out routes hop id m c).fail_overs ≡ c.fail_overs
  unfolding after_find remove_transport
  after_find-same = elim (Bool-cases (is_final_response m)) [
    | inl e ↦ elim (Bool-cases (is_supported (to_lower hop.transport))) [
      | inl k ↦ rw (after_find, e) (rw (remove_transport, k) refl)
      | inr k ↦ rw (after_find, e) (rw (remove_transport, k) refl)
    ]
    | inr e ↦ rw (after_find, e) refl
  ]

  after_find_sends :
      (takes : ℕ → Bool) (i : ℕ)
      → send_to_destination takes (after_find out routes hop id m c) (managed i)
        ≡ send_to_destination takes c (managed i)
  unfolding send_to_destination
  after_find_sends takes i =
      ap (λ fs. elim (get_elem? fs i) [ none ↦ err no_transport | some f ↦ fail_over_send takes f ])
        after_find-same

stored_transport :
    (env : Surroundings) (now : ℕ) (client_now : ℕ → ℕ) (host : Bytes) (port : ℤ) (id : Bytes)
    (s : Clients) (i : ℕ) (c : Clients)
    → get_client_transport env now client_now (codes "tcp") host port id s ≡ (ok i, c)
    → dict_get (full_addr env.join (codes "tcp") host port id) c.transports ≡ some i
unfolding to_lower is_supported
stored_transport env now client_now host port id s i c h =
    let s' : Clients = clean_expired_transport now client_now s in
    let addr : Bytes = full_addr env.join (codes "tcp") host port id in
    let made : ℕ × Clients =
      found_or_created env addr (codes "tcp") host port (dict_get addr s'.transports) s' in
    let both : ◌≡◌ {A = Result ℕ × Clients} (ok made.0, made.1) (ok i, c) =
      sym (get_client_transport-supported env now client_now (codes "tcp") host port id s refl)
      ∙ h in
    let first : ◌≡◌ {A = Result ℕ} (ok made.0) (ok i) = ap (λ (r : Result ℕ × Clients). r.0) both in
    let index : made.0 ≡ i = cc in
    let after : made.1 ≡ c = ap (λ (r : Result ℕ × Clients). r.1) both in
    rw (sym after, sym index)
      (found_or_created-stored env addr (codes "tcp") host port (dict_get addr s'.transports) s'
        refl)

tcp_supported : is_supported (codes "tcp") ≡ true
unfolding is_supported str_eq
tcp_supported = refl

reply_found :
    {S : Type 0} (later : Outside S) (routes : SelfLearnRoute) (transport host : Bytes) (port : ℤ)
    (id : Bytes) (i : ℕ) (c : Clients)
    → to_lower transport ≡ codes "tcp"
    → learned_udp (get_learned host transport routes) ≡ none
    → later.now < c.last_clean_time + 60
    → dict_get (full_addr later.join (codes "tcp") host port id) c.transports ≡ some i
    → find_client_transport later routes
        (record { host = host; port = port; transport = transport })
        id
        c
      ≡ (ok (managed i), c)
unfolding find_client_transport
reply_found later routes transport host port id i c p u l e =
    let env : Surroundings = surroundings_of later routes in
    let supported : is_supported (to_lower transport) ≡ true = rw p tcp_supported in
    let known : get_client_transport env later.now later.client_now transport host port id c
        ≡ (ok i, c) =
      get_client_transport-known env later.now later.client_now transport host port id i c supported
        l (rw p e) in
    rw (find_client_transport, u, known) refl

attached :
    {S : Type 0} (out : Outside S) (arrived : RawMessage) (host : Bytes) (port : ℤ) (id : Bytes)
    (m : Message) (s : ProxyState S)
    → (attach_transaction out arrived host port (ok id, m) s).1.clients
      ≡ attach_to arrived.peer_addr arrived.peer_port out.accept_now (
          get_client_transport
            (surroundings_of out s.routes)
            out.now
            out.client_now
            (codes "tcp")
            host
            port
            id
            s.clients)
unfolding attach_transaction
attached out arrived host port id m s = refl

-- An accepted connection changes no entry of the manager.
module _ (host : Bytes) (port : ℤ) (now i : ℕ) (c : Clients) where
  use_connection-transports : (use_connection host port now i c).transports ≡ c.transports
  unfolding use_connection alloc_client
  use_connection-transports = refl

  use_connection-time : (use_connection host port now i c).last_clean_time ≡ c.last_clean_time
  unfolding use_connection alloc_client
  use_connection-time = refl

sent_found :
    {S : Type 0} (later : Outside S) (hop : Hop) (id : Bytes) (m : Message) (t : ProxyState S)
    (i : ℕ) (c : Clients)
    → find_client_transport later t.routes hop id t.clients ≡ (ok (managed i), c)
    → (send_on_hop later hop id m t).0
      ≡ sent_by_client m (send_to_destination later.takes c (managed i))
unfolding send_on_hop send_found
sent_found later hop id m t i c h =
    ap (λ (r : Result Destination × Clients). (send_found later hop id m t r).0) h
    ∙ ap (sent_by_client m) (after_find_sends later t.routes hop id m c later.takes i)

-- What is sent to the host and port of a transport with a connection, for the transaction `id` of that
-- transport, goes over this connection.
pub sent_on_connection :
    {S : Type 0} (out later : Outside S) (arrived : RawMessage) (host transport id : Bytes)
    (port : ℤ) (m reply : Message) (s t : ProxyState S) (i : ℕ) (c : Clients) (f : FailOverClient)
    → get_client_transport
        (surroundings_of out s.routes)
        out.now
        out.client_now
        (codes "tcp")
        host
        port
        id
        s.clients
      ≡ (ok i, c)
    → get_elem? c.fail_overs i ≡ some f
    → t.clients ≡ (attach_transaction out arrived host port (ok id, m) s).1.clients
    → later.join ≡ out.join
    → to_lower transport ≡ codes "tcp"
    → learned_udp (get_learned host transport t.routes) ≡ none
    → later.now < c.last_clean_time + 60
    → later.takes (length c.clients) ≡ true
    → ((send_on_hop later (record { host = host; port = port; transport = transport }) id reply t).0
        ≡ ok (by_client (length c.clients), reply))
      × (get_elem? t.clients.clients (length c.clients)
          ≡ some (accepted_client arrived.peer_addr arrived.peer_port out.accept_now))
unfolding attach_to sent_by_client surroundings_of use_connection alloc_client
sent_on_connection out later arrived host transport id port m reply s t i c f h g k j p u l takes =
    let c' : Clients = use_connection arrived.peer_addr arrived.peer_port out.accept_now i c in
    let clients : t.clients ≡ c' =
      k
      ∙ attached out arrived host port id m s
      ∙ ap (attach_to arrived.peer_addr arrived.peer_port out.accept_now) h in
    let stored : dict_get (full_addr later.join (codes "tcp") host port id) c'.transports ≡ some i =
      rw (j, use_connection-transports arrived.peer_addr arrived.peer_port out.accept_now i c)
        (stored_transport (surroundings_of out s.routes) out.now out.client_now host port id
          s.clients i c h) in
    let soon : later.now < c'.last_clean_time + 60 =
      rw (use_connection-time arrived.peer_addr arrived.peer_port out.accept_now i c) l in
    let hop : Hop = record { host = host; port = port; transport = transport } in
    (
      sent_found later hop id reply t i c'
            (rw clients (reply_found later t.routes transport host port id i c' p u soon stored))
          ∙ ap (sent_by_client reply) (
              connection_sends later.takes arrived.peer_addr arrived.peer_port out.accept_now i c f
                g takes),
      rw clients (
          get_elem?-length c.clients
            (accepted_client arrived.peer_addr arrived.peer_port out.accept_now)),
    )
