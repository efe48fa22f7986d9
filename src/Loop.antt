-- ===== src/Loop.antt =====
-- The loop of the proxy over its whole state: handleRawMessage, handleMessage with the sends that it
-- decides on, and handleSession, of proxy.go. Beside the settings of the proxy, what one message meets
-- outside the program is an argument: the clock, the network and the store of sessions at that time.
pub mod Connections
pub mod Replies
pub mod Rounds
pub mod Safety
pub mod Sends
pub mod Sessions
use sipproxy.Clients.{Clients}
use sipproxy.Clients.Manager.{Surroundings, get_client_transport, use_connection}
use sipproxy.Dispatch.{ProxyItem, SessionStore}
use sipproxy.Identity.{MyName}
use sipproxy.Message.{ServerTransport, Message, is_request}
use sipproxy.Message.Access.{◌>>◌, set_received, each_via_param}
use sipproxy.Message.Ids.{get_client_transaction}
use sipproxy.Pool.{Backend}
use sipproxy.PreConfigRoute.{Hop}
use sipproxy.Prelude.{
  ◌>>=◌, ℕ, ◌+◌, ◌-◌, Bool, none, some, List, [], ◌∷◌, map, ltb, if◌then◌else◌, length, take, drop,
  out_of_bound, Result, ok, err, ℤ,
}
use sipproxy.Proxy.{remove_reached_route, get_next_response_hop}
use sipproxy.SelfLearn.{SelfLearnRoute, learn_route, get_learned, get_route_address}
use sipproxy.Server.{RawMessage}
use sipproxy.Text.{Bytes, codes, starts_with, join}
use sipproxy.Text.Number.{atoi}

pub record Settings : Type 0 where
  pub must_record_route : Bool
  pub keep_next_hop_route : Bool
  pub my_name : MyName
  pub find : Bytes → Result Hop

-- `clock` are the readings while routes are learned; `local_of` is the local address that
-- findClientTransport makes for a UDP listener; `takes` and `delivers` are the sends of a client and of
-- a backend.
pub record Outside (S : Type 0) : Type 0 where
  pub branch : Result Bytes
  pub clock : ℕ → ℕ
  pub now : ℕ
  pub client_now : ℕ → ℕ
  pub accept_now : ℕ
  pub ips_of : Bytes → List Bytes
  pub join : Bytes → Bytes → Bytes
  pub show_conn : ServerTransport → Bytes
  pub local_of : ServerTransport → Bytes
  pub takes : ℕ → Bool
  pub delivers : Backend → Bool
  pub keeper : SessionStore S

pub record ProxyState (S : Type 0) : Type 0 where
  pub routes : SelfLearnRoute
  pub clients : Clients
  pub items : List ProxyItem
  pub sessions : S

unfoldable pub surroundings_of : {S : Type 0} → Outside S → SelfLearnRoute → Surroundings
unfolding get_learned get_route_address
surroundings_of out routes = record {
  join = out.join;
  show_conn = out.show_conn;
  learned = λ host protocol. get_learned host protocol routes;
  route_address = λ host protocol. get_route_address host protocol routes;
}

unfoldable pub learn_hosts :
    (ℕ → ℕ) → ServerTransport → List Bytes → SelfLearnRoute → SelfLearnRoute
unfolding learn_route
learn_hosts clock t [] r = r
learn_hosts clock t (h ∷ hs) r =
    learn_hosts (λ i. clock (i + 2)) t hs (learn_route h t (clock 0) (clock 1) r)

-- Of a request, the peer and the hosts of all via-params are learned.
unfoldable pub learn_request :
    (ℕ → ℕ) → RawMessage → Message → SelfLearnRoute → Message × SelfLearnRoute
unfolding each_via_param learn_hosts
learn_request clock arrived m routes =
    let vias = each_via_param m in
    (vias.1, learn_hosts clock arrived.from (arrived.peer_addr ∷ map (λ p. p.host) vias.0) routes)

unfoldable pub mark_request : RawMessage → Message → Message
unfolding set_received
mark_request arrived m =
    if arrived.received_support then (set_received arrived.peer_addr arrived.peer_port m).1 else m

-- `host[1:len(host)-1]` behind a bracket; of the bracket alone the slice is out of its bounds.
unfoldable pub unbracketed : Bytes → Result Bytes
unfolding starts_with
unbracketed host =
    if starts_with (codes "[") host
    then (if ltb 1 (length host)
        then ok (take (length host - 2) (drop 1 host))
        else err out_of_bound)
    else ok host

-- The connection of a request becomes the primary of the transport of its transaction.
unfoldable pub attach_to : Bytes → ℤ → ℕ → Result ℕ × Clients → Clients
unfolding use_connection
attach_to peer_host peer_port now (ok i, c) = use_connection peer_host peer_port now i c
attach_to peer_host peer_port now (err _, c) = c

unfoldable pub attach_transaction :
    {S : Type 0}
    → Outside S
    → RawMessage
    → Bytes
    → ℤ
    → Result Bytes × Message
    → ProxyState S
    → Message × ProxyState S
unfolding attach_to get_client_transport surroundings_of
attach_transaction out arrived host port (err _, m) s = (m, s)
attach_transaction out arrived host port (ok id, m) s =
    let found =
      get_client_transport (surroundings_of out s.routes) out.now out.client_now (codes "tcp") host
        port id s.clients in
    (m, record s { clients = attach_to arrived.peer_addr arrived.peer_port out.accept_now found })

-- The transport for the response to a request that came over TCP; a slice out of its bounds ends the
-- program.
unfoldable pub attach_hop :
    {S : Type 0}
    → Outside S
    → RawMessage
    → Result Hop × Message
    → ProxyState S
    → Result (Message × ProxyState S)
unfolding unbracketed attach_transaction get_client_transaction
attach_hop out arrived (err _, m) s = ok (m, s)
attach_hop out arrived (ok hop, m) s = do
  host ← unbracketed hop.host
  ok (attach_transaction out arrived host hop.port (get_client_transaction m) s)

unfoldable pub attach_request :
    {S : Type 0} → Outside S → RawMessage → Message → ProxyState S → Result (Message × ProxyState S)
unfolding attach_hop get_next_response_hop
attach_request out arrived m s = elim arrived.conn [
  | none ↦ ok (m, s)
  | some _ ↦ attach_hop out arrived (get_next_response_hop m) s
]

unfoldable pub reached_removed :
    {S : Type 0} → Outside S → RawMessage → Message × ProxyState S → Message × ProxyState S
unfolding remove_reached_route
reached_removed out arrived (m, s) = ((remove_reached_route out.ips_of arrived.from m).1, s)

unfoldable pub handle_raw_request :
    {S : Type 0}
    → Outside S
    → RawMessage
    → Message × SelfLearnRoute
    → ProxyState S
    → Result (Message × ProxyState S)
unfolding mark_request attach_request reached_removed
handle_raw_request out arrived learnt s = do
  attached ←
      attach_request out arrived (mark_request arrived learnt.0) (record s { routes = learnt.1 })
  ok (reached_removed out arrived attached)

-- Proxy.handleRawMessage
unfoldable pub handle_raw_message :
    {S : Type 0} → Outside S → RawMessage → ProxyState S → Result (Message × ProxyState S)
unfolding is_request learn_request handle_raw_request reached_removed
handle_raw_message out arrived s =
    let m = record arrived.message { received_from = some arrived.from } in
    if is_request m
    then handle_raw_request out arrived (learn_request out.clock arrived m s.routes) s
    else ok (reached_removed out arrived (m, s))

unfoldable pub accepted_from :
    {S : Type 0} → Outside S → Bytes → Result ℤ → ProxyState S → ProxyState S
unfolding attach_to get_client_transport surroundings_of
accepted_from out host (err _) s = s
accepted_from out host (ok port) s =
    let found =
      get_client_transport (surroundings_of out s.routes) out.now out.client_now (codes "tcp") host
        port [] s.clients in
    record s { clients = attach_to host port out.accept_now found }

-- The other event of receiveAndProcessMessage: a connection is accepted from a remote address, which
-- net.SplitHostPort has split.
unfoldable pub connection_accepted :
    {S : Type 0} → Outside S → Result (Bytes × Bytes) → ProxyState S → ProxyState S
unfolding accepted_from atoi
connection_accepted out (err _) s = s
connection_accepted out (ok (host, port)) s = accepted_from out host (atoi port) s
