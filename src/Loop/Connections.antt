-- ===== src/Loop/Connections.antt =====
-- A response to a request that came over TCP goes back on the connection of the request.
use sipproxy.CSeq.{CSeq}
use sipproxy.Clients.{FailOverClient, Clients, accepted_client}
use sipproxy.Clients.Manager.{get_client_transport}
use sipproxy.Loop.{
  Outside, surroundings_of, ProxyState, unbracketed, attach_transaction, attach_hop, attach_request,
}
use sipproxy.Loop.Replies.{sent_on_connection}
use sipproxy.Loop.Sends.{learned_udp, by_client, send_on_hop}
use sipproxy.Message.{Message}
use sipproxy.Message.Access.{get_cseq, via_params}
use sipproxy.Message.Ids.{client_transaction, get_client_transaction}
use sipproxy.Message.Transactions.{get_cseq-others, get_client_transaction-vias}
use sipproxy.Message.Vias.{IsReadable}
use sipproxy.PreConfigRoute.{Hop}
use sipproxy.Prelude.{
  arith, ℕ, ◌+◌, ◌<◌, ◌≡◌, refl, sym, ap, ◌∙◌, true, false, none, some, List, [], ◌∷◌, get_elem?,
  length, All, Result, ok, value_or,
}
use sipproxy.Proxy.{hop_of_via, get_next_response_hop, send_on, handle_response}
use sipproxy.Proxy.Responses.{next_hop_left, response_left}
use sipproxy.SelfLearn.{get_learned}
use sipproxy.Server.{RawMessage}
use sipproxy.Text.{Bytes, codes, str_eq, to_lower, starts_with}
use sipproxy.Via.{ViaParam, get_branch}

module _ {S : Type 0} (out : Outside S) (arrived : RawMessage) where
  attached_connection :
      (conn : ℕ) (m : Message) (s : ProxyState S)
      → arrived.conn ≡ some conn
      → attach_request out arrived m s ≡ attach_hop out arrived (get_next_response_hop m) s
  unfolding attach_request
  attached_connection conn m s k = rw (attach_request, k) refl

  attached_hop :
      (hop : Hop) (m : Message) (s : ProxyState S)
      → starts_with (codes "[") hop.host ≡ false
      → attach_hop out arrived (ok hop, m) s
        ≡ ok (attach_transaction out arrived hop.host hop.port (get_client_transaction m) s)
  unfolding attach_hop unbracketed
  attached_hop hop m s plain = rw plain refl

hop_transport : (p : ViaParam) → (hop_of_via p).transport ≡ p.transport
unfolding hop_of_via
hop_transport p = ground arith

ok_injective : {A : Type 0} (a b : A) → ok a ≡ ok b → a ≡ b
ok_injective a b e = cc

-- What handling a response with the via-param and the method of a request comes to.
reply_action :
    (reply : Message) (own p : ViaParam) (qs : List ViaParam) (c d : CSeq) (branch : Bytes)
    → All IsReadable reply.headers
    → via_params reply.headers ≡ own ∷ p ∷ qs
    → (get_cseq reply).0 ≡ ok d
    → d.method ≡ c.method
    → str_eq c.method (codes "ACK") ≡ false
    → get_branch p ≡ ok branch
    → (sent : Message) × (handle_response reply
        ≡ send_on (hop_of_via p) (client_transaction c.method branch) sent)
reply_action reply own p qs c d branch r v cseq same other b =
    let (headers, readable, vias, others, action) = response_left reply own p qs r v in
    let left : Message = record reply { headers = headers } in
    let id : (get_client_transaction left).0 ≡ ok (client_transaction d.method branch) =
      get_client_transaction-vias left p qs d branch readable vias
        (get_cseq-others left reply others ∙ cseq) (rw same other) b in
    (
      (get_client_transaction left).1,
      action
          ∙ ap
              (λ (x : Result Bytes).
                send_on (hop_of_via p) (value_or x []) (get_client_transaction left).1)
              (id ∙ ap (λ method. ok (client_transaction method branch)) same),
    )

-- The transport of the request's transaction gets its connection.
pub attached_request :
    {S : Type 0} (out : Outside S) (arrived : RawMessage) (conn : ℕ) (request : Message)
    (p : ViaParam) (ps : List ViaParam) (c : CSeq) (branch : Bytes) (s : ProxyState S)
    → arrived.conn ≡ some conn
    → All IsReadable request.headers
    → via_params request.headers ≡ p ∷ ps
    → (get_cseq request).0 ≡ ok c
    → str_eq c.method (codes "ACK") ≡ false
    → get_branch p ≡ ok branch
    → starts_with (codes "[") (hop_of_via p).host ≡ false
    → (m : Message) × (attach_request out arrived request s
        ≡ ok (
            attach_transaction out arrived
              (hop_of_via p).host
              (hop_of_via p).port
              (ok (client_transaction c.method branch), m)
              s))
attached_request out arrived conn request p ps c branch s k r v cseq other b plain =
    let (headers, readable, vias, others, hop) = next_hop_left request p ps r v in
    let m : Message = record request { headers = headers } in
    let id : (get_client_transaction m).0 ≡ ok (client_transaction c.method branch) =
      get_client_transaction-vias m p ps c branch readable vias
        (get_cseq-others m request others ∙ cseq) other b in
    (
      (get_client_transaction m).1,
      attached_connection out arrived conn request s k
          ∙ ap (λ x. attach_hop out arrived x s) hop
          ∙ attached_hop out arrived (hop_of_via p) m s plain
          ∙ ap
              (λ (x : Result Bytes). ok (
                attach_transaction out arrived (hop_of_via p).host (hop_of_via p).port
                  (x, (get_client_transaction m).1) s))
              id,
    )

-- A response to a request that came over TCP goes back on the connection of the request. Where the
-- response carries, behind the proxy's own via-param, the via-param that the request had when it was
-- prepared, and a CSeq with the same method, not ACK, handling it sends it on, and the send puts it on
-- the client that stands for the request's connection to the peer. The via-param has a branch, names
-- tcp, and its response address is not in brackets; the Via headers of both can be read. The transport
-- that the manager gave for the request is in its list. No UDP listener is learned for that address,
-- the last sweep of the transports was less than a minute before, the transports are still those that
-- the request left, addresses are joined in the same way, and the client takes the response.
pub reply_on_connection :
    {S : Type 0} (out later : Outside S) (arrived : RawMessage) (conn : ℕ) (request reply : Message)
    (own p : ViaParam) (ps qs : List ViaParam) (c d : CSeq) (branch : Bytes) (s t : ProxyState S)
    (prepared : Message × ProxyState S) (i : ℕ) (clients : Clients) (f : FailOverClient)
    → arrived.conn ≡ some conn
    → All IsReadable request.headers
    → via_params request.headers ≡ p ∷ ps
    → (get_cseq request).0 ≡ ok c
    → attach_request out arrived request s ≡ ok prepared
    → All IsReadable reply.headers
    → via_params reply.headers ≡ own ∷ p ∷ qs
    → (get_cseq reply).0 ≡ ok d
    → d.method ≡ c.method
    → str_eq c.method (codes "ACK") ≡ false
    → get_branch p ≡ ok branch
    → to_lower p.transport ≡ codes "tcp"
    → starts_with (codes "[") (hop_of_via p).host ≡ false
    → get_client_transport
        (surroundings_of out s.routes)
        out.now
        out.client_now
        (codes "tcp")
        (hop_of_via p).host
        (hop_of_via p).port
        (client_transaction c.method branch)
        s.clients
      ≡ (ok i, clients)
    → get_elem? clients.fail_overs i ≡ some f
    → t.clients ≡ prepared.1.clients
    → later.join ≡ out.join
    → learned_udp (get_learned (hop_of_via p).host p.transport t.routes) ≡ none
    → later.now < clients.last_clean_time + 60
    → later.takes (length clients.clients) ≡ true
    → (sent : Message) × (handle_response reply
        ≡ send_on (hop_of_via p) (client_transaction c.method branch) sent)
      × ((send_on_hop later (hop_of_via p) (client_transaction c.method branch) sent t).0
          ≡ ok (by_client (length clients.clients), sent))
      × (get_elem? t.clients.clients (length clients.clients)
          ≡ some (accepted_client arrived.peer_addr arrived.peer_port out.accept_now))
reply_on_connection out later arrived conn request reply own p ps qs c d branch s t prepared i
      clients f k r v cseq attach r' v' cseq' same other b tcp plain found there kept join udp soon
      takes =
    let id : Bytes = client_transaction c.method branch in
    let (m, attached) =
      attached_request out arrived conn request p ps c branch s k r v cseq other b plain in
    let (sent, action) = reply_action reply own p qs c d branch r' v' cseq' same other b in
    let after : t.clients
        ≡ (attach_transaction out arrived (hop_of_via p).host (hop_of_via p).port (ok id, m)
            s).1.clients =
      kept ∙ ap (λ x. x.1.clients) (ok_injective _ _ (sym attach ∙ attached)) in
    let conclusion =
      sent_on_connection out later arrived (hop_of_via p).host p.transport id (hop_of_via p).port m
        sent s t i clients f found there after join tcp udp soon takes in
    (
      sent,
      action,
      ap
            (λ transport.
              (send_on_hop later
                (record {
                  host = (hop_of_via p).host;
                  port = (hop_of_via p).port;
                  transport = transport;
                })
                id sent t).0)
            (hop_transport p)
          ∙ conclusion.0,
      conclusion.1,
    )
