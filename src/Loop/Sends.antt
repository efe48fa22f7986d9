-- ===== src/Loop/Sends.antt =====
-- What the loop does with a message once it is prepared: findClientTransport, sendRequest,
-- sendResponse, handleMessage and handleSession of proxy.go over the whole state.
use sipproxy.Clients.{Clients, create_udp_client, fail_over_send}
use sipproxy.Clients.Manager.{get_client_transport, remove_transport}
use sipproxy.Dispatch.{ProxyItem, SessionStore}
use sipproxy.Dispatch.Choice.{send_to_backend}
use sipproxy.Loop.{Settings, Outside, ProxyState, surroundings_of, handle_raw_message}
use sipproxy.Message.{ServerTransport, Message, is_response, is_final_response}
use sipproxy.Message.Access.{pop_via, get_method}
use sipproxy.Message.Ids.{get_session_id}
use sipproxy.Pool.{Backend}
use sipproxy.PreConfigRoute.{Hop}
use sipproxy.Prelude.{
  ◌>>=◌, ℕ, Bool, ◌&&◌, Option, none, some, List, [], if◌then◌else◌, get_elem?, out_of_bound,
  send_failed, no_route, no_transport, nil_dereference, Result, ok, err, is_ok, value_or, true,
  false, Error,
}
use sipproxy.Proxy.{
  get_next_response_hop, Action, send_on, to_backend, drop_message, handle_message,
}
use sipproxy.SelfLearn.{SelfLearnRoute, get_learned}
use sipproxy.Server.{RawMessage}
use sipproxy.Text.{Bytes, codes, str_eq}

-- A client of the factory, or a fail-over transport of the manager.
pub data Destination : Type 0 where
  direct : ℕ → Destination
  managed : ℕ → Destination

-- Who took a message.
pub data Receiver : Type 0 where
  by_client : ℕ → Receiver
  by_backend : Backend → Receiver

unfoldable pub learned_udp : Option ServerTransport → Option ServerTransport
unfolding str_eq
learned_udp none = none
learned_udp (some t) = if str_eq t.protocol (codes "udp") then some t else none

unfoldable pub managed_transport : Result ℕ × Clients → Result Destination × Clients
managed_transport (ok i, c) = (ok (managed i), c)
managed_transport (err e, c) = (err e, c)

-- findClientTransport: over UDP, a client of the learned listener's address.
unfoldable pub find_client_transport :
    {S : Type 0} → Outside S → SelfLearnRoute → Hop → Bytes → Clients → Result Destination × Clients
unfolding learned_udp get_learned create_udp_client managed_transport get_client_transport
    surroundings_of
find_client_transport out routes hop trans_id c =
    elim (learned_udp (get_learned hop.host hop.transport routes)) [
      | some t ↦
          let made = create_udp_client hop.host hop.port (out.local_of t) c in
          (ok (direct made.0), made.1)
      | none ↦ managed_transport (
          get_client_transport (surroundings_of out routes) out.now out.client_now hop.transport
            hop.host hop.port trans_id c)
    ]

-- Send of the client transport
unfoldable pub send_to_destination : (ℕ → Bool) → Clients → Destination → Result ℕ
unfolding fail_over_send
send_to_destination takes c (direct i) = if takes i then ok i else err send_failed
send_to_destination takes c (managed i) = elim (get_elem? c.fail_overs i) [
  | none ↦ err no_transport
  | some f ↦ fail_over_send takes f
]

-- A final response removes the transport of its transaction before it is sent.
unfoldable pub after_find :
    {S : Type 0} → Outside S → SelfLearnRoute → Hop → Bytes → Message → Clients → Clients
unfolding remove_transport is_final_response surroundings_of
after_find out routes hop trans_id m c =
    if is_final_response m
    then remove_transport (surroundings_of out routes) hop.transport hop.host hop.port trans_id c
    else c

unfoldable pub sent_by_client : Message → Result ℕ → Result (Receiver × Message)
sent_by_client m (ok i) = ok (by_client i, m)
sent_by_client m (err e) = err e

unfoldable pub send_found :
    {S : Type 0}
    → Outside S
    → Hop
    → Bytes
    → Message
    → ProxyState S
    → Result Destination × Clients
    → Result (Receiver × Message) × ProxyState S
unfolding after_find send_to_destination sent_by_client
send_found out hop trans_id m s (err e, c) = (err e, record s { clients = c })
send_found out hop trans_id m s (ok d, c) =
    let c' = after_find out s.routes hop trans_id m c in
    (sent_by_client m (send_to_destination out.takes c' d), record s { clients = c' })

-- sendRequest and sendResponse; a request is not a final response.
unfoldable pub send_on_hop :
    {S : Type 0}
    → Outside S
    → Hop
    → Bytes
    → Message
    → ProxyState S
    → Result (Receiver × Message) × ProxyState S
unfolding find_client_transport send_found
send_on_hop out hop trans_id m s =
    send_found out hop trans_id m s (find_client_transport out s.routes hop trans_id s.clients)

unfoldable pub sent_by_backend :
    {S : Type 0}
    → ProxyState S
    → Result (Backend × Message) × List ProxyItem × S
    → Result (Receiver × Message) × ProxyState S
sent_by_backend s (ok (b, m), items, sessions) =
    (ok (by_backend b, m), record s { items = items; sessions = sessions })
sent_by_backend s (err e, items, sessions) =
    (err e, record s { items = items; sessions = sessions })

unfoldable pub perform :
    {S : Type 0}
    → Settings
    → Outside S
    → RawMessage
    → Action
    → ProxyState S
    → Result (Receiver × Message) × ProxyState S
unfolding send_on_hop sent_by_backend send_to_backend
perform settings out arrived (send_on hop trans_id m) s = send_on_hop out hop trans_id m s
perform settings out arrived (to_backend m) s = sent_by_backend s (
    send_to_backend out.branch settings.must_record_route out.delivers out.keeper
      arrived.from.protocol arrived.prefer arrived.via m s.items s.sessions)
perform settings out arrived drop_message s = (err no_route, s)

-- The message as handleMessage leaves it.
unfoldable pub message_after : Message → Action → Message
unfolding get_next_response_hop pop_via
message_after m (send_on hop trans_id m') = m'
message_after m (to_backend m') = m'
message_after m drop_message = (get_next_response_hop (pop_via m).1).1

-- Proxy.handleSession over any store: a response to BYE ends a session that the store finds.
unfoldable pub handle_session : {S : Type 0} → SessionStore S → Message → S → S
unfolding is_response get_session_id get_method str_eq
handle_session keeper m s =
    let id = get_session_id m in
    let method = get_method id.1 in
    if is_response m
    then elim id.0 [
      | ok session ↦
          let found = keeper.get_bound session s in
          if is_ok found.0 && (is_ok method.0 && str_eq (value_or method.0 []) (codes "BYE"))
          then keeper.unbind session found.1
          else found.1
      | err _ ↦ s
    ]
    else s

-- A nil pool or an index out of bounds ends the program.
unfoldable pub ends_program : Error → Bool
ends_program nil_dereference = true
ends_program out_of_bound = true
ends_program _ = false

unfoldable pub settled :
    {S : Type 0}
    → SessionStore S
    → Message
    → Result (Receiver × Message) × ProxyState S
    → Result (Result (Receiver × Message) × ProxyState S)
unfolding handle_session ends_program
settled keeper m (ok r, s) = ok (ok r, record s { sessions = handle_session keeper m s.sessions })
settled keeper m (err e, s) =
    if ends_program e
    then err e
    else ok (err e, record s { sessions = handle_session keeper m s.sessions })

unfoldable pub handle_prepared :
    {S : Type 0}
    → Settings
    → Outside S
    → RawMessage
    → Message × ProxyState S
    → Result (Result (Receiver × Message) × ProxyState S)
unfolding handle_message get_learned perform message_after settled
handle_prepared settings out arrived (m, s) =
    let action =
      handle_message out.branch settings.must_record_route settings.keep_next_hop_route
        settings.my_name settings.find (λ host. get_learned host arrived.from.protocol s.routes)
        m in
    settled out.keeper (message_after m action) (perform settings out arrived action s)

-- One round of receiveAndProcessMessage for a message: an error is the end of the program, else the
-- result says who took the message or why nobody did.
unfoldable pub process_message :
    {S : Type 0}
    → Settings
    → Outside S
    → RawMessage
    → ProxyState S
    → Result (Result (Receiver × Message) × ProxyState S)
unfolding handle_raw_message handle_prepared
process_message settings out arrived s = do
  prepared ← handle_raw_message out arrived s
  handle_prepared settings out arrived prepared
