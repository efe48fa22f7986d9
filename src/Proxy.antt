-- ===== src/Proxy.antt =====
-- What the proxy does with a message, proxy.go. Parameters stand for what the code calls outside
-- this repository: the branch that CreateBranch makes of a random UUID, and regular expressions.
-- The addresses that the resolver gives for a host are an argument.
pub mod Hops
pub mod Requests
pub mod Responses
use sipproxy.Address.{get_sip_uri}
use sipproxy.Identity.{MyName, any_equal, is_my_message}
use sipproxy.Message.{
  ServerTransport, Message, get_header, add_via, add_record_route, is_request, is_response,
}
use sipproxy.Message.Access.{
  ◌>>=◌, ◌>>◌, pure, lift, try, M, get_to, get_route, get_via, pop_route, pop_via, get_method,
}
use sipproxy.Message.Ids.{get_session_id, get_client_transaction}
use sipproxy.Party.{get_host}
use sipproxy.PreConfigRoute.{Hop}
use sipproxy.Prelude.{
  ℕ, Bool, false, ◌&&◌, ◌||◌, Option, none, some, List, [], ◌∷◌, if◌then◌else◌, Result, ok, err,
  is_ok, value_or, int_eq,
}
use sipproxy.Routes.{get_route_param, create_record_route, RouteParam, Route}
use sipproxy.Session.{LocalSessions, get_session, remove_session}
use sipproxy.SipUri.{SipUri, get_transport, get_uri_port}
use sipproxy.Text.{Bytes, codes, str_eq}
use sipproxy.Via.{ViaParam, get_via_param, get_via_port, get_received, get_rport, create_via, Via}

unfoldable pub common_ip : List Bytes → List Bytes → Bool
unfolding any_equal
common_ip [] ips = false
common_ip (ip ∷ ips1) ips2 = any_equal ip ips2 || common_ip ips1 ips2

-- `get_ips` is what the resolver answers to GetIps.
unfoldable pub is_same_address : (Bytes → List Bytes) → Bytes → Bytes → Bool
unfolding common_ip str_eq
is_same_address get_ips a b = str_eq a b || common_ip (get_ips a) (get_ips b)

unfoldable pub is_reached : (Bytes → List Bytes) → ServerTransport → Result SipUri → Bool
unfolding is_same_address get_uri_port
is_reached get_ips t (err _) = false
is_reached get_ips t (ok u) =
    int_eq (get_uri_port u) t.local_port && is_same_address get_ips u.host t.address

-- Proxy.tryRemoveTopRoute
unfoldable pub remove_reached_route : (Bytes → List Bytes) → ServerTransport → M (Unit {0})
unfolding get_route get_route_param is_reached get_sip_uri pop_route
remove_reached_route get_ips t = do
  r ← get_route
  p ← lift (get_route_param r 0)
  if is_reached get_ips t (get_sip_uri p.name_addr.addr) then try tt pop_route else pure tt

unfoldable pub hop_of_uri : Result SipUri → Result Hop
unfolding get_transport get_uri_port
hop_of_uri (ok u) =
    ok (record { host = u.host; port = get_uri_port u; transport = get_transport u })
hop_of_uri (err e) = err e

-- The route is popped before its address is looked at.
unfoldable pub hop_of_param : Bool → RouteParam → M Hop
unfolding pop_route hop_of_uri get_sip_uri
hop_of_param keep_next_hop_route p = do
  if keep_next_hop_route then pure tt else try tt pop_route
  lift (hop_of_uri (get_sip_uri p.name_addr.addr))

unfoldable pub hop_of_route : Bool → Route → M Hop
unfolding get_route_param hop_of_param
hop_of_route keep_next_hop_route r = do
  p ← lift (get_route_param r 0)
  hop_of_param keep_next_hop_route p

unfoldable pub get_next_request_hop_by_route : Bool → M Hop
unfolding get_route hop_of_route
get_next_request_hop_by_route keep_next_hop_route = do
  r ← get_route
  hop_of_route keep_next_hop_route r

-- `find` is FindRoute of the configured routes.
unfoldable pub get_next_request_hop_by_config : (Bytes → Result Hop) → M Hop
unfolding get_to get_host
get_next_request_hop_by_config find = do to ← get_to; host ← lift (get_host to); lift (find host)

unfoldable pub get_next_request_hop : Bool → (Bytes → Result Hop) → M Hop
unfolding get_next_request_hop_by_route get_next_request_hop_by_config
get_next_request_hop keep find m =
    let by_route = get_next_request_hop_by_route keep m in
    elim by_route.0 [ ok hop ↦ by_route | err _ ↦ get_next_request_hop_by_config find by_route.1 ]

-- To the address that the top via-param was received from, if it is marked, else to its sent-by.
unfoldable pub hop_of_via : ViaParam → Hop
unfolding get_received get_rport get_via_port
hop_of_via p = elim (get_received p) [
  | ok received ↦ record {
    host = received;
    port = value_or (get_rport p) (get_via_port p);
    transport = p.transport;
  }
  | err _ ↦ record { host = p.host; port = get_via_port p; transport = p.transport }
]

unfoldable pub hop_of_top : Via → M Hop
unfolding get_via_param hop_of_via
hop_of_top v = do p ← lift (get_via_param v 0); pure (hop_of_via p)

unfoldable pub get_next_response_hop : M Hop
unfolding get_via hop_of_top
get_next_response_hop = do v ← get_via; hop_of_top v

-- Proxy.addVia; nothing is added where there is no branch.
unfoldable pub add_proxy_via : Result Bytes → ServerTransport → Message → Message
unfolding create_via add_via
add_proxy_via branch t m = elim (create_via branch t.protocol t.address t.local_port) [
  | ok v ↦ add_via v m
  | err _ ↦ m
]

unfoldable pub add_proxy_record_route : Bool → ServerTransport → Message → Message
unfolding get_header create_record_route add_record_route
add_proxy_record_route must t m =
    if is_ok (get_header m (codes "Record-Route")) || must
    then add_record_route (create_record_route t.address t.local_port) m
    else m

-- What the loop does with a message in the end.
pub data Action : Type 0 where
  send_on : Hop → Bytes → Message → Action
  to_backend : Message → Action
  drop_message : Action

-- Where the learned routes know the next host, the proxy enters itself in the message.
unfoldable pub stamp : Result Bytes → Bool → Option ServerTransport → Message → Message
unfolding add_proxy_via add_proxy_record_route
stamp branch must none m = m
stamp branch must (some t) m = add_proxy_record_route must t (add_proxy_via branch t m)

unfoldable pub handle_request :
    Result Bytes
    → Bool
    → Bool
    → MyName
    → (Bytes → Result Hop)
    → (Bytes → Option ServerTransport)
    → Message
    → Action
unfolding get_next_request_hop stamp is_my_message
handle_request branch must keep my find learned m =
    let next = get_next_request_hop keep find m in
    elim next.0 [
      | ok hop ↦ send_on hop [] (stamp branch must (learned hop.host) next.1)
      | err _ ↦ if is_my_message my next.1 then to_backend next.1 else drop_message
    ]

-- sendResponse: the transaction names the client transport.
unfoldable pub send_response : Result Hop × Message → Action
unfolding get_client_transaction
send_response (err _, m) = drop_message
send_response (ok hop, m) = let id = get_client_transaction m in send_on hop (value_or id.0 []) id.1

unfoldable pub handle_response : Message → Action
unfolding pop_via get_next_response_hop send_response
handle_response m = send_response (get_next_response_hop (pop_via m).1)

-- Proxy.handleMessage; `learned` is GetRoute of the learned routes at the message's protocol.
unfoldable pub handle_message :
    Result Bytes
    → Bool
    → Bool
    → MyName
    → (Bytes → Result Hop)
    → (Bytes → Option ServerTransport)
    → Message
    → Action
unfolding is_request handle_request handle_response
handle_message branch must keep my find learned m =
    if is_request m then handle_request branch must keep my find learned m else handle_response m
