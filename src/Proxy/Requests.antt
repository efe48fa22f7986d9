-- ===== src/Proxy/Requests.antt =====
-- Where a request with a Route goes.
use sipproxy.Address.{sip_uri, get_sip_uri}
use sipproxy.Message.{Message}
use sipproxy.Message.Access.{bind-ok, get_route}
use sipproxy.PreConfigRoute.{Hop}
use sipproxy.Prelude.{◌≡◌, refl, ap, ◌∙◌, Bool, true, false, List, ◌∷◌, Result, ok}
use sipproxy.Proxy.{
  hop_of_uri, hop_of_param, hop_of_route, get_next_request_hop_by_route, get_next_request_hop,
}
use sipproxy.Routes.{RouteParam, Route, get_route_param}
use sipproxy.SipUri.{SipUri, get_transport, get_uri_port}
use sipproxy.Text.{Bytes}

hop_of_param-uri :
    (keep : Bool) (p : RouteParam) (u : SipUri) (m : Message)
    → p.name_addr.addr ≡ sip_uri u
    → (hop_of_param keep p m).0
      ≡ ok (record { host = u.host; port = get_uri_port u; transport = get_transport u })
unfolding hop_of_param hop_of_uri get_sip_uri
hop_of_param-uri true p u m e = rw e refl
hop_of_param-uri false p u m e = rw e refl

hop_of_route-uri :
    (keep : Bool) (r : Route) (p : RouteParam) (ps : List RouteParam) (u : SipUri) (m : Message)
    → r.route_params ≡ p ∷ ps
    → p.name_addr.addr ≡ sip_uri u
    → (hop_of_route keep r m).0
      ≡ ok (record { host = u.host; port = get_uri_port u; transport = get_transport u })
unfolding hop_of_route get_route_param
hop_of_route-uri keep r p ps u m top e = rw top (hop_of_param-uri keep p u m e)

by_route :
    (keep : Bool) (find : Bytes → Result Hop) (m : Message) (hop : Hop)
    → (get_next_request_hop_by_route keep m).0 ≡ ok hop
    → (get_next_request_hop keep find m).0 ≡ ok hop
unfolding get_next_request_hop
by_route keep find m hop e = rw (get_next_request_hop, e) e

-- A request whose first Route header can be read and names a SIP URI first goes to the host, port and
-- transport of that URI, whatever the configured routes say and whether or not the route is kept.
pub get_next_request_hop-route :
    (keep : Bool) (find : Bytes → Result Hop) (m read : Message) (r : Route) (p : RouteParam)
    (ps : List RouteParam) (u : SipUri)
    → get_route m ≡ (ok r, read)
    → r.route_params ≡ p ∷ ps
    → p.name_addr.addr ≡ sip_uri u
    → (get_next_request_hop keep find m).0
      ≡ ok (record { host = u.host; port = get_uri_port u; transport = get_transport u })
unfolding get_next_request_hop_by_route
get_next_request_hop-route keep find m read r p ps u found top e =
    by_route keep find m
      (record { host = u.host; port = get_uri_port u; transport = get_transport u })
      (ap (λ x. x.0) (bind-ok get_route (hop_of_route keep) m found)
        ∙ hop_of_route-uri keep r p ps u read top e)
