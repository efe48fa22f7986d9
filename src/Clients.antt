-- ===== src/Clients.antt =====
-- The client transports of transport.go: ClientTransportFactory and FailOverClientTransport; the
-- manager is in Manager. The factory, the manager and the proxy share clients and fail-over transports
-- by pointer; so each is a number, its place in a list that only grows.
pub mod FailOver
pub mod Lookup
pub mod Manager
use sipproxy.Dict.{Dict, dict_get, dict_delete, dict_put}
use sipproxy.Prelude.{
  ℕ, ◌+◌, Bool, true, false, ◌&&◌, ◌||◌, Option, none, some, List, [], ◌∷◌, ◌++◌, ltb,
  if◌then◌else◌, length, get_elem?, send_failed, Result, ok, err, ℤ,
}
use sipproxy.Text.{Bytes, codes}
use sipproxy.Text.Number.{itoa}

-- UDPClientTransport and TCPClientTransport as they are made; Stream has their sends. A TCP client of
-- an accepted connection expires, any other has 0.
pub record Client : Type 0 where
  pub over_tcp : Bool
  pub host : Bytes
  pub port : ℤ
  pub local_address : Bytes
  pub reconnectable : Bool
  pub expire : ℕ

pub record FailOverClient : Type 0 where
  pub primary : Option ℕ
  pub secondaries : List ℕ

pub record Clients : Type 0 where
  pub clients : List Client
  pub fail_overs : List FailOverClient
  pub factory : Dict ℕ
  pub transports : Dict ℕ
  pub last_clean_time : ℕ

-- NewClientTransportFactory and NewClientTransportMgr
unfoldable pub new_clients : ℕ → Clients
new_clients now = record {
  clients = [];
  fail_overs = [];
  factory = [];
  transports = [];
  last_clean_time = now;
}

unfoldable pub udp_client : Bytes → ℤ → Bytes → Client
udp_client host port local = record {
  over_tcp = false;
  host = host;
  port = port;
  local_address = local;
  reconnectable = false;
  expire = 0;
}

unfoldable pub tcp_client : Bytes → ℤ → Bytes → Client
tcp_client host port local = record {
  over_tcp = true;
  host = host;
  port = port;
  local_address = local;
  reconnectable = true;
  expire = 0;
}

-- NewTCPClientTransportWithConn, for the address that the connection comes from
unfoldable pub accepted_client : Bytes → ℤ → ℕ → Client
accepted_client host port now = record {
  over_tcp = true;
  host = host;
  port = port;
  local_address = [];
  reconnectable = false;
  expire = now + 3600;
}

unfoldable pub alloc_client : Client → Clients → ℕ × Clients
alloc_client c s = (length s.clients, record s { clients = s.clients ++ c ∷ [] })

unfoldable pub alloc_fail_over : FailOverClient → Clients → ℕ × Clients
alloc_fail_over f s = (length s.fail_overs, record s { fail_overs = s.fail_overs ++ f ∷ [] })

-- "udp:%s:%d:%s" and its like
unfoldable pub client_key : Bytes → Bytes → ℤ → Bytes → Bytes
unfolding itoa
client_key protocol host port local =
    protocol ++ (b':' ∷ (host ++ (b':' ∷ (itoa port ++ (b':' ∷ local)))))

-- CreateUDPClientTransport and its like; making a client does not fail.
unfoldable pub factory_client : Bytes → Client → Option ℕ → Clients → ℕ × Clients
unfolding alloc_client dict_put
factory_client key c (some i) s = (i, s)
factory_client key c none s =
    let made = alloc_client c s in
    (made.0, record made.1 { factory = dict_put key made.0 made.1.factory })

unfoldable pub create_udp_client : Bytes → ℤ → Bytes → Clients → ℕ × Clients
unfolding factory_client client_key udp_client dict_get
create_udp_client host port local s =
    let key = client_key (codes "udp") host port local in
    factory_client key (udp_client host port local) (dict_get key s.factory) s

unfoldable pub create_udp_client_with_conn : Bytes → ℤ → Bytes → Clients → ℕ × Clients
unfolding factory_client client_key udp_client dict_get
create_udp_client_with_conn host port conn s =
    let key = client_key (codes "udp") host port conn in
    factory_client key (udp_client host port []) (dict_get key s.factory) s

unfoldable pub create_tcp_client : Bytes → ℤ → Bytes → Clients → ℕ × Clients
unfolding factory_client client_key tcp_client dict_get
create_tcp_client host port local s =
    let key = client_key (codes "tcp") host port local in
    factory_client key (tcp_client host port local) (dict_get key s.factory) s

-- RemoveUDPClientTransport and RemoveTCPClientTransport, at their protocols
unfoldable pub remove_factory_client : Bytes → Bytes → ℤ → Bytes → Clients → Clients
unfolding client_key dict_delete
remove_factory_client protocol host port local s = record s {
  factory = dict_delete (client_key protocol host port local) s.factory;
}

-- NewFailOverClientTransport makes an empty list of the secondaries that it is given.
unfoldable pub new_fail_over : Option ℕ → List ℕ → FailOverClient
new_fail_over primary secondaries = record { primary = primary; secondaries = [] }

unfoldable pub set_primary : Option ℕ → FailOverClient → FailOverClient
set_primary client f = record f { primary = client }

unfoldable pub add_secondary : ℕ → FailOverClient → FailOverClient
add_secondary client f = record f { secondaries = f.secondaries ++ client ∷ [] }

unfoldable pub set_secondaries : List ℕ → FailOverClient → FailOverClient
set_secondaries clients f = record f { secondaries = clients }

-- The first client that takes the message; `delivers` is Send of a client.
unfoldable pub first_sent : (ℕ → Bool) → List ℕ → Result ℕ
first_sent delivers [] = err send_failed
first_sent delivers (c ∷ cs) =
    let rest = first_sent delivers cs in if delivers c then ok c else rest

unfoldable pub primary_list : Option ℕ → List ℕ
primary_list none = []
primary_list (some c) = c ∷ []

-- FailOverClientTransport.Send
unfoldable pub fail_over_send : (ℕ → Bool) → FailOverClient → Result ℕ
unfolding first_sent primary_list
fail_over_send delivers f = first_sent delivers (primary_list f.primary ++ f.secondaries)

unfoldable pub is_connected : FailOverClient → Bool
unfolding primary_list
is_connected f = ltb 0 (length (primary_list f.primary)) || ltb 0 (length f.secondaries)

-- IsExpired of a client; `now` is read for each client.
unfoldable pub is_expired : ℕ → Client → Bool
is_expired now c = ltb 0 c.expire && ltb c.expire now

unfoldable pub client_expired : (ℕ → ℕ) → List Client → ℕ → Bool
unfolding is_expired
client_expired now clients i = elim (get_elem? clients i) [
  | none ↦ false
  | some c ↦ is_expired (now i) c
]

unfoldable pub any_expired : (ℕ → Bool) → List ℕ → Bool
any_expired expired [] = false
any_expired expired (c ∷ cs) = expired c || any_expired expired cs

unfoldable pub fail_over_expired : (ℕ → Bool) → FailOverClient → Bool
unfolding any_expired primary_list
fail_over_expired expired f = any_expired expired (primary_list f.primary ++ f.secondaries)

unfoldable pub transport_expired : (ℕ → ℕ) → Clients → ℕ → Bool
unfolding client_expired fail_over_expired
transport_expired now s i = elim (get_elem? s.fail_overs i) [
  | none ↦ false
  | some f ↦ fail_over_expired (client_expired now s.clients) f
]
