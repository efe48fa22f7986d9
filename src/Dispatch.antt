-- ===== src/Dispatch.antt =====
-- How the proxy hands a message to a backend: ProxyItem and sendToBackend of proxy.go with what they
-- look up, and the interface SessionBasedBackend of backend.go with its three implementations. The
-- proxy's items and the messages share the pools by pointer; so a pool is named by the place of its
-- item. `delivers` is Send of a UDP or TCP backend.
pub mod Choice
pub mod Stores
pub mod Sticky
use sipproxy.Message.{ServerTransport}
use sipproxy.Pool.{Backend, Pool, get_pool_backend, pool_address}
use sipproxy.Prelude.{
  ℕ, ◌+◌, Bool, false, ◌&&◌, Option, none, some, List, [], ◌∷◌, ◌++◌, if◌then◌else◌, no_backend,
  no_session, Result, ok, err, ℤ, pos, int_eq,
}
use sipproxy.Session.{
  LocalSessions, get_session, session_seconds, add_session, remove_session, RedisSessions,
  get_backend_address, remove_address, add_text, delete_text, for_each_redis,
}
use sipproxy.Text.{Bytes, str_eq, starts_with}

pub record ViaConfig : Type 0 where
  pub address : Bytes
  pub protocol : Bytes
  pub port : ℤ

-- Where the listener has no backends, its pool is nil.
pub record ProxyItem : Type 0 where
  pub transports : List ServerTransport
  pub pool : Option Pool

-- SessionBasedBackend, with its state made explicit
pub record SessionStore (S : Type 0) : Type 0 where
  pub get_bound : Bytes → S → Result Backend × S
  pub bind_backend : Bytes → Backend → ℤ → S → S
  pub unbind : Bytes → S → S

-- The readings of the clock that one operation of a store makes.
pub record Clock : Type 0 where
  pub get_now : ℕ
  pub now : ℕ
  pub test_now : ℕ
  pub clean_now : ℕ
  pub entry_now : Bytes → ℕ

unfoldable pub local_store : Clock → SessionStore LocalSessions
unfolding get_session add_session remove_session
local_store c = record {
  get_bound = λ id s. get_session id c.get_now s;
  bind_backend =
      λ id b seconds s. add_session id b seconds c.now c.test_now c.clean_now c.entry_now s;
  unbind = λ id s. remove_session id s;
}

-- MasterSlaveRedisSessionBasedBackend with `count` clients: the texts that were published, each with
-- the client that took it, the latest first.
pub record RedisStore : Type 0 where
  pub timeout : ℕ
  pub addresses : RedisSessions
  pub count : ℕ
  pub master : ℕ
  pub published : List (ℕ × Bytes)

unfoldable pub publish_text : (ℕ → Bool) → Bytes → RedisStore → RedisStore
unfolding for_each_redis
publish_text publish text s =
    let r = for_each_redis publish s.count s.master in
    elim r.0 [
      | ok i ↦ record s { master = r.1; published = (i, text) ∷ s.published }
      | err _ ↦ record s { master = r.1 }
    ]

unfoldable pub found_by_address : (Bytes → Result Backend) → Result Bytes → Result Backend
found_by_address find (ok address) = find address
found_by_address find (err _) = err no_session

-- `find` is findBackendByAddr over the items. A session is bound, for seconds whose duration does not
-- overflow, only when the published text comes back.
unfoldable pub redis_store : Clock → (ℕ → Bool) → (Bytes → Result Backend) → SessionStore RedisStore
unfolding get_backend_address found_by_address publish_text add_text delete_text session_seconds
    remove_address
redis_store c publish find = record {
  get_bound = λ id s.
      let r = get_backend_address id c.test_now c.clean_now c.entry_now c.get_now s.addresses in
      (found_by_address find r.0, record s { addresses = r.1 });
  bind_backend = λ id b seconds s.
      publish_text publish (add_text id b.address (pos (session_seconds s.timeout seconds))) s;
  unbind = λ id s.
      let t = publish_text publish (delete_text id) s in
      record t { addresses = (remove_address id t.addresses).1 };
}

-- CompositeSessionBasedBackend: the first store that knows the session answers.
unfoldable pub first_bound : {S : Type 0} → List (SessionStore S) → Bytes → S → Result Backend × S
first_bound [] id s = (err no_session, s)
first_bound (x ∷ xs) id s =
    let r = x.get_bound id s in
    let rest = first_bound xs id r.1 in elim r.0 [ ok b ↦ (ok b, r.1) | err _ ↦ rest ]

unfoldable pub bind_all : {S : Type 0} → List (SessionStore S) → Bytes → Backend → ℤ → S → S
bind_all [] id b seconds s = s
bind_all (x ∷ xs) id b seconds s = bind_all xs id b seconds (x.bind_backend id b seconds s)

unfoldable pub unbind_all : {S : Type 0} → List (SessionStore S) → Bytes → S → S
unbind_all [] id s = s
unbind_all (x ∷ xs) id s = unbind_all xs id (x.unbind id s)

unfoldable pub composite : {S : Type 0} → List (SessionStore S) → SessionStore S
unfolding first_bound bind_all unbind_all
composite xs = record {
  get_bound = first_bound xs;
  bind_backend = bind_all xs;
  unbind = unbind_all xs;
}

-- The two stores of a composite have a state each.
abbrev pub on_left : {S T : Type 0} → SessionStore S → SessionStore (S × T)
on_left x = record {
  get_bound = λ id s. (let r = x.get_bound id s.0 in (r.0, (r.1, s.1)));
  bind_backend = λ id b seconds s. (x.bind_backend id b seconds s.0, s.1);
  unbind = λ id s. (x.unbind id s.0, s.1);
}

abbrev pub on_right : {S T : Type 0} → SessionStore T → SessionStore (S × T)
on_right x = record {
  get_bound = λ id s. (let r = x.get_bound id s.1 in (r.0, (s.0, r.1)));
  bind_backend = λ id b seconds s. (s.0, x.bind_backend id b seconds s.1);
  unbind = λ id s. (s.0, x.unbind id s.1);
}

-- The first answer, where there is one.
abbrev pub or_else {ℓ} : {A : Type ℓ} → Option A → Option A → Option A
or_else none b = b
or_else (some a) b = some a

-- ProxyItem.FindTransport, and its first answer over the items
unfoldable pub find_transport :
    (ServerTransport → Bool) → List ServerTransport → Option ServerTransport
find_transport cond [] = none
find_transport cond (t ∷ ts) = let rest = find_transport cond ts in if cond t then some t else rest

unfoldable pub find_in_items : (ServerTransport → Bool) → List ProxyItem → Option ServerTransport
unfolding find_transport
find_in_items cond [] = none
find_in_items cond (x ∷ xs) = or_else (find_transport cond x.transports) (find_in_items cond xs)

unfoldable pub is_configured : ViaConfig → ServerTransport → Bool
unfolding str_eq
is_configured v t =
    str_eq t.protocol v.protocol && str_eq t.address v.address && int_eq t.local_port v.port

unfoldable pub find_transport_by_via_config :
    Option ViaConfig → List ProxyItem → Option ServerTransport
unfolding find_in_items is_configured
find_transport_by_via_config none items = none
find_transport_by_via_config (some v) items = find_in_items (is_configured v) items

-- The transport of that address, else one of the protocol.
unfoldable pub find_transport_by_backend_addr :
    Bytes → Bytes → List ProxyItem → Option ServerTransport
unfolding find_in_items str_eq
find_transport_by_backend_addr addr protocol items =
    or_else (find_in_items (λ t. str_eq t.address addr) items)
      (find_in_items (λ t. str_eq t.protocol protocol) items)

unfoldable pub pool_has_prefix : Bytes → Option Pool → Bool
unfolding pool_address
pool_has_prefix protocol none = false
pool_has_prefix protocol (some p) = starts_with protocol (pool_address p)

-- findBackendProxyItem, from the place `i` of the first item on
unfoldable pub find_backend_item : Bytes → List ProxyItem → ℕ → Option ℕ
unfolding pool_has_prefix
find_backend_item protocol [] i = none
find_backend_item protocol (x ∷ xs) i =
    let rest = find_backend_item protocol xs (i + 1) in
    if pool_has_prefix protocol x.pool then some i else rest

-- ProxyItem.findBackendByAddr, and findBackendByAddr of NewProxy
unfoldable pub item_backend_by_addr : Bytes → ProxyItem → Result Backend
unfolding get_pool_backend
item_backend_by_addr addr x = elim x.pool [
  | none ↦ err no_backend
  | some p ↦ get_pool_backend addr p
]

unfoldable pub find_backend_by_addr : List ProxyItem → Bytes → Result Backend
unfolding item_backend_by_addr
find_backend_by_addr [] addr = err no_backend
find_backend_by_addr (x ∷ xs) addr =
    let rest = find_backend_by_addr xs addr in
    elim (item_backend_by_addr addr x) [ ok b ↦ ok b | err _ ↦ rest ]

-- removeExitServerTransports and connectionEstablished
unfoldable pub still_listening :
    (ServerTransport → Bool) → List ServerTransport → List ServerTransport
still_listening is_exit [] = []
still_listening is_exit (t ∷ ts) =
    let rest = still_listening is_exit ts in if is_exit t then rest else t ∷ rest

unfoldable pub remove_exit_server_transports : (ServerTransport → Bool) → ProxyItem → ProxyItem
unfolding still_listening
remove_exit_server_transports is_exit x = record x {
  transports = still_listening is_exit x.transports;
}

unfoldable pub connection_established :
    (ServerTransport → Bool) → ServerTransport → ProxyItem → ProxyItem
unfolding remove_exit_server_transports
connection_established is_exit t x =
    let x' = remove_exit_server_transports is_exit x in
    record x' { transports = x'.transports ++ t ∷ [] }
