-- ===== src/Config.antt =====
-- What the configuration of main.go becomes: the settings of a proxy, its configured routes and hosts,
-- and, of backend.go, createViaConfig and CreateRoundRobinBackend. Parameters are url.Parse,
-- net.SplitHostPort, net.JoinHostPort, net.ParseIP, the environment, and the making of a backend.
pub mod Backends
pub mod Hosts
use sipproxy.Dict.{Dict}
use sipproxy.Dispatch.{ViaConfig}
use sipproxy.Message.Access.{◌>>◌}
use sipproxy.Pool.{Backend, Pool, new_pool, add_backend, create_backend, host_ip_changed}
use sipproxy.PreConfigRoute.{PreRouteItem, cut_last, add_route_item}
use sipproxy.Prelude.{
  ◌>>=◌, zero, suc, Bool, false, ◌||◌, Option, none, some, List, [], ◌∷◌, ◌++◌, if◌then◌else◌,
  no_backend, unsupported_protocol, Result, ok, err, value_or, ℤ, pos, negsuc,
}
use sipproxy.Resolver.{is_ip_address, HostResolver, add_host_ip}
use sipproxy.Text.{Bytes, codes, str_eq, to_lower}
use sipproxy.Text.Number.{atoi, itoa}

pub record HostIp : Type 0 where
  pub name : Bytes
  pub ip : Bytes

pub record BackendConfig : Type 0 where
  pub backend_address : Bytes
  pub local_address : Bytes

pub record RouteConfig : Type 0 where
  pub dests : List Bytes
  pub route_protocol : Bytes
  pub next_hop : Bytes

unfoldable pub any_text : Bytes → List Bytes → Bool
unfolding str_eq
any_text s [] = false
any_text s (x ∷ xs) = str_eq x s || any_text s xs

unfoldable pub or_environment : Bytes → Bytes → Bytes
or_environment environment [] = environment
or_environment environment (c ∷ s) = c ∷ s

-- toKeepNextHopRoute; the text of the environment is empty where it is not set.
unfoldable pub to_keep_next_hop_route : Bytes → Bytes → Bool
unfolding any_text or_environment to_lower
to_keep_next_hop_route environment s =
    any_text (to_lower (or_environment environment s))
      (codes "true" ∷ codes "yes" ∷ codes "1" ∷ codes "on" ∷ codes "t" ∷ codes "y" ∷ [])

unfoldable pub get_default_dialog_timeout : Option Bytes → ℤ
unfolding atoi
get_default_dialog_timeout none = pos 1200
get_default_dialog_timeout (some s) = value_or (atoi s) (pos 1200)

-- The timeout that startProxy takes.
unfoldable pub dialog_timeout : Option Bytes → ℤ → ℤ
unfolding get_default_dialog_timeout
dialog_timeout environment (pos (suc n)) = pos (suc n)
dialog_timeout environment (pos zero) = get_default_dialog_timeout environment
dialog_timeout environment (negsuc n) = get_default_dialog_timeout environment

unfoldable pub add_dests : Bytes → Bytes → List Bytes → Dict PreRouteItem → Dict PreRouteItem
unfolding add_route_item
add_dests protocol next_hop [] items = items
add_dests protocol next_hop (d ∷ ds) items =
    add_dests protocol next_hop ds (add_route_item protocol d next_hop items).1

unfoldable pub add_routes : List RouteConfig → Dict PreRouteItem → Dict PreRouteItem
unfolding add_dests
add_routes [] items = items
add_routes (r ∷ rs) items = add_routes rs (add_dests r.route_protocol r.next_hop r.dests items)

unfoldable pub create_pre_config_route : List RouteConfig → Dict PreRouteItem
unfolding add_routes
create_pre_config_route rs = add_routes rs []

unfoldable pub add_hosts : List HostIp → HostResolver → HostResolver
unfolding add_host_ip
add_hosts [] hosts = hosts
add_hosts (h ∷ hs) hosts = add_hosts hs (add_host_ip h.name h.ip hosts)

-- The hosts of all proxies, then those of this one.
unfoldable pub create_pre_config_host_resolver : List HostIp → List HostIp → HostResolver
unfolding add_hosts
create_pre_config_host_resolver globals own = add_hosts own (add_hosts globals [])

-- "%s://%s:%d"
unfoldable pub print_via_config : ViaConfig → Bytes
unfolding itoa
print_via_config v = v.protocol ++ (codes "://" ++ (v.address ++ (b':' ∷ itoa v.port)))

-- What url.Parse gives, as far as it is used.
pub record Url : Type 0 where
  pub scheme : Bytes
  pub url_host : Bytes

unfoldable pub is_network : Bytes → Bool
unfolding str_eq
is_network scheme = str_eq scheme (codes "tcp") || str_eq scheme (codes "udp")

unfoldable pub via_config_of : Bytes → Bytes → Result ℤ → Option ViaConfig
via_config_of scheme host (ok port) =
    some (record { address = host; protocol = scheme; port = port })
via_config_of scheme host (err _) = none

-- createViaConfig; `split_host_port` gives two empty texts where net.SplitHostPort has an error.
unfoldable pub create_via_config :
    (Bytes → Result Url) → (Bytes → Bytes × Bytes) → Bytes → Option ViaConfig
unfolding is_network via_config_of atoi
create_via_config parse split_host_port via = elim (parse via) [
  | err _ ↦ none
  | ok u ↦
      let parts = split_host_port u.url_host in
      if is_network u.scheme then via_config_of u.scheme parts.0 (atoi parts.1) else none
]

-- A host name whose addresses join the pool when they are resolved.
pub record Watched : Type 0 where
  pub scheme : Bytes
  pub local : Bytes
  pub host : Bytes
  pub port : Bytes

-- The pool, the factory's backends, and the names handed to ResolveHost, the first one first.
pub record Making : Type 0 where
  pub pool : Pool
  pub factory : Dict Backend
  pub watched : List Watched

unfoldable pub with_created : Making → Result Backend × Dict Backend → Result Making
unfolding add_backend
with_created s (ok b, d) = ok (record s { pool = add_backend b s.pool; factory = d })
with_created s (err e, d) = err e

-- What a name that the resolver holds already brings into the pool: ResolveHost calls the callback, which
-- is hostIPChanged, with the addresses it holds. `join` is net.JoinHostPort.
unfoldable pub watch_host :
    (Bytes → Bytes → Bytes)
    → (Bytes → Bytes → Bytes → Result Backend)
    → Watched
    → List Bytes
    → Making
    → Making
unfolding host_ip_changed
watch_host join create w held s =
    let changed =
      host_ip_changed w.scheme w.local (λ ip. join ip w.port) (create w.scheme w.local) held []
        (s.pool, s.factory) in
    record s { pool = changed.0; factory = changed.1; watched = s.watched ++ w ∷ [] }

-- One backend: the host of its URL is cut at the last colon. `held` are the addresses that the resolver
-- holds for a name when those before it have been handed to it.
unfoldable pub add_configured :
    (Bytes → Bool)
    → (Bytes → Bytes → Bytes)
    → (List Watched → Bytes → List Bytes)
    → (Bytes → Bytes → Bytes → Result Backend)
    → Bytes
    → Url
    → Option (Bytes × Bytes)
    → Making
    → Result Making
unfolding is_ip_address with_created create_backend watch_host
add_configured is_ip join held create local u none s = ok s
add_configured is_ip join held create local u (some (host, port)) s =
    let w : Watched = record { scheme = u.scheme; local = local; host = host; port = port } in
    if is_ip_address is_ip host
    then with_created s
        (create_backend u.scheme local u.url_host (create u.scheme local u.url_host) s.factory)
    else ok (watch_host join create w (held s.watched host) s)

unfoldable pub add_backends :
    (Bytes → Result Url)
    → (Bytes → Bytes)
    → (Bytes → Bool)
    → (Bytes → Bytes → Bytes)
    → (List Watched → Bytes → List Bytes)
    → (Bytes → Bytes → Bytes → Result Backend)
    → List BackendConfig
    → Making
    → Result Making
unfolding add_configured cut_last is_network
add_backends parse local_of is_ip join held create [] s = ok s
add_backends parse local_of is_ip join held create (b ∷ bs) s = do
  u ← parse b.backend_address
  t ←
      if is_network u.scheme
      then add_configured is_ip join held create (local_of b.local_address) u
          (cut_last b':' u.url_host) s
      else err unsupported_protocol
  add_backends parse local_of is_ip join held create bs t

-- CreateRoundRobinBackend; where it fails, the backends that it made before stay in the factory, which
-- is not shown. `local_of` is net.JoinHostPort(address, "0").
unfoldable pub create_round_robin_backend :
    (Bytes → Result Url)
    → (Bytes → Bytes)
    → (Bytes → Bool)
    → (Bytes → Bytes → Bytes)
    → (List Watched → Bytes → List Bytes)
    → (Bytes → Bytes → Bytes → Result Backend)
    → List BackendConfig
    → Dict Backend
    → Result Making
unfolding add_backends new_pool
create_round_robin_backend parse local_of is_ip join held create [] d = err no_backend
create_round_robin_backend parse local_of is_ip join held create (b ∷ bs) d =
    add_backends parse local_of is_ip join held create (b ∷ bs)
      (record { pool = new_pool; factory = d; watched = [] })
