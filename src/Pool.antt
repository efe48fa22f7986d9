-- ===== src/Pool.antt =====
-- The round-robin pool of backends, the type RoundRobinBackend of backend.go, and the factory that
-- keeps the backends it made, BackendFactory. A backend is its identity and its address; a network
-- operation is a parameter that says how it ends. Each operation is one step; Send takes the pool's
-- lock once for the index and once for each try, and what others do to the pool between is left out.
pub mod Members
pub mod Rotation
use sipproxy.Dict.{Dict, dict_get, dict_delete, dict_put}
use sipproxy.Prelude.{
  ℕ, zero, suc, ◌+◌, ◌%◌, Bool, ◌||◌, Option, none, some, List, [], ◌∷◌, ◌++◌, map, reverse, leb,
  if◌then◌else◌, length, get_elem?, drop, no_backend, send_failed, Result, ok, err,
}
use sipproxy.Text.{Bytes, codes, str_eq}

pub record Backend : Type 0 where
  pub identity : ℕ
  pub address : Bytes

-- `closed` lists the identities that Close was called on, the latest first.
pub record Pool : Type 0 where
  pub index : ℕ
  pub backends : List Backend
  pub backend_map : Dict Backend
  pub closed : List ℕ

unfoldable pub new_pool : Pool
new_pool = record { index = 0; backends = []; backend_map = []; closed = [] }

-- The list without the first backend of the address.
unfoldable pub without : Bytes → List Backend → List Backend
unfolding str_eq
without address [] = []
without address (b ∷ bs) =
    let rest = without address bs in if str_eq address b.address then bs else b ∷ rest

unfoldable pub first_of_address : Bytes → List Backend → Option Backend
unfolding str_eq
first_of_address address [] = none
first_of_address address (b ∷ bs) =
    let rest = first_of_address address bs in if str_eq address b.address then some b else rest

-- Where the address is known, the old backend leaves the list and the map, and the new one is closed.
unfoldable pub make_room : Backend → Option Backend → Pool → Pool
unfolding without dict_delete
make_room b none p = p
make_room b (some _) p = record p {
  backends = without b.address p.backends;
  backend_map = dict_delete b.address p.backend_map;
  closed = b.identity ∷ p.closed;
}

unfoldable pub join_pool : Backend → Pool → Pool
unfolding dict_put
join_pool b p = record p {
  backends = p.backends ++ b ∷ [];
  backend_map = dict_put b.address b p.backend_map;
}

unfoldable pub add_backend : Backend → Pool → Pool
unfolding make_room join_pool dict_get
add_backend b p = join_pool b (make_room b (dict_get b.address p.backend_map) p)

unfoldable pub get_pool_backend : Bytes → Pool → Result Backend
unfolding dict_get
get_pool_backend address p = elim (dict_get address p.backend_map) [
  | some b ↦ ok b
  | none ↦ err no_backend
]

unfoldable pub close_found : Option Backend → List ℕ → List ℕ
close_found none ids = ids
close_found (some b) ids = b.identity ∷ ids

unfoldable pub remove_known : Bytes → Option Backend → Pool → Pool
unfolding without first_of_address close_found dict_delete
remove_known address none p = p
remove_known address (some _) p = record p {
  backends = without address p.backends;
  backend_map = dict_delete address p.backend_map;
  closed = close_found (first_of_address address p.backends) p.closed;
}

unfoldable pub remove_backend : Bytes → Pool → Pool
unfolding remove_known dict_get
remove_backend address p = remove_known address (dict_get address p.backend_map) p

unfoldable pub get_all_backend : Pool → Dict Backend
get_all_backend p = p.backend_map

unfoldable pub get_backend_count : Pool → ℕ
get_backend_count p = length p.backends

-- The index moves on before it is used.
unfoldable pub get_next_backend_index : Pool → Result ℕ × Pool
get_next_backend_index p =
    if leb (length p.backends) 0
    then (err no_backend, p)
    else let i = (p.index + 1) % length p.backends in (ok i, record p { index = i })

unfoldable pub get_backend_at : Pool → ℕ → Option Backend
get_backend_at p i = get_elem? p.backends (i % length p.backends)

-- The `n` tries of Send, from an index on; the result has the backends tried, in order.
unfoldable pub try_backends : (Backend → Bool) → Pool → ℕ → ℕ → Result Backend × List Backend
unfolding get_backend_at
try_backends delivers p zero i = (err send_failed, [])
try_backends delivers p (suc n) i =
    let rest = try_backends delivers p n (i + 1) in
    elim (get_backend_at p i) [
      | none ↦ rest
      | some b ↦ if delivers b then (ok b, b ∷ []) else (rest.0, b ∷ rest.1)
    ]

unfoldable pub send_after : (Backend → Bool) → Result ℕ → Pool → Result Backend × List Backend
unfolding try_backends get_backend_count
send_after delivers (err e) p = (err no_backend, [])
send_after delivers (ok i) p = try_backends delivers p (get_backend_count p) i

-- Send: the backend that took the message, the backends tried, and the pool.
unfoldable pub pool_send : (Backend → Bool) → Pool → Result Backend × List Backend × Pool
unfolding send_after get_next_backend_index
pool_send delivers p =
    let next = get_next_backend_index p in
    let sent = send_after delivers next.0 next.1 in (sent.0, sent.1, next.1)

unfoldable pub addresses_after : List Backend → Bytes
addresses_after [] = []
addresses_after (b ∷ bs) = b',' ∷ (b.address ++ addresses_after bs)

unfoldable pub pool_address : Pool → Bytes
unfolding addresses_after
pool_address p = codes "RoundRobin://" ++ drop 1 (addresses_after p.backends)

unfoldable pub close_pool : Pool → Pool
close_pool p = record p { closed = map (λ b. b.identity) (reverse p.backends) ++ p.closed }

-- getAllBackendAddresses of a pool; of any other backend it is its own address.
unfoldable pub get_all_backend_addresses : Pool → List Bytes
get_all_backend_addresses p = map (λ b. b.address) p.backends

-- BackendFactory: `create` is NewUDPBackend or NewTCPBackend at these addresses, or its error.
unfoldable pub factory_key : Bytes → Bytes → Bytes → Bytes
factory_key protocol local hostport = protocol ++ (b':' ∷ (local ++ (b'-' ∷ hostport)))

unfoldable pub kept_or_created :
    Bytes → Option Backend → Result Backend → Dict Backend → Result Backend × Dict Backend
unfolding dict_put
kept_or_created key (some b) create d = (ok b, d)
kept_or_created key none (ok b) d = (ok b, dict_put key b d)
kept_or_created key none (err e) d = (err e, d)

-- CreateUDPBackend and CreateTCPBackend, at the protocols "udp" and "tcp"
unfoldable pub create_backend :
    Bytes → Bytes → Bytes → Result Backend → Dict Backend → Result Backend × Dict Backend
unfolding kept_or_created factory_key dict_get
create_backend protocol local hostport create d =
    let key = factory_key protocol local hostport in kept_or_created key (dict_get key d) create d

-- RemoveUDPBackend and RemoveTCPBackend
unfoldable pub drop_backend : Bytes → Bytes → Bytes → Dict Backend → Result Backend × Dict Backend
unfolding factory_key dict_get dict_delete
drop_backend protocol local hostport d =
    let key = factory_key protocol local hostport in
    elim (dict_get key d) [ some b ↦ (ok b, dict_delete key d) | none ↦ (err no_backend, d) ]

-- hostIPChanged with a supported protocol: `hostport` is net.JoinHostPort(ip, port) and `create`
-- makes a backend for it.
unfoldable pub add_created : Result Backend × Dict Backend → Pool → Pool × Dict Backend
unfolding add_backend
add_created (ok b, d) p = (add_backend b p, d)
add_created (err _, d) p = (p, d)

unfoldable pub add_ips :
    Bytes
    → Bytes
    → (Bytes → Bytes)
    → (Bytes → Result Backend)
    → List Bytes
    → Pool × Dict Backend
    → Pool × Dict Backend
unfolding create_backend add_created
add_ips protocol local hostport create [] s = s
add_ips protocol local hostport create (ip ∷ ips) (p, d) =
    add_ips protocol local hostport create ips
      (add_created (create_backend protocol local (hostport ip) (create (hostport ip)) d) p)

unfoldable pub remove_ips :
    Bytes → Bytes → (Bytes → Bytes) → List Bytes → Pool × Dict Backend → Pool × Dict Backend
unfolding remove_backend drop_backend
remove_ips protocol local hostport [] s = s
remove_ips protocol local hostport (ip ∷ ips) (p, d) = remove_ips protocol local hostport ips (
  remove_backend (protocol ++ (codes "://" ++ hostport ip)) p,
  (drop_backend protocol local (hostport ip) d).1,
)

unfoldable pub host_ip_changed :
    Bytes
    → Bytes
    → (Bytes → Bytes)
    → (Bytes → Result Backend)
    → List Bytes
    → List Bytes
    → Pool × Dict Backend
    → Pool × Dict Backend
unfolding add_ips remove_ips str_eq
host_ip_changed protocol local hostport create new_ips removed_ips s =
    if str_eq protocol (codes "udp") || str_eq protocol (codes "tcp")
    then remove_ips protocol local hostport removed_ips
        (add_ips protocol local hostport create new_ips s)
    else s
