-- ===== src/Dispatch/Choice.antt =====
-- Proxy.sendToBackend: which backend takes the message, and through which transport the proxy enters
-- itself in it.
use sipproxy.Dispatch.{
  ViaConfig, ProxyItem, SessionStore, or_else, find_transport, find_transport_by_via_config,
  find_transport_by_backend_addr, find_backend_item,
}
use sipproxy.Message.{ServerTransport, Message, get_expires}
use sipproxy.Message.Ids.{get_session_id}
use sipproxy.Pool.{Backend, Pool, pool_send, get_all_backend_addresses}
use sipproxy.Prelude.{
  ◌>>=◌, ℕ, zero, suc, Bool, ◌&&◌, Option, none, some, List, [], ◌∷◌, if◌then◌else◌, get_elem?,
  out_of_bound, no_backend, send_failed, nil_dereference, Result, ok, err, value_or, pos, true,
  false,
}
use sipproxy.Proxy.{stamp}
use sipproxy.Text.{Bytes, str_eq}

-- A backend, or the pool of the item at a place.
pub data Target : Type 0 where
  single : Backend → Target
  pool_at : ℕ → Target

unfoldable pub pool_of : List ProxyItem → ℕ → Option Pool
pool_of items i = elim (get_elem? items i) [ none ↦ none | some x ↦ x.pool ]

-- getAllBackendAddresses; a nil pool is dereferenced.
unfoldable pub target_addresses : List ProxyItem → Target → Result (List Bytes)
unfolding pool_of get_all_backend_addresses
target_addresses items (single b) = ok (b.address ∷ [])
target_addresses items (pool_at i) = elim (pool_of items i) [
  | none ↦ err nil_dereference
  | some p ↦ ok (get_all_backend_addresses p)
]

unfoldable pub first_for_addresses : List Bytes → Bytes → List ProxyItem → Option ServerTransport
unfolding find_transport_by_backend_addr
first_for_addresses [] protocol items = none
first_for_addresses (a ∷ addrs) protocol items =
    or_else (find_transport_by_backend_addr a protocol items)
      (first_for_addresses addrs protocol items)

unfoldable pub transport_for_target :
    Bytes → List ProxyItem → Target → Option ServerTransport → Result (Option ServerTransport)
unfolding target_addresses first_for_addresses
transport_for_target protocol items target (some t) = ok (some t)
transport_for_target protocol items target none = do
  addrs ← target_addresses items target
  ok (first_for_addresses addrs protocol items)

unfoldable pub item_transports : List ProxyItem → ℕ → List ServerTransport
item_transports items i = elim (get_elem? items i) [ none ↦ [] | some x ↦ x.transports ]

-- `transports[0]`
unfoldable pub first_transport : List ServerTransport → Result ServerTransport
first_transport [] = err out_of_bound
first_transport (t ∷ ts) = ok t

unfoldable pub transport_of_item :
    Bytes → List ProxyItem → Option ℕ → Option ServerTransport → Result (Option ServerTransport)
unfolding item_transports find_transport first_transport str_eq
transport_of_item protocol items item (some t) = ok (some t)
transport_of_item protocol items none none = ok none
transport_of_item protocol items (some i) none =
    let ts = item_transports items i in
    elim (find_transport (λ t. str_eq t.protocol protocol) ts) [
      | some t ↦ ok (some t)
      | none ↦ do t ← first_transport ts; ok (some t)
    ]

unfoldable pub with_transport :
    Bytes
    → List ProxyItem
    → Option ℕ
    → Target
    → Option ServerTransport
    → Result (Target × Option ServerTransport)
unfolding transport_for_target transport_of_item
with_transport protocol items item target t = do
  t1 ← transport_for_target protocol items target t
  t2 ← transport_of_item protocol items item t1
  ok (target, t2)

-- The backend of the session, else the pool that the message prefers, else that of the item found.
unfoldable pub choose_target :
    Bytes
    → Option ViaConfig
    → List ProxyItem
    → Option ℕ
    → Result Backend
    → Option ℕ
    → Result (Target × Option ServerTransport)
unfolding with_transport find_transport_by_backend_addr find_transport_by_via_config first_transport
    item_transports
choose_target protocol via items item (ok b) prefer =
    with_transport protocol items item (single b)
      (find_transport_by_backend_addr b.address protocol items)
choose_target protocol via items item (err _) (some p) =
    with_transport protocol items item (pool_at p) (find_transport_by_via_config via items)
choose_target protocol via items (some i) (err _) none = do
  t ← first_transport (item_transports items i)
  ok (pool_at i, some t)
choose_target protocol via items none (err _) none = err no_backend

unfoldable pub with_pool : ℕ → Pool → List ProxyItem → List ProxyItem
with_pool i p [] = []
with_pool zero p (x ∷ xs) = record x { pool = some p } ∷ xs
with_pool (suc i) p (x ∷ xs) = x ∷ with_pool i p xs

-- Send of the target
unfoldable pub send_to_target :
    (Backend → Bool) → Target → List ProxyItem → Result Backend × List ProxyItem
unfolding pool_of pool_send with_pool
send_to_target delivers (single b) items = (if delivers b then ok b else err send_failed, items)
send_to_target delivers (pool_at i) items = elim (pool_of items i) [
  | none ↦ (err nil_dereference, items)
  | some p ↦ let r = pool_send delivers p in (r.0, with_pool i r.2 items)
]

-- A session with an empty identifier is not bound.
unfoldable pub bind_session : {S : Type 0} → SessionStore S → Bytes → Backend → Message → S → S
unfolding get_expires
bind_session keeper [] b m s = s
bind_session keeper (c ∷ id) b m s = keeper.bind_backend (c ∷ id) b (get_expires (pos 0) m) s

unfoldable pub after_send :
    {S : Type 0}
    → SessionStore S
    → Bytes
    → Message
    → S
    → Result Backend × List ProxyItem
    → Result (Backend × Message) × List ProxyItem × S
unfolding bind_session
after_send keeper session m s (ok b, items) = (ok (b, m), items, bind_session keeper session b m s)
after_send keeper session m s (err e, items) = (err e, items, s)

unfoldable pub send_chosen :
    {S : Type 0}
    → Result Bytes
    → Bool
    → (Backend → Bool)
    → SessionStore S
    → Bytes
    → Message
    → List ProxyItem
    → S
    → Result (Target × Option ServerTransport)
    → Result (Backend × Message) × List ProxyItem × S
unfolding after_send send_to_target stamp
send_chosen branch must delivers keeper session m items s (err e) = (err e, items, s)
send_chosen branch must delivers keeper session m items s (ok (target, t)) =
    after_send keeper session (stamp branch must t m) s (send_to_target delivers target items)

abbrev pub is_none {ℓ} : {A : Type ℓ} → Option A → Bool
is_none none = true
is_none (some a) = false

-- sendToBackend from the session of the message on, and with the item that is found
unfoldable pub send_in_session :
    {S : Type 0}
    → Result Bytes
    → Bool
    → (Backend → Bool)
    → SessionStore S
    → Bytes
    → Option ℕ
    → Option ViaConfig
    → List ProxyItem
    → S
    → Option ℕ
    → Result Bytes × Message
    → Result (Backend × Message) × List ProxyItem × S
unfolding choose_target send_chosen
send_in_session branch must delivers keeper protocol prefer via items s item session =
    let found = keeper.get_bound (value_or session.0 []) s in
    if is_none item && is_none prefer
    then (err no_backend, items, s)
    else send_chosen branch must delivers keeper (value_or session.0 []) session.1 items found.1
        (choose_target protocol via items item found.0 prefer)

-- Proxy.sendToBackend; `prefer` is the item whose pool stands in the message that came in.
unfoldable pub send_to_backend :
    {S : Type 0}
    → Result Bytes
    → Bool
    → (Backend → Bool)
    → SessionStore S
    → Bytes
    → Option ℕ
    → Option ViaConfig
    → Message
    → List ProxyItem
    → S
    → Result (Backend × Message) × List ProxyItem × S
unfolding find_backend_item get_session_id send_in_session
send_to_backend branch must delivers keeper protocol prefer via m items s =
    send_in_session branch must delivers keeper protocol prefer via items s
      (find_backend_item protocol items 0) (get_session_id m)
