-- ===== src/Dispatch/Sticky.antt =====
-- What sendToBackend does with the messages of one session, and where no backend is configured.
use sipproxy.Dispatch.{
  ViaConfig, ProxyItem, SessionStore, pool_has_prefix, find_backend_item,
  find_transport_by_via_config, find_transport_by_backend_addr,
}
use sipproxy.Dispatch.Choice.{
  Target, single, target_addresses, transport_for_target, transport_of_item, with_transport,
  send_to_target, bind_session, after_send, send_chosen, first_for_addresses, choose_target,
  is_none, send_in_session, pool_of, pool_at, send_to_backend,
}
use sipproxy.Dispatch.Stores.{Keeps}
use sipproxy.Message.{ServerTransport, Message, get_expires}
use sipproxy.Message.Ids.{get_session_id}
use sipproxy.Pool.{Backend, Pool, pool_address}
use sipproxy.Prelude.{
  ℕ, ◌+◌, ◌≡◌, refl, ◌⊎◌, inl, inr, Bool, false, Option, none, some, List, [], ◌∷◌, Result, ok, err,
  ◌&&◌, Bool-cases, no_backend, true, Error, nil_dereference, value_or, pos,
}
use sipproxy.Proxy.{stamp}
use sipproxy.Text.{Bytes, codes, starts_with}

-- What GetProtocol of a server transport returns
abbrev pub IsTransport : Bytes → Type 0
IsTransport protocol = (protocol ≡ codes "udp") ⊎ (protocol ≡ codes "tcp")

pool_has_prefix-never :
    (protocol : Bytes)
    → IsTransport protocol
    → (p : Option Pool) → pool_has_prefix protocol p ≡ false
unfolding pool_has_prefix pool_address starts_with
pool_has_prefix-never protocol t none = refl
pool_has_prefix-never protocol (inl e) (some p) = rw e refl
pool_has_prefix-never protocol (inr e) (some p) = rw e refl

-- No item is ever found by its protocol: the address of a pool begins with RoundRobin.
pub find_backend_item-never :
    (protocol : Bytes)
    → IsTransport protocol
    → (items : List ProxyItem) (i : ℕ) → find_backend_item protocol items i ≡ none
unfolding find_backend_item
find_backend_item-never protocol t [] i = refl
find_backend_item-never protocol t (x ∷ xs) i =
    rw (pool_has_prefix-never protocol t x.pool) (find_backend_item-never protocol t xs (i + 1))

pub transport_of_item-none :
    (protocol : Bytes) (items : List ProxyItem) (o : Option ServerTransport)
    → transport_of_item protocol items none o ≡ ok o
unfolding transport_of_item
transport_of_item-none protocol items none = refl
transport_of_item-none protocol items (some t) = refl

with_transport-single :
    (protocol : Bytes) (items : List ProxyItem) (b : Backend) (o : Option ServerTransport)
    → (t : Option ServerTransport) × (with_transport protocol items none (single b) o
        ≡ ok (single b, t))
unfolding with_transport transport_for_target target_addresses
with_transport-single protocol items b none =
    let t : Option ServerTransport = first_for_addresses (b.address ∷ []) protocol items in
    (t, rw (transport_of_item-none protocol items t) refl)
with_transport-single protocol items b (some t) = (some t, refl)

after_send-bound :
    {S : Type 0} (keeper : SessionStore S) (session : Bytes) (m : Message) (s : S)
    (r : Result Backend × List ProxyItem) (b : Backend) (sent : Message)
    → (after_send keeper session m s r).0 ≡ ok (b, sent)
    → (after_send keeper session m s r).2 ≡ bind_session keeper session b sent s
unfolding after_send
after_send-bound keeper session m s (ok b', items) b sent h =
    let e : b' ≡ b = cc in let k : m ≡ sent = cc in rw (e, k) refl
after_send-bound keeper session m s (err e, items) b sent h = cc

send_chosen-bound :
    {S : Type 0} (branch : Result Bytes) (must : Bool) (delivers : Backend → Bool)
    (keeper : SessionStore S) (session : Bytes) (m : Message) (items : List ProxyItem) (s : S)
    (c : Result (Target × Option ServerTransport)) (b : Backend) (sent : Message)
    → (send_chosen branch must delivers keeper session m items s c).0 ≡ ok (b, sent)
    → (send_chosen branch must delivers keeper session m items s c).2
      ≡ bind_session keeper session b sent s
unfolding send_chosen
send_chosen-bound branch must delivers keeper session m items s (err e) b sent h = cc
send_chosen-bound branch must delivers keeper session m items s (ok (target, t)) b sent h =
    after_send-bound keeper session (stamp branch must t m) s (send_to_target delivers target items)
      b sent h

module _ {S : Type 0} (branch : Result Bytes) (must : Bool) (delivers : Backend → Bool)
    (keeper : SessionStore S) (protocol : Bytes) (prefer : Option ℕ) (via : Option ViaConfig)
    (items : List ProxyItem) (s : S) where
  -- A message that was sent binds its session to the backend.
  send_in_session-bound :
      (item : Option ℕ) (r : Result Bytes × Message) (session : Bytes) (b : Backend)
      (sent : Message)
      → r.0 ≡ ok session
      → (send_in_session branch must delivers keeper protocol prefer via items s item r).0
        ≡ ok (b, sent)
      → (send_in_session branch must delivers keeper protocol prefer via items s item r).2
        ≡ bind_session keeper session b sent (keeper.get_bound session s).1
  unfolding send_in_session
  send_in_session-bound item r session b sent i h =
      elim (Bool-cases (is_none item && is_none prefer)) [
        | inl e ↦
            let no_outcome : ◌≡◌ {A = Result (Backend × Message)} (err no_backend) (ok (b, sent)) =
              rw e at h in
            cc
        | inr e ↦
            let found : Result Backend × S = keeper.get_bound session s in
            let h' = rw (i, e) at h in
            rw (i, e)
              (send_chosen-bound branch must delivers keeper session r.1 items found.1
                (choose_target protocol via items item found.0 prefer) b sent h')
      ]

  -- A message of a bound session goes to its backend, if that delivers and a pool is preferred.
  send_in_session-known :
      (p : ℕ) (r : Result Bytes × Message) (session : Bytes) (b : Backend)
      → r.0 ≡ ok session
      → (keeper.get_bound session s).0 ≡ ok b
      → delivers b ≡ true
      → (sent : Message) × ((send_in_session branch must delivers keeper protocol
            (some p)
            via
            items
            s
            none
            r).0
          ≡ ok (b, sent))
  unfolding send_in_session choose_target send_chosen send_to_target after_send
  send_in_session-known p r session b i k d =
      let o : Option ServerTransport = find_transport_by_backend_addr b.address protocol items in
      let t : (t : Option ServerTransport) × (with_transport protocol items none (single b) o
            ≡ ok (single b, t)) =
        with_transport-single protocol items b o in
      (stamp branch must t.0 r.1, rw (i, k, t.1, d) refl)

  send_to_target-nil :
      (p : ℕ)
      → pool_of items p ≡ none
      → send_to_target delivers (pool_at p) items ≡ (err nil_dereference, items)
  unfolding send_to_target
  send_to_target-nil p n = rw (send_to_target, n) refl

  nil_target :
      (p : ℕ) (session : Bytes) (m : Message) (t : S) (o : Option ServerTransport)
      → pool_of items p ≡ none
      → (send_chosen branch must delivers keeper session m items t
          (with_transport protocol items none (pool_at p) o)).0
        ≡ err nil_dereference
  unfolding with_transport transport_for_target target_addresses transport_of_item send_chosen
      after_send
  nil_target p session m t none n = rw (send_chosen, n) refl
  nil_target p session m t (some u) n = rw (send_to_target-nil p n) refl

-- Where the listener that took a message has no backends, sending the message to a backend
-- dereferences a nil pool; if the session of the message is not bound and the protocol is udp or tcp.
pub nil_pool_dereferenced :
    {S : Type 0} (branch : Result Bytes) (must : Bool) (delivers : Backend → Bool)
    (keeper : SessionStore S) (protocol : Bytes) (p : ℕ) (via : Option ViaConfig) (m : Message)
    (items : List ProxyItem) (s : S) (e : Error)
    → IsTransport protocol
    → pool_of items p ≡ none
    → (keeper.get_bound (value_or (get_session_id m).0 []) s).0 ≡ err e
    → (send_to_backend branch must delivers keeper protocol (some p) via m items s).0
      ≡ err nil_dereference
unfolding send_to_backend send_in_session choose_target
nil_pool_dereferenced branch must delivers keeper protocol p via m items s e t n k =
    rw (find_backend_item-never protocol t items 0, k)
      (nil_target branch must delivers keeper protocol none via items s p
        (value_or (get_session_id m).0 []) (get_session_id m).1
        (keeper.get_bound (value_or (get_session_id m).0 []) s).1
        (find_transport_by_via_config via items) n)

-- All messages of a session go to one backend: once a message was sent to a backend, the next message
-- with the same session identifier is sent to the same backend, whichever pool it prefers and whatever
-- has become of the items; if the identifier is not empty, the store keeps the binding until then, the
-- backend takes the message and the protocol is udp or tcp.
pub send_to_backend-sticky :
    {S : Type 0} (branch branch2 : Result Bytes) (must : Bool) (delivers delivers2 : Backend → Bool)
    (keeper later : SessionStore S) (protocol protocol2 : Bytes) (prefer : Option ℕ) (p : ℕ)
    (via via2 : Option ViaConfig) (m m2 : Message) (items items2 : List ProxyItem) (s : S) (c : ℕ)
    (id : Bytes) (b : Backend) (sent : Message)
    → IsTransport protocol2
    → (get_session_id m).0 ≡ ok (c ∷ id)
    → (get_session_id m2).0 ≡ ok (c ∷ id)
    → Keeps keeper later (get_expires (pos 0) sent) (keeper.get_bound (c ∷ id) s).1
    → delivers2 b ≡ true
    → (send_to_backend branch must delivers keeper protocol prefer via m items s).0 ≡ ok (b, sent)
    → (sent2 : Message) × ((send_to_backend branch2 must delivers2 later protocol2
          (some p)
          via2
          m2
          items2
          (send_to_backend branch must delivers keeper protocol prefer via m items s).2).0
        ≡ ok (b, sent2))
unfolding send_to_backend bind_session
send_to_backend-sticky {S = S} branch branch2 must delivers delivers2 keeper later protocol
      protocol2 prefer p via via2 m m2 items items2 s c id b sent t i i2 k d h =
    let s' : S = (send_to_backend branch must delivers keeper protocol prefer via m items s).2 in
    let bound : s' ≡ bind_session keeper (c ∷ id) b sent (keeper.get_bound (c ∷ id) s).1 =
      send_in_session-bound branch must delivers keeper protocol prefer via items s
        (find_backend_item protocol items 0) (get_session_id m) (c ∷ id) b sent i h in
    let known : (later.get_bound (c ∷ id) s').0 ≡ ok b = rw bound (k (c ∷ id) b) in
    rw (find_backend_item-never protocol2 t items2 0) (
      send_in_session-known branch2 must delivers2 later protocol2 none via2 items2 s' p
        (get_session_id m2) (c ∷ id) b i2 known d)
