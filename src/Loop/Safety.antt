-- ===== src/Loop/Safety.antt =====
-- A message that comes in does not end the program.
use sipproxy.Clients.{Clients, first_sent, primary_list, fail_over_send}
use sipproxy.Clients.Manager.{
  clean_expired_transport, is_supported, full_addr, Surroundings, found_or_created,
  get_client_transport,
}
use sipproxy.Dict.{dict_get}
use sipproxy.Dispatch.{ProxyItem, SessionStore}
use sipproxy.Dispatch.Choice.{
  Target, single, pool_at, pool_of, target_addresses, first_for_addresses, transport_for_target,
  with_transport, send_to_target, after_send, send_chosen,
}
use sipproxy.Dispatch.Sticky.{transport_of_item-none}
use sipproxy.Loop.{Outside, ProxyState, surroundings_of}
use sipproxy.Loop.Sends.{
  Destination, direct, managed, managed_transport, send_to_destination, ends_program, learned_udp,
  find_client_transport, after_find, sent_by_client, send_found, send_on_hop,
}
use sipproxy.Message.{ServerTransport, Message}
use sipproxy.Pool.{
  Backend, Pool, get_backend_count, get_backend_at, try_backends, send_after,
  get_next_backend_index, pool_send, get_all_backend_addresses,
}
use sipproxy.PreConfigRoute.{Hop}
use sipproxy.Prelude.{
  ℕ, zero, suc, ◌+◌, ◌≡◌, refl, inl, inr, Bool, true, false, not, List, [], ◌∷◌, ◌++◌,
  if◌then◌else◌, Bool-cases, Option-cases, get_elem?, unsupported_protocol, Result, ok, err, ℤ,
  Option, none, some,
}
use sipproxy.Proxy.{stamp}
use sipproxy.SelfLearn.{SelfLearnRoute, get_learned}
use sipproxy.Text.{Bytes, to_lower}

abbrev pub survives {ℓ} : {A : Type ℓ} → Result A → Bool
survives (ok a) = true
survives (err e) = not (ends_program e)

if-survives {ℓ κ} :
    {A : Type ℓ} {B : Type κ} (b : Bool) (x y : Result A × B)
    → survives x.0 ≡ true
    → survives y.0 ≡ true
    → survives (if b then x else y).0 ≡ true
if-survives true x y h k = h
if-survives false x y h k = k

get_client_transport-survives :
    (env : Surroundings) (now : ℕ) (client_now : ℕ → ℕ) (protocol host : Bytes) (port : ℤ)
    (id : Bytes) (s : Clients)
    → survives (get_client_transport env now client_now protocol host port id s).0 ≡ true
unfolding get_client_transport ends_program
get_client_transport-survives env now client_now protocol host port id s =
    let s' : Clients = clean_expired_transport now client_now s in
    let addr : Bytes = full_addr env.join (to_lower protocol) host port id in
    let found : ℕ × Clients =
      found_or_created env addr (to_lower protocol) host port (dict_get addr s'.transports) s' in
    if-survives {A = ℕ} {B = Clients} (is_supported (to_lower protocol)) (ok found.0, found.1)
      (err unsupported_protocol, s') refl refl

managed_transport-survives :
    (r : Result ℕ × Clients) → survives r.0 ≡ true → survives (managed_transport r).0 ≡ true
unfolding managed_transport
managed_transport-survives (ok i, c) h = refl
managed_transport-survives (err e, c) h = h

first_sent-survives : (takes : ℕ → Bool) (cs : List ℕ) → survives (first_sent takes cs) ≡ true
unfolding first_sent ends_program
first_sent-survives takes [] = refl
first_sent-survives takes (c ∷ cs) = elim (Bool-cases (takes c)) [
  | inl e ↦ rw (first_sent, e) refl
  | inr e ↦ rw (first_sent, e) (first_sent-survives takes cs)
]

send_to_destination-survives :
    (takes : ℕ → Bool) (c : Clients) (d : Destination)
    → survives (send_to_destination takes c d) ≡ true
unfolding send_to_destination ends_program fail_over_send
send_to_destination-survives takes c (direct i) = elim (Bool-cases (takes i)) [
  | inl e ↦ rw (send_to_destination, e) refl
  | inr e ↦ rw (send_to_destination, e) refl
]
send_to_destination-survives takes c (managed i) = elim (Option-cases (get_elem? c.fail_overs i)) [
  | inl e ↦ rw (send_to_destination, e) refl
  | inr (f, e) ↦
      rw (send_to_destination, e)
        (first_sent-survives takes (primary_list f.primary ++ f.secondaries))
]

try_backends-survives :
    (delivers : Backend → Bool) (p : Pool) (n i : ℕ)
    → survives (try_backends delivers p n i).0 ≡ true
unfolding try_backends ends_program
try_backends-survives delivers p zero i = refl
try_backends-survives delivers p (suc n) i = elim (Option-cases (get_backend_at p i)) [
  | inl e ↦ rw (try_backends, e) (try_backends-survives delivers p n (i + 1))
  | inr (b, e) ↦ elim (Bool-cases (delivers b)) [
    | inl d ↦ rw (try_backends, e) (rw d refl)
    | inr d ↦ rw (try_backends, e) (rw d (try_backends-survives delivers p n (i + 1)))
  ]
]

send_after-survives :
    (delivers : Backend → Bool) (r : Result ℕ) (p : Pool)
    → survives (send_after delivers r p).0 ≡ true
unfolding send_after ends_program
send_after-survives delivers (ok i) p = try_backends-survives delivers p (get_backend_count p) i
send_after-survives delivers (err e) p = refl

module _ {S : Type 0} (out : Outside S) where
  find_client_transport-survives :
      (routes : SelfLearnRoute) (hop : Hop) (id : Bytes) (c : Clients)
      → survives (find_client_transport out routes hop id c).0 ≡ true
  unfolding find_client_transport
  find_client_transport-survives routes hop id c =
      elim (Option-cases (learned_udp (get_learned hop.host hop.transport routes))) [
        | inl e ↦
            rw (find_client_transport, e)
              (managed_transport-survives
                (get_client_transport (surroundings_of out routes) out.now out.client_now
                  hop.transport hop.host hop.port id c)
                (get_client_transport-survives (surroundings_of out routes) out.now out.client_now
                  hop.transport hop.host hop.port id c))
        | inr (t, e) ↦ rw (find_client_transport, e) refl
      ]

  sent_by_client-survives :
      (m : Message) (r : Result ℕ) → survives r ≡ true → survives (sent_by_client m r) ≡ true
  unfolding sent_by_client
  sent_by_client-survives m (ok i) h = refl
  sent_by_client-survives m (err e) h = h

  send_found-survives :
      (hop : Hop) (id : Bytes) (m : Message) (s : ProxyState S) (r : Result Destination × Clients)
      → survives r.0 ≡ true
      → survives (send_found out hop id m s r).0 ≡ true
  unfolding send_found
  send_found-survives hop id m s (ok d, c) h =
      let c' : Clients = after_find out s.routes hop id m c in
      sent_by_client-survives m (send_to_destination out.takes c' d)
        (send_to_destination-survives out.takes c' d)
  send_found-survives hop id m s (err e, c) h = h

  pub send_on_hop-survives :
      (hop : Hop) (id : Bytes) (m : Message) (s : ProxyState S)
      → survives (send_on_hop out hop id m s).0 ≡ true
  unfolding send_on_hop
  send_on_hop-survives hop id m s =
      send_found-survives hop id m s (find_client_transport out s.routes hop id s.clients)
        (find_client_transport-survives s.routes hop id s.clients)

after_send-survives :
    {S : Type 0} (keeper : SessionStore S) (session : Bytes) (m : Message) (s : S)
    (r : Result Backend × List ProxyItem)
    → survives r.0 ≡ true
    → survives (after_send keeper session m s r).0 ≡ true
unfolding after_send
after_send-survives keeper session m s (ok b, items) h = refl
after_send-survives keeper session m s (err e, items) h = h

-- The targets that can be sent to: a backend, and a pool that is there.
abbrev pub IsThere : List ProxyItem → Target → Type 0
IsThere items (single b) = Unit
IsThere items (pool_at i) = (p : Pool) × (pool_of items i ≡ some p)

send_to_target-survives :
    (delivers : Backend → Bool) (target : Target) (items : List ProxyItem)
    → IsThere items target
    → survives (send_to_target delivers target items).0 ≡ true
unfolding send_to_target pool_send ends_program
send_to_target-survives delivers (single b) items h = elim (Bool-cases (delivers b)) [
  | inl e ↦ rw (send_to_target, e) refl
  | inr e ↦ rw (send_to_target, e) refl
]
send_to_target-survives delivers (pool_at i) items (p, h) =
    let next : Result ℕ × Pool = get_next_backend_index p in
    rw (send_to_target, h) (send_after-survives delivers next.0 next.1)

pool_addresses :
    (items : List ProxyItem) (i : ℕ) (p : Pool)
    → pool_of items i ≡ some p
    → target_addresses items (pool_at i) ≡ ok (get_all_backend_addresses p)
unfolding target_addresses
pool_addresses items i p h = rw (target_addresses, h) refl

with_transport-there :
    (protocol : Bytes) (items : List ProxyItem) (target : Target) (o : Option ServerTransport)
    → IsThere items target
    → (t : Option ServerTransport) × (with_transport protocol items none target o ≡ ok (target, t))
unfolding with_transport transport_for_target
with_transport-there protocol items target (some t) h = (some t, refl)
with_transport-there protocol items (single b) none h =
    let t : Option ServerTransport = first_for_addresses (b.address ∷ []) protocol items in
    (t, rw (transport_of_item-none protocol items t) refl)
with_transport-there protocol items (pool_at i) none (p, h) =
    let t : Option ServerTransport =
      first_for_addresses (get_all_backend_addresses p) protocol items in
    (t, rw (pool_addresses items i p h, transport_of_item-none protocol items t) refl)

pub send_chosen-survives :
    {S : Type 0} (branch : Result Bytes) (must : Bool) (delivers : Backend → Bool)
    (keeper : SessionStore S) (session : Bytes) (m : Message) (items : List ProxyItem) (s : S)
    (protocol : Bytes) (target : Target) (o : Option ServerTransport)
    → IsThere items target
    → survives
        (send_chosen branch must delivers keeper session m items s
          (with_transport protocol items none target o)).0
      ≡ true
unfolding send_chosen
send_chosen-survives branch must delivers keeper session m items s protocol target o h =
    let t : (t : Option ServerTransport) × (with_transport protocol items none target o
          ≡ ok (target, t)) =
      with_transport-there protocol items target o h in
    rw t.1 (
      after_send-survives keeper session (stamp branch must t.0 m) s
        (send_to_target delivers target items) (send_to_target-survives delivers target items h))
