-- ===== src/Loop/Rounds.antt =====
-- A round of the loop for a packet leaves the program running.
use sipproxy.Dispatch.{
  ViaConfig, ProxyItem, SessionStore, find_transport_by_via_config, find_transport_by_backend_addr,
}
use sipproxy.Dispatch.Choice.{
  single, pool_at, pool_of, choose_target, send_chosen, send_in_session, send_to_backend,
}
use sipproxy.Dispatch.Sticky.{IsTransport, find_backend_item-never}
use sipproxy.Loop.{
  Settings, Outside, ProxyState, handle_raw_message, learn_request, mark_request, attach_request,
  reached_removed, handle_raw_request,
}
use sipproxy.Loop.Safety.{survives, send_on_hop-survives, send_chosen-survives}
use sipproxy.Loop.Sends.{
  Receiver, sent_by_backend, perform, message_after, ends_program, settled, handle_prepared,
  process_message,
}
use sipproxy.Message.{Message, is_request}
use sipproxy.Message.Ids.{get_session_id}
use sipproxy.Pool.{Backend, Pool}
use sipproxy.Prelude.{
  ℕ, ◌≡◌, refl, inl, inr, Bool, true, false, Option, none, some, List, [], Bool-cases, Result, ok,
  err, is_ok, value_or, if-keeps,
}
use sipproxy.Proxy.{Action, send_on, to_backend, drop_message, handle_message, remove_reached_route}
use sipproxy.SelfLearn.{get_learned, SelfLearnRoute}
use sipproxy.Server.{RawMessage}
use sipproxy.Text.{Bytes}

module _ {S : Type 0} (branch : Result Bytes) (must : Bool) (delivers : Backend → Bool)
    (keeper : SessionStore S) (protocol : Bytes) (p : ℕ) (via : Option ViaConfig)
    (items : List ProxyItem) (pool : Pool) (there : pool_of items p ≡ some pool) where
  chosen-survives :
      (session : Bytes) (m : Message) (found : Result Backend × S)
      → survives
          (send_chosen branch must delivers keeper session m items found.1
            (choose_target protocol via items none found.0 (some p))).0
        ≡ true
  unfolding choose_target
  chosen-survives session m (ok b, t) =
      send_chosen-survives branch must delivers keeper session m items t protocol (single b)
        (find_transport_by_backend_addr b.address protocol items) tt
  chosen-survives session m (err e, t) =
      send_chosen-survives branch must delivers keeper session m items t protocol (pool_at p)
        (find_transport_by_via_config via items) (pool, there)

  send_in_session-survives :
      (s : S) (r : Result Bytes × Message)
      → survives
          (send_in_session branch must delivers keeper protocol (some p) via items s none r).0
        ≡ true
  unfolding send_in_session
  send_in_session-survives s r =
      chosen-survives (value_or r.0 []) r.1 (keeper.get_bound (value_or r.0 []) s)

  send_to_backend-survives :
      (m : Message) (s : S)
      → IsTransport protocol
      → survives (send_to_backend branch must delivers keeper protocol (some p) via m items s).0
        ≡ true
  unfolding send_to_backend
  send_to_backend-survives m s t =
      rw (find_backend_item-never protocol t items 0)
        (send_in_session-survives s (get_session_id m))

sent_by_backend-survives :
    {S : Type 0} (s : ProxyState S) (r : Result (Backend × Message) × List ProxyItem × S)
    → survives r.0 ≡ true
    → survives (sent_by_backend s r).0 ≡ true
unfolding sent_by_backend
sent_by_backend-survives s (ok (b, m), items, sessions) h = refl
sent_by_backend-survives s (err e, items, sessions) h = h

settled-survives :
    {S : Type 0} (keeper : SessionStore S) (m : Message)
    (r : Result (Receiver × Message) × ProxyState S)
    → survives r.0 ≡ true
    → is_ok (settled keeper m r) ≡ true
unfolding settled
settled-survives keeper m (ok r, s) h = refl
settled-survives keeper m (err e, s) h = elim (Bool-cases (ends_program e)) [
  | inl k ↦ let no_end : false ≡ true = rw k at h in absurd (cc)
  | inr k ↦ rw (settled, k) refl
]

module _ {S : Type 0} (settings : Settings) (out : Outside S) (arrived : RawMessage) (p : ℕ)
    (pool : Pool) (udp : IsTransport arrived.from.protocol)
    (prefers : arrived.prefer ≡ some p) where
  perform-survives :
      (action : Action) (s : ProxyState S)
      → pool_of s.items p ≡ some pool
      → survives (perform settings out arrived action s).0 ≡ true
  unfolding perform ends_program
  perform-survives (send_on hop id m) s h = send_on_hop-survives out hop id m s
  perform-survives (to_backend m) s h =
      sent_by_backend-survives s
        (send_to_backend out.branch settings.must_record_route out.delivers out.keeper
          arrived.from.protocol arrived.prefer arrived.via m s.items s.sessions)
        (rw prefers (
          send_to_backend-survives out.branch settings.must_record_route out.delivers out.keeper
            arrived.from.protocol p arrived.via s.items pool h m s.sessions udp))
  perform-survives drop_message s h = refl

  handle_prepared-survives :
      (m : Message) (s : ProxyState S)
      → pool_of s.items p ≡ some pool
      → is_ok (handle_prepared settings out arrived (m, s)) ≡ true
  unfolding handle_prepared
  handle_prepared-survives m s h =
      let action : Action =
        handle_message out.branch settings.must_record_route settings.keep_next_hop_route
          settings.my_name settings.find (λ host. get_learned host arrived.from.protocol s.routes)
          m in
      settled-survives out.keeper (message_after m action) (perform settings out arrived action s)
        (perform-survives action s h)

  -- A packet is prepared, and the items stay as they are.
  abbrev IsPrepared : ProxyState S → Result (Message × ProxyState S) → Type 0
  IsPrepared s r = (m : Message) × (t : ProxyState S) × ((r ≡ ok (m, t)) × (t.items ≡ s.items))

  request-IsPrepared :
      (learnt : Message × SelfLearnRoute) (s : ProxyState S)
      → arrived.conn ≡ none
      → IsPrepared s (handle_raw_request out arrived learnt s)
  unfolding handle_raw_request attach_request reached_removed
  request-IsPrepared learnt s packet =
      let m : Message = mark_request arrived learnt.0 in
      let t : ProxyState S = record s { routes = learnt.1 } in
      let attached : attach_request out arrived m t ≡ ok (m, t) =
        rw (attach_request, packet) refl in
      (
        (remove_reached_route out.ips_of arrived.from m).1,
        t,
        (rw (handle_raw_request, attached) refl, refl),
      )

  raw-IsPrepared :
      (s : ProxyState S) → arrived.conn ≡ none → IsPrepared s (handle_raw_message out arrived s)
  unfolding handle_raw_message reached_removed
  raw-IsPrepared s packet =
      let m : Message = record arrived.message { received_from = some arrived.from } in
      if-keeps (IsPrepared s) (is_request m)
        (handle_raw_request out arrived (learn_request out.clock arrived m s.routes) s)
        (ok (reached_removed out arrived (m, s)))
        (request-IsPrepared (learn_request out.clock arrived m s.routes) s packet)
        ((remove_reached_route out.ips_of arrived.from m).1, s, (refl, refl))

  -- A message that came in as a packet never ends the program through a nil pool or an index out of
  -- its bounds, whatever it says and whatever the network answers; if the pool of its listener is
  -- there and the protocol of the listener is udp or tcp.
  pub process_message_survives :
      (s : ProxyState S)
      → arrived.conn ≡ none
      → pool_of s.items p ≡ some pool
      → is_ok (process_message settings out arrived s) ≡ true
  unfolding process_message
  process_message_survives s packet h =
      let (m, t, (prepared, same)) = raw-IsPrepared s packet in
      rw prepared (handle_prepared-survives m t (rw same h))
