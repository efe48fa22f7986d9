-- ===== src/Config/Backends.antt =====
-- The pool that the configuration of a listener makes.
use sipproxy.Config.{
  BackendConfig, Url, is_network, Watched, watch_host, Making, with_created, add_configured,
  add_backends, create_round_robin_backend,
}
use sipproxy.Dict.{Dict, dict_get}
use sipproxy.Pool.{Backend, new_pool, first_of_address, add_backend, create_backend}
use sipproxy.Pool.Members.{IsPool, add_backend-IsPool, host_ip_changed-IsPool}
use sipproxy.PreConfigRoute.{cut_last}
use sipproxy.Prelude.{
  ◌>>=◌, ◌≡◌, refl, subst, Bool, Option, none, some, List, [], ◌∷◌, if◌then◌else◌, if-keeps, Error,
  unsupported_protocol, Result, ok, err,
}
use sipproxy.Resolver.{is_ip_address}
use sipproxy.Text.{Bytes}

-- What is made, if it is made, has a pool whose list and map are in step.
abbrev MakesPool : Result Making → Type 0
MakesPool r = (t : Making) → r ≡ ok t → IsPool t.pool

made-MakesPool : (s : Making) → IsPool s.pool → MakesPool (ok s)
made-MakesPool s h t e = let same : s ≡ t = cc in subst (λ (x : Making). IsPool x.pool) same h

failed-MakesPool : (e : Error) → MakesPool (err e)
failed-MakesPool e t h = cc

bind-MakesPool :
    (r : Result Making) (f : Making → Result Making)
    → MakesPool r
    → ((s : Making) → IsPool s.pool → MakesPool (f s))
    → MakesPool (do s ← r; f s)
bind-MakesPool (ok s) f h k = k s (h s refl)
bind-MakesPool (err e) f h k = failed-MakesPool e

with_created-MakesPool :
    (s : Making) (r : Result Backend × Dict Backend) → IsPool s.pool → MakesPool (with_created s r)
unfolding with_created
with_created-MakesPool s (ok b, d) h =
    made-MakesPool (record s { pool = add_backend b s.pool; factory = d })
      (add_backend-IsPool b s.pool h)
with_created-MakesPool s (err e, d) h = failed-MakesPool e

module _ (parse : Bytes → Result Url) (local_of : Bytes → Bytes) (is_ip : Bytes → Bool)
    (join : Bytes → Bytes → Bytes) (held : List Watched → Bytes → List Bytes)
    (create : Bytes → Bytes → Bytes → Result Backend) where
  watch_host-IsPool :
      (w : Watched) (ips : List Bytes) (s : Making)
      → IsPool s.pool
      → IsPool (watch_host join create w ips s).pool
  unfolding watch_host
  watch_host-IsPool w ips s h =
      host_ip_changed-IsPool w.scheme w.local (λ ip. join ip w.port) (create w.scheme w.local) ips
        [] (s.pool, s.factory) h

  add_configured-MakesPool :
      (local : Bytes) (u : Url) (o : Option (Bytes × Bytes)) (s : Making)
      → IsPool s.pool
      → MakesPool (add_configured is_ip join held create local u o s)
  unfolding add_configured
  add_configured-MakesPool local u none s h = made-MakesPool s h
  add_configured-MakesPool local u (some (host, port)) s h =
      let watch : Watched = record { scheme = u.scheme; local = local; host = host; port = port } in
      let created : Result Backend × Dict Backend =
        create_backend u.scheme local u.url_host (create u.scheme local u.url_host) s.factory in
      if-keeps MakesPool (is_ip_address is_ip host) (with_created s created)
        (ok (watch_host join create watch (held s.watched host) s))
        (with_created-MakesPool s created h)
        (made-MakesPool (watch_host join create watch (held s.watched host) s)
          (watch_host-IsPool watch (held s.watched host) s h))

  add_backends-MakesPool :
      (bs : List BackendConfig) (s : Making)
      → IsPool s.pool
      → MakesPool (add_backends parse local_of is_ip join held create bs s)
  unfolding add_backends
  add_backends-MakesPool [] s h = made-MakesPool s h
  add_backends-MakesPool (b ∷ bs) s h =
      parsed_url (λ t k. add_backends-MakesPool bs t k) (parse b.backend_address)
    where
      next : Url → Result Making
      next u =
          if is_network u.scheme
          then add_configured is_ip join held create (local_of b.local_address) u
              (cut_last b':' u.url_host) s
          else err unsupported_protocol

      parsed_url :
          ((t : Making)
            → IsPool t.pool
            → MakesPool (add_backends parse local_of is_ip join held create bs t))
          → (r : Result Url)
          → MakesPool
              (do u ← r; t ← next u; add_backends parse local_of is_ip join held create bs t)
      parsed_url rest (err e) = failed-MakesPool e
      parsed_url rest (ok u) =
          bind-MakesPool (next u) (add_backends parse local_of is_ip join held create bs)
            (if-keeps MakesPool (is_network u.scheme)
              (add_configured is_ip join held create (local_of b.local_address) u
                (cut_last b':' u.url_host) s)
              (err unsupported_protocol)
              (add_configured-MakesPool (local_of b.local_address) u (cut_last b':' u.url_host) s h)
              (failed-MakesPool unsupported_protocol))
            rest

  -- The pool that is made of configured backends has its list and its map in step and every address
  -- once, also where two backends are configured at one address, and where the resolver holds a
  -- configured name already, so that its addresses join at once.
  pub create_round_robin_backend-IsPool :
      (bs : List BackendConfig) (d : Dict Backend) (t : Making)
      → create_round_robin_backend parse local_of is_ip join held create bs d ≡ ok t
      → IsPool t.pool
  unfolding create_round_robin_backend new_pool first_of_address dict_get
  create_round_robin_backend-IsPool [] d t e = cc
  create_round_robin_backend-IsPool (b ∷ bs) d t e =
      add_backends-MakesPool (b ∷ bs) (record { pool = new_pool; factory = d; watched = [] })
        (tt, λ a. refl) t e
