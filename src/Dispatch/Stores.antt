-- ===== src/Dispatch/Stores.antt =====
-- What a store of sessions promises to its client: a session that is bound is found.
use sipproxy.Dict.{IsDict}
use sipproxy.Dispatch.{
  SessionStore, Clock, local_store, RedisStore, redis_store, first_bound, bind_all, composite,
  on_left, on_right,
}
use sipproxy.Pool.{Backend}
use sipproxy.Prelude.{
  Bool, true, false, ℕ, Result, ◌+◌, ◌*◌, ◌≤◌, ◌<◌, ◌≡◌, refl, [], ◌∷◌, Error, ok, err, ℤ, ◌∙◌,
  List,
}
use sipproxy.Session.{LocalSessions, session_seconds}
use sipproxy.Session.Local.{get-add_session}
use sipproxy.Text.{Bytes}

-- The store of NewProxy: the local one, and Redis behind it where that is configured.
unfoldable pub session_backends :
    Bool → Clock → (ℕ → Bool) → (Bytes → Result Backend) → SessionStore (LocalSessions × RedisStore)
unfolding composite local_store redis_store
session_backends false c publish find = on_left (local_store c)
session_backends true c publish find =
    composite (on_left (local_store c) ∷ on_right (redis_store c publish find) ∷ [])

-- With `store` at the time of the binding and `later` at that of the request, whose clocks differ.
abbrev pub Keeps : {S : Type 0} → SessionStore S → SessionStore S → ℤ → S → Type 0
Keeps keeper later seconds s =
    (id : Bytes) (b : Backend) → (later.get_bound id (keeper.bind_backend id b seconds s)).0 ≡ ok b

pub local-Keeps :
    (c later : Clock) (seconds : ℤ) (s : LocalSessions)
    → IsDict s.sessions
    → session_seconds s.timeout seconds ≤ 9223372036
    → later.get_now < c.now + session_seconds s.timeout seconds * 1000000000
    → ((id : Bytes) → c.entry_now id ≤ c.now + session_seconds s.timeout seconds * 1000000000)
    → Keeps (local_store c) (local_store later) seconds s
unfolding local_store
local-Keeps c later seconds s d fits l k id b =
    get-add_session id b seconds c.now c.test_now c.clean_now c.entry_now s d later.get_now fits l
      (k id)

first_bound-ok :
    {S : Type 0} (x : SessionStore S) (xs : List (SessionStore S)) (id : Bytes) (s : S)
    (b : Backend)
    → (x.get_bound id s).0 ≡ ok b
    → (first_bound (x ∷ xs) id s).0 ≡ ok b
unfolding first_bound
first_bound-ok x xs id s b h = rw (first_bound, h) refl

pub first_bound-err :
    {S : Type 0} (x : SessionStore S) (xs : List (SessionStore S)) (id : Bytes) (s : S) (e : Error)
    → (x.get_bound id s).0 ≡ err e
    → (first_bound (x ∷ xs) id s).0 ≡ (first_bound xs id (x.get_bound id s).1).0
unfolding first_bound
first_bound-err x xs id s e h = rw (first_bound, h) refl

-- A composite of two stores keeps what its first store keeps, whatever the second does.
pub composite-Keeps :
    {S T : Type 0} (a later : SessionStore S) (r later_r : SessionStore T) (seconds : ℤ) (s : S × T)
    → Keeps a later seconds s.0
    → Keeps
        (composite (on_left a ∷ on_right r ∷ []))
        (composite (on_left later ∷ on_right later_r ∷ []))
        seconds
        s
unfolding composite bind_all
composite-Keeps a later r later_r seconds s h id b =
    first_bound-ok (on_left later) (on_right later_r ∷ []) id
      (a.bind_backend id b seconds s.0, r.bind_backend id b seconds s.1) b (h id b)

-- A session that the first store does not know is looked for in the second.
pub composite_second :
    {S T : Type 0} (a : SessionStore S) (r : SessionStore T) (id : Bytes) (s : S × T) (e : Error)
    (b : Backend)
    → (a.get_bound id s.0).0 ≡ err e
    → (r.get_bound id s.1).0 ≡ ok b
    → ((composite (on_left a ∷ on_right r ∷ [])).get_bound id s).0 ≡ ok b
unfolding composite
composite_second a r id s e b h k =
    first_bound-err (on_left a) (on_right r ∷ []) id s e h
    ∙ first_bound-ok (on_right r) [] id ((a.get_bound id s.0).1, s.1) b k
