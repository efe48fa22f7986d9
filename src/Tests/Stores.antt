-- ===== src/Tests/Stores.antt =====
-- The theorems on pools, sessions and tables of routes at concrete values.
use sipproxy.Dict.{Dict, dict_get}
use sipproxy.Message.{ServerTransport}
use sipproxy.Pool.{
  Backend, Pool, new_pool, first_of_address, add_backend, remove_backend, pool_send,
}
use sipproxy.Pool.Members.{IsPool, add_backend-IsPool, remove_backend-IsPool}
use sipproxy.Pool.Rotation.{first_delivering, rotated, pool_send_lem}
use sipproxy.PreConfigRoute.{
  PreRouteItem, cut_last, default_port, new_pre_route_item, add_route_item, hop_of, find_route,
}
use sipproxy.PreConfigRoute.Laws.{find_route_exact}
use sipproxy.Prelude.{
  ℕ, ◌+◌, ◌%◌, ◌<◌, ◌≡◌, refl, Bool, true, some, [], ◌∷◌, arith, ◌==◌, no_session, ok, err, pos,
}
use sipproxy.SelfLearn.{new_self_learn_route, learn_route, get_learned}
use sipproxy.SelfLearn.Laws.{get-learn_route}
use sipproxy.Session.{
  Nanos, ExpireBackend, LocalSessions, get_session, session_seconds, add_session, RedisSessions,
  set_backend_address, clamp_int32, receive_update, add_text,
}
use sipproxy.Session.Local.{get_session_sound, get-add_session, overflowed_session}
use sipproxy.Session.Redis.{receive-add_text}
use sipproxy.Text.{Bytes, codes, cut, equal_fold}

abbrev local_udp : ServerTransport
local_udp = record { protocol = codes "udp"; address = codes "10.0.0.9"; local_port = pos 5060 }

abbrev backend : ℕ → Bytes → Backend
backend n a = record { identity = n; address = a }

abbrev two : Pool
two = record {
  index = 1;
  backends = backend 1 (codes "udp://a") ∷ backend 2 (codes "udp://b") ∷ [];
  backend_map =
      (codes "udp://b", backend 2 (codes "udp://b"))
      ∷ (codes "udp://a", backend 1 (codes "udp://a"))
      ∷ [];
  closed = [];
}

abbrev only_second : Backend → Bool
only_second b = b.identity == 2

pool_send_lem_example :
    ((pool_send only_second two).0
      ≡ first_delivering only_second (rotated ((1 + 1) % 2) two.backends))
    × ((pool_send only_second two).2 ≡ record two { index = (1 + 1) % 2 })
pool_send_lem_example = pool_send_lem only_second two (λ e. cc)

new_pool-IsPool : IsPool new_pool
unfolding new_pool first_of_address dict_get
new_pool-IsPool = (tt, λ a. refl)

abbrev one : Pool
one = add_backend (backend 1 (codes "udp://a")) new_pool

one-IsPool : IsPool one
one-IsPool = add_backend-IsPool (backend 1 (codes "udp://a")) new_pool new_pool-IsPool

add_backend-IsPool_example : IsPool (add_backend (backend 2 (codes "udp://a")) one)
add_backend-IsPool_example = add_backend-IsPool (backend 2 (codes "udp://a")) one one-IsPool

remove_backend-IsPool_example : IsPool (remove_backend (codes "udp://a") one)
remove_backend-IsPool_example = remove_backend-IsPool (codes "udp://a") one one-IsPool

abbrev store : LocalSessions
store = record { timeout = 30; sessions = []; next_clean_time = 5 }

abbrev clock : Bytes → Nanos
clock id = 1000

live_session :
    (get_session
      (codes "s")
      2000
      (add_session (codes "s") (backend 1 (codes "a")) (pos 60) 1000 1000 1000 clock store)).0
    ≡ ok (backend 1 (codes "a"))
unfolding session_seconds
live_session =
    get-add_session (codes "s") (backend 1 (codes "a")) (pos 60) 1000 1000 1000 clock store tt 2000
      (omega arith) (omega arith) (omega arith)

get-add_session_example :
    (get_session
      (codes "s")
      2000
      (add_session (codes "s") (backend 1 (codes "a")) (pos 60) 1000 1000 1000 clock store)).0
    ≡ ok (backend 1 (codes "a"))
unfolding session_seconds
get-add_session_example =
    get-add_session (codes "s") (backend 1 (codes "a")) (pos 60) 1000 1000 1000 clock store tt 2000
      (omega arith) (omega arith) (omega arith)

overflowed_session_example :
    (get_session (codes "s") 2000 (
      add_session
        (codes "s")
        (backend 1 (codes "a"))
        (pos 10000000000)
        1000
        1000
        1000
        clock
        store)).0
    ≡ err no_session
unfolding session_seconds
overflowed_session_example =
    overflowed_session (codes "s") (backend 1 (codes "a")) (pos 10000000000) 1000 1000 1000 2000
      clock store tt (omega arith) (omega arith) (omega arith) (omega arith)

abbrev redis : RedisSessions
redis = record { addresses = []; next_clean = 60 }

abbrev seconds_clock : Bytes → ℕ
seconds_clock id = 10

receive-add_text_example :
    receive_update 10 10 seconds_clock 10 (add_text (codes "s") (codes "udp://a") (pos 60)) redis
    ≡ set_backend_address
        (codes "s")
        (codes "udp://a")
        (clamp_int32 (pos 60))
        10
        10
        seconds_clock
        10
        redis
receive-add_text_example =
    receive-add_text (codes "s") (codes "udp://a") (pos 60) 10 10 10 seconds_clock redis refl refl
      (omega arith)

get-learn_route_example :
    get_learned
      (codes "1.2.3.4")
      (codes "udp")
      (learn_route (codes "1.2.3.4") local_udp 50 50 (new_self_learn_route 0))
    ≡ some local_udp
get-learn_route_example = get-learn_route (codes "1.2.3.4") local_udp 50 50 (new_self_learn_route 0)

abbrev routes : Dict PreRouteItem
routes =
    (codes "*", record { protocol = codes "udp"; dest = codes "*"; host = codes "h"; port = pos 1 })
    ∷ []

abbrev example_item : PreRouteItem
example_item = record {
  protocol = codes "tcp";
  dest = codes "example.com";
  host = codes "10.0.0.1";
  port = pos 5060;
}

find_route_exact_example :
    find_route
      (λ pattern text. true)
      (codes "example.com")
      (add_route_item (codes "tcp") (codes "example.com") (codes "10.0.0.1") routes).1
    ≡ ok (hop_of example_item)
unfolding new_pre_route_item cut_last cut default_port equal_fold
find_route_exact_example =
    find_route_exact (λ pattern text. true) (codes "tcp") (codes "example.com") (codes "10.0.0.1")
      routes example_item refl

get_session_sound_example :
    (e : ExpireBackend) × ((dict_get
          (codes "s")
          (add_session
            (codes "s")
            (backend 1 (codes "a"))
            (pos 60)
            1000
            1000
            1000
            clock
            store).sessions
        ≡ some e)
      × ((e.backend ≡ backend 1 (codes "a")) × (2000 < e.expire)))
get_session_sound_example =
    get_session_sound (codes "s") 2000
      (add_session (codes "s") (backend 1 (codes "a")) (pos 60) 1000 1000 1000 clock store)
      (backend 1 (codes "a")) live_session
