-- ===== src/SelfLearn.antt =====
-- The learned routes, self_learn_route.go: for a host and a protocol, the local transport on which
-- a message from there came in. Time is in seconds; every reading of the clock is an argument.
pub mod Laws
use sipproxy.Dict.{Dict, dict_get, dict_put, dict_sweep}
use sipproxy.Message.{ServerTransport}
use sipproxy.Prelude.{
  ℕ, ◌+◌, Bool, false, ◌&&◌, ◌||◌, Option, none, some, [], ◌∷◌, ◌++◌, ltb, if◌then◌else◌, length,
  int_eq,
}
use sipproxy.Text.{Bytes, str_eq}

pub record LearnItem : Type 0 where
  pub transport : ServerTransport
  pub expire : ℕ

pub record SelfLearnRoute : Type 0 where
  pub clean_interval : ℕ
  pub last_clean_time : ℕ
  pub expire : ℕ
  pub route : Dict LearnItem

unfoldable pub new_self_learn_route : ℕ → SelfLearnRoute
new_self_learn_route now = record {
  clean_interval = 60;
  last_clean_time = now;
  expire = 1200;
  route = [];
}

-- "%s:%s"
unfoldable pub route_key : Bytes → Bytes → Bytes
route_key ip protocol = ip ++ (b':' ∷ protocol)

unfoldable pub is_same_transport : ServerTransport → ServerTransport → Bool
unfolding str_eq
is_same_transport a b =
    str_eq a.protocol b.protocol && (str_eq a.address b.address && int_eq a.local_port b.local_port)

-- The difference to the last time may be negative, which is below the interval.
unfoldable pub clean_expires : ℕ → SelfLearnRoute → SelfLearnRoute
unfolding dict_sweep
clean_expires now s =
    if ltb now (s.last_clean_time + s.clean_interval) || ltb (length s.route) 10000
    then s
    else record s {
      last_clean_time = now;
      route = dict_sweep (λ key item. ltb item.expire now) s.route;
    }

unfoldable pub learned_same : ServerTransport → Option LearnItem → Bool
unfolding is_same_transport
learned_same t none = false
learned_same t (some item) = is_same_transport item.transport t

-- A transport that is learned already keeps its time.
unfoldable pub learn_at : Bytes → ServerTransport → ℕ → SelfLearnRoute → SelfLearnRoute
unfolding learned_same dict_get dict_put
learn_at key t now s = if learned_same t (dict_get key s.route) then s else record s {
  route = dict_put key (record { transport = t; expire = now + s.expire }) s.route;
}

unfoldable pub learn_route : Bytes → ServerTransport → ℕ → ℕ → SelfLearnRoute → SelfLearnRoute
unfolding clean_expires route_key learn_at
learn_route ip t clean_now now s =
    learn_at (route_key ip t.protocol) t now (clean_expires clean_now s)

unfoldable pub get_learned : Bytes → Bytes → SelfLearnRoute → Option ServerTransport
unfolding route_key dict_get
get_learned ip protocol s = elim (dict_get (route_key ip protocol) s.route) [
  | some item ↦ some item.transport
  | none ↦ none
]

unfoldable pub get_route_address : Bytes → Bytes → SelfLearnRoute → Bytes
unfolding get_learned
get_route_address ip protocol s = elim (get_learned ip protocol s) [
  | some t ↦ t.address
  | none ↦ []
]
