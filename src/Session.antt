-- ===== src/Session.antt =====
-- The session stores of backend.go. A store reads the clock several times in one operation; each
-- reading is an argument, and the readings of a loop over a map are a function of the key.
-- LocalSessionBasedBackend counts time in nanoseconds, as package time does.
pub mod Local
pub mod Redis
use sipproxy.Dict.{Dict, dict_get, dict_delete, dict_put, dict_sweep}
use sipproxy.Pool.{Backend}
use sipproxy.Prelude.{
  ℕ, zero, suc, ◌+◌, ◌-◌, ◌*◌, ◌%◌, Bool, Option, none, some, List, [], ◌∷◌, ◌++◌, ltb, leb,
  if◌then◌else◌, send_failed, no_session, Result, ok, err, ℤ, pos, negsuc,
}
use sipproxy.Text.{Bytes, codes, str_eq, split}
use sipproxy.Text.Number.{atoi_full, itoa}

abbrev pub Nanos : Type 0
Nanos = ℕ

-- The product `time.Duration(seconds) * time.Second` in an int64.
unfoldable pub wrap_int64 : ℕ → ℤ
wrap_int64 n =
    let r = n % 18446744073709551616 in
    if ltb r 9223372036854775808 then pos r else negsuc (18446744073709551615 - r)

unfoldable pub duration_of : ℕ → ℤ
unfolding wrap_int64
duration_of seconds = wrap_int64 (seconds * 1000000000)

-- Time.Add; the clock stands far enough from the beginning of time for every negative duration.
unfoldable pub add_duration : Nanos → ℤ → Nanos
add_duration now (pos n) = now + n
add_duration now (negsuc n) = now - (n + 1)

pub record ExpireBackend : Type 0 where
  pub backend : Backend
  pub expire : Nanos

pub record LocalSessions : Type 0 where
  pub timeout : ℕ
  pub sessions : Dict ExpireBackend
  pub next_clean_time : Nanos

-- NewLocalSessionBasedBackend, for a timeout that is not negative and whose duration does not
-- overflow; `timeout` is in seconds
unfoldable pub new_local_sessions : ℕ → Nanos → LocalSessions
unfolding duration_of add_duration
new_local_sessions timeout now = record {
  timeout = timeout;
  sessions = [];
  next_clean_time = add_duration now (duration_of timeout);
}

-- An entry that has run out is deleted when it is asked for.
unfoldable pub fresh_backend :
    Bytes → Nanos → Option ExpireBackend → LocalSessions → Result Backend × LocalSessions
unfolding dict_delete
fresh_backend id now none s = (err no_session, s)
fresh_backend id now (some e) s =
    if ltb now e.expire
    then (ok e.backend, s)
    else (err no_session, record s { sessions = dict_delete id s.sessions })

unfoldable pub get_session : Bytes → Nanos → LocalSessions → Result Backend × LocalSessions
unfolding fresh_backend dict_get
get_session id now s = fresh_backend id now (dict_get id s.sessions) s

-- The longer of the timeout and the seconds that the caller asks for.
unfoldable pub session_seconds : ℕ → ℤ → ℕ
session_seconds timeout (pos n) = if ltb timeout n then n else timeout
session_seconds timeout (negsuc n) = timeout

-- `test_now` is the reading of the first test, `clean_now` that for the next time.
unfoldable pub clean_sessions : Nanos → Nanos → (Bytes → Nanos) → LocalSessions → LocalSessions
unfolding dict_sweep duration_of add_duration
clean_sessions test_now clean_now entry_now s =
    if ltb test_now s.next_clean_time then s else record s {
      next_clean_time = add_duration clean_now (duration_of s.timeout);
      sessions = dict_sweep (λ id e. ltb e.expire (entry_now id)) s.sessions;
    }

unfoldable pub add_session :
    Bytes → Backend → ℤ → Nanos → Nanos → Nanos → (Bytes → Nanos) → LocalSessions → LocalSessions
unfolding session_seconds clean_sessions dict_put duration_of add_duration
add_session id b seconds now test_now clean_now entry_now s =
    let expire = add_duration now (duration_of (session_seconds s.timeout seconds)) in
    clean_sessions test_now clean_now entry_now
      (record s { sessions = dict_put id (record { backend = b; expire = expire }) s.sessions })

unfoldable pub remove_session : Bytes → LocalSessions → LocalSessions
unfolding dict_delete
remove_session id s = record s { sessions = dict_delete id s.sessions }

-- RedisSessionBackendAddrMgr counts time in seconds.
pub record SessionAddress : Type 0 where
  pub address : Bytes
  pub expires : ℕ

pub record RedisSessions : Type 0 where
  pub addresses : Dict SessionAddress
  pub next_clean : ℕ

unfoldable pub clean_addresses : ℕ → ℕ → (Bytes → ℕ) → RedisSessions → RedisSessions
unfolding dict_sweep
clean_addresses test_now clean_now entry_now s = if ltb test_now s.next_clean then s else record s {
  next_clean = clean_now + 60;
  addresses = dict_sweep (λ id a. leb a.expires (entry_now id)) s.addresses;
}

unfoldable pub live_address : ℕ → Option SessionAddress → Result Bytes
live_address now none = err no_session
live_address now (some a) = if ltb now a.expires then ok a.address else err no_session

unfoldable pub get_backend_address :
    Bytes → ℕ → ℕ → (Bytes → ℕ) → ℕ → RedisSessions → Result Bytes × RedisSessions
unfolding clean_addresses live_address dict_get
get_backend_address id test_now clean_now entry_now now s =
    let s' = clean_addresses test_now clean_now entry_now s in
    (live_address now (dict_get id s'.addresses), s')

unfoldable pub set_backend_address :
    Bytes → Bytes → ℤ → ℕ → ℕ → (Bytes → ℕ) → ℕ → RedisSessions → RedisSessions
unfolding clean_addresses dict_put add_duration
set_backend_address id address expires test_now clean_now entry_now now s =
    let s' = clean_addresses test_now clean_now entry_now s in
    record s' {
      addresses =
          dict_put id (record { address = address; expires = add_duration now expires })
            s'.addresses;
    }

unfoldable pub remove_address : Bytes → RedisSessions → Result (Unit {0}) × RedisSessions
unfolding dict_get dict_delete
remove_address id s = elim (dict_get id s.addresses) [
  | some _ ↦ (ok tt, record s { addresses = dict_delete id s.addresses })
  | none ↦ (err no_session, s)
]

-- ParseInt(s, 10, 32) with its error dropped: out of range it is the nearest int32.
unfoldable pub clamp_int32 : ℤ → ℤ
clamp_int32 (pos n) = if ltb n 2147483648 then pos n else pos 2147483647
clamp_int32 (negsuc n) = if ltb n 2147483648 then negsuc n else negsuc 2147483647

-- What a text published on the channel does to the addresses.
unfoldable pub session_backend_updated :
    ℕ → ℕ → (Bytes → ℕ) → ℕ → List Bytes → RedisSessions → RedisSessions
unfolding set_backend_address remove_address clamp_int32 atoi_full str_eq
session_backend_updated test_now clean_now entry_now now (verb ∷ id ∷ address ∷ expires ∷ []) s =
    if str_eq verb (codes "add")
    then set_backend_address id address (clamp_int32 (atoi_full expires).0) test_now clean_now
        entry_now now s
    else s
session_backend_updated test_now clean_now entry_now now (verb ∷ id ∷ []) s =
    if str_eq verb (codes "delete") then (remove_address id s).1 else s
session_backend_updated test_now clean_now entry_now now _ s = s

unfoldable pub receive_update : ℕ → ℕ → (Bytes → ℕ) → ℕ → Bytes → RedisSessions → RedisSessions
unfolding session_backend_updated split
receive_update test_now clean_now entry_now now msg s =
    session_backend_updated test_now clean_now entry_now now (split msg b' ') s

-- The texts that AddBackend and RemoveSession publish.
unfoldable pub add_text : Bytes → Bytes → ℤ → Bytes
unfolding itoa
add_text id address seconds = codes "add " ++ (id ++ (b' ' ∷ (address ++ (b' ' ∷ itoa seconds))))

unfoldable pub delete_text : Bytes → Bytes
delete_text id = codes "delete " ++ id

-- ForEachRedis over `n` clients from the master on; `publish` says on which clients the command
-- succeeds. The result is the client that took it; it is then the master.
unfoldable pub try_clients : (ℕ → Bool) → ℕ → ℕ → ℕ → ℕ → Option ℕ
try_clients publish n master zero i = none
try_clients publish n master (suc left) i =
    let rest = try_clients publish n master left (i + 1) in
    if publish ((master + i) % n) then some ((master + i) % n) else rest

unfoldable pub for_each_redis : (ℕ → Bool) → ℕ → ℕ → Result ℕ × ℕ
unfolding try_clients
for_each_redis publish n master = elim (try_clients publish n master n 0) [
  | some i ↦ (ok i, i)
  | none ↦ (err send_failed, master)
]
