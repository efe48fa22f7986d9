-- ===== src/Clients/Lookup.antt =====
-- GetTransport finds what it stored.
use sipproxy.Clients.{Clients}
use sipproxy.Clients.Manager.{
  clean_expired_transport, is_supported, full_addr, Surroundings, create_client_transport,
  found_or_created, get_client_transport,
}
use sipproxy.Dict.{dict_get, dict_get-put}
use sipproxy.Prelude.{ℕ, ◌+◌, ◌<◌, ◌≡◌, refl, ◌∙◌, true, Option, none, some, lt→ltb, ok, ℤ}
use sipproxy.Text.{Bytes, to_lower}
use sipproxy.Text.Equality.{str_eq_refl}

pub found_or_created-stored :
    (env : Surroundings) (addr protocol host : Bytes) (port : ℤ) (o : Option ℕ) (s : Clients)
    → dict_get addr s.transports ≡ o
    → dict_get addr (found_or_created env addr protocol host port o s).1.transports
      ≡ some (found_or_created env addr protocol host port o s).0
unfolding found_or_created
found_or_created-stored env addr protocol host port (some i) s e = e
found_or_created-stored env addr protocol host port none s e =
    let made : ℕ × Clients = create_client_transport env protocol host port s in
    dict_get-put addr addr made.0 made.1.transports ∙ rw (str_eq_refl addr) refl

clean_rests :
    (now : ℕ) (client_now : ℕ → ℕ) (s : Clients)
    → now < s.last_clean_time + 60
    → clean_expired_transport now client_now s ≡ s
unfolding clean_expired_transport
clean_rests now client_now s h = rw (lt→ltb now (s.last_clean_time + 60) h) refl

pub get_client_transport-supported :
    (env : Surroundings) (now : ℕ) (client_now : ℕ → ℕ) (protocol host : Bytes) (port : ℤ)
    (trans_id : Bytes) (s : Clients)
    → is_supported (to_lower protocol) ≡ true
    → let s' = clean_expired_transport now client_now s in
      let addr = full_addr env.join (to_lower protocol) host port trans_id in
      let found =
        found_or_created env addr (to_lower protocol) host port (dict_get addr s'.transports) s' in
      get_client_transport env now client_now protocol host port trans_id s ≡ (ok found.0, found.1)
unfolding get_client_transport
get_client_transport-supported env now client_now protocol host port trans_id s h =
    rw (get_client_transport, h) refl

pub get_client_transport-known :
    (env : Surroundings) (now : ℕ) (client_now : ℕ → ℕ) (protocol host : Bytes) (port : ℤ)
    (trans_id : Bytes) (i : ℕ) (s : Clients)
    → is_supported (to_lower protocol) ≡ true
    → now < s.last_clean_time + 60
    → dict_get (full_addr env.join (to_lower protocol) host port trans_id) s.transports ≡ some i
    → get_client_transport env now client_now protocol host port trans_id s ≡ (ok i, s)
unfolding get_client_transport found_or_created
get_client_transport-known env now client_now protocol host port trans_id i s h l e =
    rw (get_client_transport, h, clean_rests now client_now s l, e) refl

-- Asking twice for a transport of a supported protocol gives the same transport, the second time
-- without a change; if the second request comes within a minute of the last sweep.
pub get_client_transport_twice :
    (env : Surroundings) (now : ℕ) (client_now : ℕ → ℕ) (later : ℕ) (later_now : ℕ → ℕ)
    (protocol host : Bytes) (port : ℤ) (trans_id : Bytes) (s : Clients)
    → is_supported (to_lower protocol) ≡ true
    → later
      < (get_client_transport env now client_now protocol host port trans_id s).1.last_clean_time
        + 60
    → get_client_transport env later later_now protocol host port trans_id
        (get_client_transport env now client_now protocol host port trans_id s).1
      ≡ get_client_transport env now client_now protocol host port trans_id s
get_client_transport_twice env now client_now later later_now protocol host port trans_id s h l =
    let s' : Clients = clean_expired_transport now client_now s in
    let addr : Bytes = full_addr env.join (to_lower protocol) host port trans_id in
    let found : ℕ × Clients =
      found_or_created env addr (to_lower protocol) host port (dict_get addr s'.transports) s' in
    let first : get_client_transport env now client_now protocol host port trans_id s
        ≡ (ok found.0, found.1) =
      get_client_transport-supported env now client_now protocol host port trans_id s h in
    let stored : dict_get addr found.1.transports ≡ some found.0 =
      found_or_created-stored env addr (to_lower protocol) host port (dict_get addr s'.transports)
        s' refl in
    let soon : later < found.1.last_clean_time + 60 = rw first at l in
    rw first (
      get_client_transport-known env later later_now protocol host port trans_id found.0 found.1 h
        soon stored)
