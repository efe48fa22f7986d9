-- ===== src/Loop/Sessions.antt =====
-- What a response to BYE does to the session of its call.
use sipproxy.Dict.{dict_get, dict_get-delete, dict_get-sweep_none}
use sipproxy.Dispatch.{
  SessionStore, Clock, local_store, RedisStore, publish_text, found_by_address, redis_store,
  composite, on_left, on_right, unbind_all,
}
use sipproxy.Dispatch.Stores.{session_backends, first_bound-err}
use sipproxy.Loop.Sends.{handle_session}
use sipproxy.Message.{Message, is_response}
use sipproxy.Message.Access.{get_method}
use sipproxy.Message.Ids.{get_session_id}
use sipproxy.Pool.{Backend}
use sipproxy.Prelude.{
  arith, ℕ, ◌≡◌, refl, ap, ◌∙◌, inl, inr, Bool, true, false, none, [], ◌∷◌, ltb, leb, Bool-cases,
  Option-cases, no_session, Result, ok, err, is_ok,
}
use sipproxy.Session.{
  LocalSessions, get_session, fresh_backend, remove_session, RedisSessions, clean_addresses,
  live_address, get_backend_address, remove_address, delete_text,
}
use sipproxy.Text.{Bytes, codes, str_eq}
use sipproxy.Text.Equality.{str_eq_refl}

absent_session :
    (id : Bytes) (later : ℕ) (s : LocalSessions)
    → dict_get id s.sessions ≡ none
    → (get_session id later s).0 ≡ err no_session
unfolding get_session fresh_backend
absent_session id later s e = rw e refl

removed_session :
    (id : Bytes) (s : LocalSessions) → dict_get id (remove_session id s).sessions ≡ none
unfolding remove_session
removed_session id s = dict_get-delete id id s.sessions ∙ rw (str_eq_refl id) refl

-- The local store does not find a session that was removed, at any time.
local_removed :
    (id : Bytes) (c later : Clock) (s : LocalSessions)
    → ((local_store later).get_bound id ((local_store c).unbind id s)).0 ≡ err no_session
unfolding local_store
local_removed id c later s = absent_session id later.get_now _ (removed_session id s)

publish_text-addresses :
    (publish : ℕ → Bool) (text : Bytes) (s : RedisStore)
    → (publish_text publish text s).addresses ≡ s.addresses
unfolding publish_text
publish_text-addresses publish text s = ground arith

absent_address :
    (id : Bytes) (test_now clean_now : ℕ) (entry_now : Bytes → ℕ) (now : ℕ) (s : RedisSessions)
    → dict_get id s.addresses ≡ none
    → (get_backend_address id test_now clean_now entry_now now s).0 ≡ err no_session
unfolding get_backend_address clean_addresses live_address
absent_address id test_now clean_now entry_now now s e =
    elim (Bool-cases (ltb test_now s.next_clean)) [
      | inl l ↦ rw (l, e) refl
      | inr l ↦
          rw (l, dict_get-sweep_none (λ k a. leb a.expires (entry_now k)) id s.addresses e) refl
    ]

removed_address :
    (id : Bytes) (s : RedisSessions) → dict_get id (remove_address id s).1.addresses ≡ none
unfolding remove_address
removed_address id s = elim (Option-cases (dict_get id s.addresses)) [
  | inl e ↦ rw (remove_address, e) e
  | inr (a, e) ↦
      rw (remove_address, e) (dict_get-delete id id s.addresses ∙ rw (str_eq_refl id) refl)
]

-- Nor does the store over Redis, whether or not the removal could be published.
redis_removed :
    (id : Bytes) (c later : Clock) (publish later_publish : ℕ → Bool)
    (find later_find : Bytes → Result Backend) (s : RedisStore)
    → ((redis_store later later_publish later_find).get_bound id
        ((redis_store c publish find).unbind id s)).0
      ≡ err no_session
unfolding redis_store found_by_address
redis_removed id c later publish later_publish find later_find s =
    let t : RedisStore = publish_text publish (delete_text id) s in
    ap (found_by_address later_find) (
      absent_address id later.test_now later.clean_now later.entry_now later.get_now
        (remove_address id t.addresses).1 (removed_address id t.addresses))

-- What handleSession does after a BYE whose session is found.
handle_session_found :
    {S : Type 0} (keeper : SessionStore S) (id : Bytes) (m : Message) (s : S)
    → is_response m ≡ true
    → (get_session_id m).0 ≡ ok id
    → (get_method (get_session_id m).1).0 ≡ ok (codes "BYE")
    → is_ok (keeper.get_bound id s).0 ≡ true
    → handle_session keeper m s ≡ keeper.unbind id (keeper.get_bound id s).1
unfolding handle_session str_eq
handle_session_found keeper id m s response same bye found =
    rw (handle_session, response, same, bye, found) refl

unbound :
    (redis : Bool) (c later : Clock) (publish later_publish : ℕ → Bool)
    (find later_find : Bytes → Result Backend) (id : Bytes) (s : LocalSessions × RedisStore)
    → ((session_backends redis later later_publish later_find).get_bound id
        ((session_backends redis c publish find).unbind id s)).0
      ≡ err no_session
unfolding session_backends composite unbind_all
unbound false c later publish later_publish find later_find id s = local_removed id c later s.0
unbound true c later publish later_publish find later_find id s =
    let left : LocalSessions = (local_store c).unbind id s.0 in
    let right : RedisStore = (redis_store c publish find).unbind id s.1 in
    first_bound-err (on_left (local_store later))
      (on_right (redis_store later later_publish later_find) ∷ []) id (left, right) no_session
      (local_removed id c later s.0)
    ∙ first_bound-err (on_right (redis_store later later_publish later_find)) [] id _ no_session
        (redis_removed id c later publish later_publish find later_find s.1)

-- After a response to a BYE whose session identifier can be read and whose session the proxy's store
-- finds, no session is found for that identifier, at any time: with the local store alone and with
-- Redis behind it, whether or not the removal could be published, and whatever has become of the
-- backends. Nothing is bound between.
pub handle_session-bye :
    (redis : Bool) (c later : Clock) (publish later_publish : ℕ → Bool)
    (find later_find : Bytes → Result Backend) (id : Bytes) (m : Message)
    (s : LocalSessions × RedisStore)
    → is_response m ≡ true
    → (get_session_id m).0 ≡ ok id
    → (get_method (get_session_id m).1).0 ≡ ok (codes "BYE")
    → is_ok ((session_backends redis c publish find).get_bound id s).0 ≡ true
    → ((session_backends redis later later_publish later_find).get_bound id
        (handle_session (session_backends redis c publish find) m s)).0
      ≡ err no_session
handle_session-bye redis c later publish later_publish find later_find id m s response same bye
      found =
    let keeper : SessionStore (LocalSessions × RedisStore) =
      session_backends redis c publish find in
    ap (λ t. ((session_backends redis later later_publish later_find).get_bound id t).0)
      (handle_session_found keeper id m s response same bye found)
    ∙ unbound redis c later publish later_publish find later_find id (keeper.get_bound id s).1
