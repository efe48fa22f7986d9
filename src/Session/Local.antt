-- ===== src/Session/Local.antt =====
-- What a session store returns before and after a session runs out.
use sipproxy.Dict.{
  dict_get, IsDict, dict_get-sweep, dict_get-put, dict_put-IsDict, dict_put, dict_sweep,
}
use sipproxy.Pool.{Backend}
use sipproxy.Prelude.{
  ℕ, ◌*◌, ◌≤◌, ◌<◌, ◌≡◌, inl, inr, some, ok, pos, refl, ◌∙◌, false, Option, none, arith, ltb,
  ltb→lt, lt→ltb, Bool-cases, no_session, err, ◌+◌, ℤ, sym, ap,
}
use sipproxy.Session.{
  Nanos, wrap_int64, duration_of, add_duration, ExpireBackend, LocalSessions, fresh_backend,
  get_session, clean_sessions, session_seconds, add_session,
}
use sipproxy.Text.{Bytes}
use sipproxy.Text.Equality.{str_eq_refl}

fresh_backend_sound :
    (id : Bytes) (now : Nanos) (s : LocalSessions) (b : Backend) (o : Option ExpireBackend)
    → (fresh_backend id now o s).0 ≡ ok b
    → (e : ExpireBackend) × ((o ≡ some e) × ((e.backend ≡ b) × (now < e.expire)))
unfolding fresh_backend
fresh_backend_sound id now s b none h = cc
fresh_backend_sound id now s b (some e) h = elim (Bool-cases (ltb now e.expire)) [
  | inl l ↦
      let same : ok e.backend ≡ ok b = rw l at h in
      let same_backend : e.backend ≡ b = cc in (e, (refl, (same_backend, ltb→lt now e.expire l)))
  | inr l ↦ let no : err no_session ≡ ok b = rw l at h in cc
]

-- A session that is returned is the one stored for its identifier, and it has not run out.
pub get_session_sound :
    (id : Bytes) (now : Nanos) (s : LocalSessions) (b : Backend)
    → (get_session id now s).0 ≡ ok b
    → (e : ExpireBackend) × ((dict_get id s.sessions ≡ some e)
        × ((e.backend ≡ b) × (now < e.expire)))
unfolding get_session
get_session_sound id now s b h = fresh_backend_sound id now s b (dict_get id s.sessions) h

get_session_live :
    (id : Bytes) (now : Nanos) (s : LocalSessions) (b : Backend) (e : Nanos)
    → dict_get id s.sessions ≡ some (record { backend = b; expire = e })
    → now < e
    → (get_session id now s).0 ≡ ok b
unfolding get_session fresh_backend
get_session_live id now s b e h l = rw (h, lt→ltb now e l) refl

clean_sessions_keeps :
    (test clean : Nanos) (entry_now : Bytes → Nanos) (id : Bytes) (x : ExpireBackend)
    (s : LocalSessions)
    → IsDict s.sessions
    → dict_get id s.sessions ≡ some x
    → ltb x.expire (entry_now id) ≡ false
    → dict_get id (clean_sessions test clean entry_now s).sessions ≡ some x
unfolding clean_sessions
clean_sessions_keeps test clean entry_now id x s d h live =
    elim (Bool-cases (ltb test s.next_clean_time)) [
      | inl e ↦ rw e h
      | inr e ↦
          rw e
            (dict_get-sweep (λ k v. ltb v.expire (entry_now k)) id s.sessions d ∙ rw (h, live) refl)
    ]

duration_fits : (n : ℕ) → n ≤ 9223372036 → duration_of n ≡ pos (n * 1000000000)
unfolding duration_of wrap_int64
duration_fits n h = ground arith

duration_wraps :
    (now n : ℕ) → 9223372037 ≤ n → n ≤ 18446744073 → add_duration now (duration_of n) ≤ now
unfolding duration_of wrap_int64 add_duration
duration_wraps now n l h = ground arith

module _ (id : Bytes) (b : Backend) (seconds : ℤ) (now test clean : Nanos)
    (entry_now : Bytes → Nanos) (s : LocalSessions) (d : IsDict s.sessions) where
  abbrev added : LocalSessions
  added = add_session id b seconds now test clean entry_now s

  -- A session is found until the longer of the timeout and the asked seconds has passed, whether or
  -- not the addition swept the map; if those seconds are at most 9223372036 and no reading of the
  -- clock in the sweep is later than the end of the session. The store has no key twice.
  pub get-add_session :
      (later : Nanos)
      → session_seconds s.timeout seconds ≤ 9223372036
      → later < now + session_seconds s.timeout seconds * 1000000000
      → entry_now id ≤ now + session_seconds s.timeout seconds * 1000000000
      → (get_session id later added).0 ≡ ok b
  unfolding add_session add_duration
  get-add_session later fits l k =
      let n : ℕ = session_seconds s.timeout seconds in
      let end : Nanos = add_duration now (duration_of n) in
      let e : end ≡ now + n * 1000000000 = rw (duration_fits n fits) refl in
      let x : ExpireBackend = record { backend = b; expire = end } in
      let live : ltb end (entry_now id) ≡ false = rw e (ground (arith, k)) in
      get_session_live id later added b end
        (clean_sessions_keeps test clean entry_now id x
          (record s { sessions = dict_put id x s.sessions }) (dict_put-IsDict id x s.sessions d)
          (dict_get-put id id x s.sessions ∙ rw (str_eq_refl id) refl) live)
        (rw e l)

fresh_backend_over :
    (id : Bytes) (now : Nanos) (s : LocalSessions) (o : Option ExpireBackend)
    → ((e : ExpireBackend) → o ≡ some e → e.expire ≤ now)
    → (fresh_backend id now o s).0 ≡ err no_session
unfolding fresh_backend
fresh_backend_over id now s none h = refl
fresh_backend_over id now s (some e) h =
    let over : ltb now e.expire ≡ false = ground (arith, h e refl) in rw over refl

clean_sessions_sound :
    (test clean : Nanos) (entry_now : Bytes → Nanos) (id : Bytes) (s : LocalSessions)
    (x e : ExpireBackend)
    → IsDict s.sessions
    → dict_get id s.sessions ≡ some x
    → dict_get id (clean_sessions test clean entry_now s).sessions ≡ some e
    → e.expire ≡ x.expire
unfolding clean_sessions
clean_sessions_sound test clean entry_now id s x e d h g =
    elim (Bool-cases (ltb test s.next_clean_time)) [
      | inl q ↦ let g' : dict_get id s.sessions ≡ some e = rw q at g in cc
      | inr q ↦
          let g' : dict_get id (dict_sweep (λ k v. ltb v.expire (entry_now k)) s.sessions)
              ≡ some e =
            rw q at g in
          elim (Bool-cases (ltb x.expire (entry_now id))) [
            | inl r ↦
                let gone : dict_get id (dict_sweep (λ k v. ltb v.expire (entry_now k)) s.sessions)
                    ≡ none =
                  dict_get-sweep (λ k v. ltb v.expire (entry_now k)) id s.sessions d
                  ∙ rw (h, r) refl in
                cc
            | inr r ↦
                let kept : dict_get id (dict_sweep (λ k v. ltb v.expire (entry_now k)) s.sessions)
                    ≡ some x =
                  dict_get-sweep (λ k v. ltb v.expire (entry_now k)) id s.sessions d
                  ∙ rw (h, r) refl in
                let same : x ≡ e = cc in ap (λ y. y.expire) (sym same)
          ]
    ]

-- Where the timeout's own duration fits, a session of 9223372037 to 18446744073 seconds runs out as it
-- is added: its duration overflows to a negative one. Every later request for it finds none.
pub overflowed_session :
    (id : Bytes) (b : Backend) (seconds : ℤ) (now test clean later : Nanos)
    (entry_now : Bytes → Nanos) (s : LocalSessions)
    → IsDict s.sessions
    → s.timeout ≤ 9223372036
    → 9223372037 ≤ session_seconds s.timeout seconds
    → session_seconds s.timeout seconds ≤ 18446744073
    → now ≤ later
    → (get_session id later (add_session id b seconds now test clean entry_now s)).0
      ≡ err no_session
unfolding get_session add_session
overflowed_session id b seconds now test clean later entry_now s d timeout low high le =
    let n : ℕ = session_seconds s.timeout seconds in
    let x : ExpireBackend = record { backend = b; expire = add_duration now (duration_of n) } in
    let w : LocalSessions = record s { sessions = dict_put id x s.sessions } in
    let over : x.expire ≤ later = omega (arith, duration_wraps now n low high, le) in
    let stored : dict_get id w.sessions ≡ some x =
      dict_get-put id id x s.sessions ∙ rw (str_eq_refl id) refl in
    fresh_backend_over id later (clean_sessions test clean entry_now w)
      (dict_get id (clean_sessions test clean entry_now w).sessions)
      (λ e g.
        rw
          (clean_sessions_sound test clean entry_now id w x e (dict_put-IsDict id x s.sessions d)
            stored g)
          over)
