-- ===== src/Stream/Retry.antt =====
-- What a sender that tries a few rounds promises.
use sipproxy.Prelude.{
  ℕ, suc, ◌+◌, ◌≡◌, refl, ◌⊎◌, inl, inr, Bool, true, Option, none, some, List, [], ◌∷◌, ◌++◌, arith,
  Bool-cases, send_failed, Result, ok, err, zero, is_ok,
}
use sipproxy.Stream.{
  Event, opened, wrote, closed, Stream, log, connected, connect_if_needed, write_once, send_round,
  Network, send_rounds, tcp_backend_send,
}

abbrev pub held : Option ℕ → ℕ
held none = 0
held (some c) = 1

abbrev pub opens : List Event → ℕ
opens [] = 0
opens (opened c ∷ es) = suc (opens es)
opens (wrote c ∷ es) = opens es
opens (closed c ∷ es) = opens es

abbrev pub closes : List Event → ℕ
closes [] = 0
closes (opened c ∷ es) = closes es
closes (wrote c ∷ es) = closes es
closes (closed c ∷ es) = suc (closes es)

-- Every connection that was opened is closed, but for the one that is held.
abbrev pub IsBalanced : Stream → Type 0
IsBalanced s = opens s.events ≡ closes s.events + held s.conn

opens-append : (es fs : List Event) → opens (es ++ fs) ≡ opens es + opens fs
opens-append [] fs = omega arith
opens-append (opened c ∷ es) fs = omega (arith, opens-append es fs)
opens-append (wrote c ∷ es) fs = opens-append es fs
opens-append (closed c ∷ es) fs = opens-append es fs

closes-append : (es fs : List Event) → closes (es ++ fs) ≡ closes es + closes fs
closes-append [] fs = omega arith
closes-append (opened c ∷ es) fs = closes-append es fs
closes-append (wrote c ∷ es) fs = closes-append es fs
closes-append (closed c ∷ es) fs = omega (arith, closes-append es fs)

connect-IsBalanced :
    (conn dialled : Option ℕ) (s : Stream)
    → s.conn ≡ conn
    → IsBalanced s
    → IsBalanced (connect_if_needed conn dialled s)
unfolding connect_if_needed connected log
connect-IsBalanced (some c) dialled s e h = h
connect-IsBalanced none none s e h = h
connect-IsBalanced none (some d) s e h =
    let unheld : held s.conn ≡ 0 = rw e refl in
    omega (
      arith,
      h,
      unheld,
      opens-append s.events (opened d ∷ []),
      closes-append s.events (opened d ∷ []),
    )

write_once-IsBalanced :
    (write : ℕ → Bool) (conn : Option ℕ) (s : Stream)
    → s.conn ≡ conn
    → IsBalanced s
    → IsBalanced (write_once write conn s).1
unfolding write_once log
write_once-IsBalanced write none s e h = h
write_once-IsBalanced write (some c) s e h =
    let one : held s.conn ≡ 1 = rw e refl in
    elim (Bool-cases (write c)) [
      | inl w ↦
          rw (write_once, w)
            (omega (
              arith,
              h,
              opens-append s.events (wrote c ∷ []),
              closes-append s.events (wrote c ∷ []),
            ))
      | inr w ↦
          rw (write_once, w)
            (omega (
              arith,
              h,
              one,
              opens-append s.events (closed c ∷ []),
              closes-append s.events (closed c ∷ []),
            ))
    ]

-- After a round the connection that took the message is held, or none is.
write_once-conn :
    (write : ℕ → Bool) (conn : Option ℕ) (s : Stream)
    → s.conn ≡ conn
    → ((c : ℕ) × (((write_once write conn s).0 ≡ ok c)
          × ((write_once write conn s).1.conn ≡ some c)
          × (write c ≡ true)))
      ⊎ (((write_once write conn s).0 ≡ err send_failed)
          × ((write_once write conn s).1.conn ≡ none))
unfolding write_once log
write_once-conn write none s e = inr (refl, e)
write_once-conn write (some c) s e = elim (Bool-cases (write c)) [
  | inl w ↦ inl (c, (rw (write_once, w) refl, rw (write_once, w) e, w))
  | inr w ↦ inr (rw (write_once, w) refl, rw (write_once, w) refl)
]

send_round-IsBalanced :
    (dialled : Option ℕ) (write : ℕ → Bool) (s : Stream)
    → IsBalanced s
    → IsBalanced (send_round dialled write s).1
unfolding send_round
send_round-IsBalanced dialled write s h =
    write_once-IsBalanced write _ (connect_if_needed s.conn dialled s) refl
      (connect-IsBalanced s.conn dialled s refl h)

-- A send ends with the message on the connection that is held, or with an error and none held.
abbrev pub Ends : Result ℕ × Stream → Type 0
Ends p =
    ((c : ℕ) × ((p.0 ≡ ok c) × (p.1.conn ≡ some c))) ⊎ ((p.0 ≡ err send_failed) × (p.1.conn ≡ none))

abbrev go_on : Result ℕ × Stream → (Stream → Result ℕ × Stream) → Result ℕ × Stream
go_on p rest = elim p.0 [ ok c ↦ p | err _ ↦ rest p.1 ]

go_on-Ends :
    (r : Result ℕ) (t : Stream) (rest : Stream → Result ℕ × Stream)
    → Ends (r, t)
    → ((s : Stream) → s.conn ≡ none → Ends (rest s))
    → Ends (go_on (r, t) rest)
go_on-Ends (ok c) t rest h k = h
go_on-Ends (err x) t rest (inl (c, (e, f))) k = absurd (cc)
go_on-Ends (err x) t rest (inr (e, f)) k = k t f

write_once-Ends :
    (write : ℕ → Bool) (conn : Option ℕ) (s : Stream)
    → s.conn ≡ conn
    → Ends (write_once write conn s)
unfolding write_once log
write_once-Ends write none s e = inr (refl, e)
write_once-Ends write (some c) s e = elim (Bool-cases (write c)) [
  | inl w ↦ inl (c, (rw (write_once, w) refl, rw (write_once, w) e))
  | inr w ↦ inr (rw (write_once, w) refl, rw (write_once, w) refl)
]

send_round-Ends :
    (dialled : Option ℕ) (write : ℕ → Bool) (s : Stream) → Ends (send_round dialled write s)
unfolding send_round
send_round-Ends dialled write s = write_once-Ends write _ (connect_if_needed s.conn dialled s) refl

rounds-Ends_free :
    (net : Network) (left i : ℕ) (s : Stream) → s.conn ≡ none → Ends (send_rounds net left i s)
unfolding send_rounds
rounds-Ends_free net zero i s e = inr (refl, e)
rounds-Ends_free net (suc left) i s e =
    go_on-Ends _ _ (λ t. send_rounds net left (i + 1) t)
      (send_round-Ends (net.dial i) (net.write i) s) (λ t f. rounds-Ends_free net left (i + 1) t f)

rounds-Ends : (net : Network) (left i : ℕ) (s : Stream) → Ends (send_rounds net (suc left) i s)
unfolding send_rounds
rounds-Ends net left i s =
    go_on-Ends _ _ (λ t. send_rounds net left (i + 1) t)
      (send_round-Ends (net.dial i) (net.write i) s) (λ t f. rounds-Ends_free net left (i + 1) t f)

go_on-IsBalanced :
    (r : Result ℕ) (t : Stream) (rest : Stream → Result ℕ × Stream)
    → IsBalanced t
    → ((s : Stream) → IsBalanced s → IsBalanced (rest s).1)
    → IsBalanced (go_on (r, t) rest).1
go_on-IsBalanced (ok c) t rest h k = h
go_on-IsBalanced (err x) t rest h k = k t h

rounds-IsBalanced :
    (net : Network) (left i : ℕ) (s : Stream)
    → IsBalanced s
    → IsBalanced (send_rounds net left i s).1
unfolding send_rounds
rounds-IsBalanced net zero i s h = h
rounds-IsBalanced net (suc left) i s h =
    go_on-IsBalanced (send_round (net.dial i) (net.write i) s).0
      (send_round (net.dial i) (net.write i) s).1 (λ t. send_rounds net left (i + 1) t)
      (send_round-IsBalanced (net.dial i) (net.write i) s h) (rounds-IsBalanced net left (i + 1))

-- A send over TCP loses no connection: where every connection that was
-- opened and is not held has been closed, that is so after the send. It ends with the message on the
-- connection that is held, or with an error and no connection.
pub tcp_backend_send-keeps :
    (net : Network) (s : Stream)
    → IsBalanced s
    → IsBalanced (tcp_backend_send net s).1 × Ends (tcp_backend_send net s)
unfolding tcp_backend_send
tcp_backend_send-keeps net s h = (rounds-IsBalanced net 2 0 s h, rounds-Ends net 1 0 s)

-- The last round alone is enough.
go_on-ok :
    (p : Result ℕ × Stream) (rest : Stream → Result ℕ × Stream)
    → Ends p
    → ((s : Stream) → s.conn ≡ none → is_ok (rest s).0 ≡ true)
    → is_ok (go_on p rest).0 ≡ true
go_on-ok (ok c, t) rest h k = refl
go_on-ok (err x, t) rest (inl (c, (e, f))) k = absurd (cc)
go_on-ok (err x, t) rest (inr (e, f)) k = k t f

fresh_round :
    (dialled : Option ℕ) (write : ℕ → Bool) (s : Stream) (c : ℕ)
    → s.conn ≡ none
    → dialled ≡ some c
    → write c ≡ true
    → (send_round dialled write s).0 ≡ ok c
unfolding send_round connect_if_needed connected write_once log
fresh_round dialled write s c unheld d w = rw (send_round, unheld, d) (rw (write_once, w) refl)

-- A broken connection does not fail a send: if after a failed try the peer can be dialled and takes
-- the message on the new connection, the send succeeds, whatever became of the connection before.
pub tcp_backend_send-reconnects :
    (net : Network) (s : Stream) (c : ℕ)
    → net.dial 1 ≡ some c
    → net.write 1 c ≡ true
    → is_ok (tcp_backend_send net s).0 ≡ true
unfolding tcp_backend_send send_rounds
tcp_backend_send-reconnects net s c dialled written =
    go_on-ok (send_round (net.dial 0) (net.write 0) s) (λ t. send_rounds net 1 1 t)
      (send_round-Ends (net.dial 0) (net.write 0) s) last
  where
    last : (t : Stream) → t.conn ≡ none → is_ok (send_rounds net 1 1 t).0 ≡ true
    last t unheld =
        let done : (send_round (net.dial 1) (net.write 1) t).0 ≡ ok c =
          fresh_round (net.dial 1) (net.write 1) t c unheld dialled written in
        rw (send_rounds, done) (rw done refl)
