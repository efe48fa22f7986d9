-- ===== src/Session/Redis.antt =====
-- The Redis session store: which client takes a command, and what a published text does elsewhere.
use sipproxy.Prelude.{
  ℕ, zero, suc, ◌+◌, ◌%◌, ◌<◌, ◌≡◌, refl, ap, ◌∙◌, ◌⊎◌, inl, inr, Bool, true, false, none, some, [],
  ◌∷◌, arith, Bool-cases, Option-cases, send_failed, ok, err, ℤ, ◌++◌,
}
use sipproxy.Session.{
  RedisSessions, set_backend_address, remove_address, clamp_int32, session_backend_updated,
  receive_update, add_text, delete_text, try_clients, for_each_redis,
}
use sipproxy.Text.{Bytes, codes, lacks, split}
use sipproxy.Text.Number.{itoa}
use sipproxy.Text.Number.RoundTrip.{IsInt, atoi_full-itoa, lacks-itoa}
use sipproxy.Text.Split.{split-lacks, split-append}

try_clients_sound :
    (publish : ℕ → Bool) (n master left i j : ℕ)
    → try_clients publish n master left i ≡ some j
    → publish j ≡ true
unfolding try_clients
try_clients_sound publish n master zero i j h = cc
try_clients_sound publish n master (suc left) i j h =
    elim (Bool-cases (publish ((master + i) % n))) [
      | inl e ↦
          let same : some ((master + i) % n) ≡ some j = rw e at h in
          let same_index : (master + i) % n ≡ j = cc in rw (← same_index) e
      | inr e ↦ try_clients_sound publish n master left (i + 1) j (rw e at h)
    ]

shift : (i k : ℕ) → i + suc k ≡ i + 1 + k
shift i k = omega arith

try_clients-none :
    (publish : ℕ → Bool) (n master left i k : ℕ)
    → try_clients publish n master left i ≡ none
    → k < left
    → publish ((master + (i + k)) % n) ≡ false
unfolding try_clients
try_clients-none publish n master zero i k h l = absurd (omega (arith, l))
try_clients-none publish n master (suc left) i zero h l =
    let here : i + 0 ≡ i = omega arith in rw here (ground (arith, h))
try_clients-none publish n master (suc left) i (suc k) h l =
    let rest : try_clients publish n master left (i + 1) ≡ none = ground (arith, h) in
    rw (shift i k) (try_clients-none publish n master left (i + 1) k rest (omega (arith, l)))

zero_left : (k : ℕ) → 0 + k ≡ k
zero_left k = omega arith

-- A command that succeeds was taken by the client that is then the master; one that fails was
-- refused by every client, and the master stays.
pub for_each_redis_lem :
    (publish : ℕ → Bool) (n master : ℕ)
    → ((j : ℕ) × ((for_each_redis publish n master ≡ (ok j, j)) × (publish j ≡ true)))
      ⊎ ((for_each_redis publish n master ≡ (err send_failed, master))
          × ((k : ℕ) → k < n → publish ((master + k) % n) ≡ false))
unfolding for_each_redis
for_each_redis_lem publish n master = elim (Option-cases (try_clients publish n master n 0)) [
  | inl e ↦ inr (
    rw (for_each_redis, e) refl,
    λ k l. rw (← zero_left k) (try_clients-none publish n master n 0 k e l),
  )
  | inr (j, e) ↦ inl (j, (rw (for_each_redis, e) refl, try_clients_sound publish n master n 0 j e))
]

-- The text that one instance publishes when it stores a session has the effect on another instance
-- of storing the same address there, with the seconds brought into the range of an int32; if the
-- identifier and the address hold no space and the seconds are an int.
pub receive-add_text :
    (id address : Bytes) (seconds : ℤ) (test clean now : ℕ) (entry_now : Bytes → ℕ)
    (s : RedisSessions)
    → lacks b' ' id ≡ true
    → lacks b' ' address ≡ true
    → IsInt seconds
    → receive_update test clean entry_now now (add_text id address seconds) s
      ≡ set_backend_address id address (clamp_int32 seconds) test clean entry_now now s
unfolding receive_update add_text session_backend_updated
receive-add_text id address seconds test clean now entry_now s i a n =
    let texts : split (add_text id address seconds) b' '
        ≡ codes "add" ∷ id ∷ address ∷ itoa seconds ∷ [] =
      split-append (codes "add") (id ++ (b' ' ∷ (address ++ (b' ' ∷ itoa seconds)))) b' ' refl
      ∙ ap (λ ts. codes "add" ∷ ts)
          (split-append id (address ++ (b' ' ∷ itoa seconds)) b' ' i
            ∙ ap (λ ts. id ∷ ts)
                (split-append address (itoa seconds) b' ' a
                  ∙ ap (λ ts. address ∷ ts)
                      (split-lacks (itoa seconds) b' ' (lacks-itoa b' ' seconds refl refl)))) in
    rw (texts, atoi_full-itoa seconds n) refl

-- The text that is published when a session ends has the effect on another instance of removing the
-- address there, if the identifier holds no space.
pub receive-delete_text :
    (id : Bytes) (test clean now : ℕ) (entry_now : Bytes → ℕ) (s : RedisSessions)
    → lacks b' ' id ≡ true
    → receive_update test clean entry_now now (delete_text id) s ≡ (remove_address id s).1
unfolding receive_update delete_text session_backend_updated
receive-delete_text id test clean now entry_now s i =
    let texts : split (delete_text id) b' ' ≡ codes "delete" ∷ id ∷ [] =
      split-append (codes "delete") id b' ' refl
      ∙ ap (λ ts. codes "delete" ∷ ts) (split-lacks id b' ' i) in
    ap (λ ts. session_backend_updated test clean entry_now now ts s) texts
