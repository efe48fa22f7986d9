-- ===== src/Pool/Rotation.antt =====
-- Send and the rotation of the pool's index.
use native.Mathlib.Nat.{mod-eq_of_lt, add-mod_left, mod-lt}
use mathlib.Core.Path.{ap₂}
use sipproxy.Pool.{
  Backend, Pool, get_backend_at, try_backends, get_backend_count, get_next_backend_index,
  send_after, pool_send,
}
use sipproxy.Prelude.{
  ℕ, zero, suc, ◌+◌, ◌≤◌, ◌<◌, ◌≡◌, refl, inl, inr, Bool, none, some, List, [], ◌∷◌, ◌++◌, arith,
  if◌then◌else◌, Bool-cases, Option-cases, length, get_elem?, take, drop, send_failed, Result, ok,
  err, ◌-◌, ◌%◌, sym, ap, ◌∙◌, ◌≢◌, Option, false, leb,
}

-- The first backend of a list that takes the message.
unfoldable pub first_delivering : (Backend → Bool) → List Backend → Result Backend
first_delivering delivers [] = err send_failed
first_delivering delivers (b ∷ bs) =
    let rest = first_delivering delivers bs in if delivers b then ok b else rest

-- The list from a position on, and then from its start to that position.
unfoldable pub rotated : {A : Type 0} → ℕ → List A → List A
rotated i xs = drop i xs ++ take i xs

visit : Option Backend → List Backend → List Backend
visit none bs = bs
visit (some b) bs = b ∷ bs

-- The backends that the `n` tries from an index on meet, in order.
tries : Pool → ℕ → ℕ → List Backend
unfolding get_backend_at visit
tries p zero i = []
tries p (suc n) i = visit (get_backend_at p i) (tries p n (i + 1))

try_backends-tries :
    (delivers : Backend → Bool) (p : Pool) (n i : ℕ)
    → (try_backends delivers p n i).0 ≡ first_delivering delivers (tries p n i)
unfolding try_backends tries visit first_delivering
try_backends-tries delivers p zero i = refl
try_backends-tries delivers p (suc n) i = elim (Option-cases (get_backend_at p i)) [
  | inl e ↦ rw (try_backends, tries, e) (try_backends-tries delivers p n (i + 1))
  | inr (b, e) ↦ elim (Bool-cases (delivers b)) [
    | inl d ↦ rw (try_backends, tries, e) (rw d refl)
    | inr d ↦ rw (try_backends, tries, e) (rw d (try_backends-tries delivers p n (i + 1)))
  ]
]

get_elem-drop :
    {A : Type 0} (xs : List A) (i : ℕ)
    → i < length xs
    → (x : A) × ((get_elem? xs i ≡ some x) × (drop i xs ≡ x ∷ drop (suc i) xs))
get_elem-drop [] i h = absurd (omega (arith, h))
get_elem-drop (x ∷ xs) zero h = (x, (refl, refl))
get_elem-drop (x ∷ xs) (suc i) h = get_elem-drop xs i (omega (arith, h))

succ : (i : ℕ) → i + 1 ≡ suc i
succ i = omega arith

-- Tries that do not reach the end of the list meet its backends one after another.
tries_within :
    (p : Pool) (n i : ℕ) → i + n ≤ length p.backends → tries p n i ≡ take n (drop i p.backends)
unfolding tries get_backend_at visit
tries_within p zero i h = refl
tries_within p (suc n) i h =
    let l : i < length p.backends = omega (arith, h) in
    let at = get_elem-drop p.backends i l in
    let rest : tries p n (i + 1) ≡ take n (drop (suc i) p.backends) =
      ap (tries p n) (succ i) ∙ tries_within p n (suc i) (omega (arith, h)) in
    ap₂ visit (ap (get_elem? p.backends) (mod-eq_of_lt l) ∙ at.1.0) rest
    ∙ ap (take (suc n)) (sym at.1.1)

-- A whole turn of the index changes nothing.
tries_turn : (p : Pool) (n i : ℕ) → tries p n (length p.backends + i) ≡ tries p n i
unfolding tries get_backend_at
tries_turn p zero i = refl
tries_turn p (suc n) i =
    ap₂ visit (ap (get_elem? p.backends) (add-mod_left (length p.backends) i))
      (ap (tries p n) turn ∙ tries_turn p n (i + 1))
  where
    turn : length p.backends + i + 1 ≡ length p.backends + (i + 1)
    turn = omega arith

visit-append : (o : Option Backend) (xs ys : List Backend) → visit o (xs ++ ys) ≡ visit o xs ++ ys
unfolding visit
visit-append none xs ys = refl
visit-append (some b) xs ys = refl

tries-append : (p : Pool) (a b i : ℕ) → tries p (a + b) i ≡ tries p a i ++ tries p b (i + a)
unfolding tries
tries-append p zero b i =
    let left : 0 + b ≡ b = omega arith in
    let right : i ≡ i + 0 = omega arith in ap₂ (tries p) left right
tries-append p (suc a) b i =
    let left : suc a + b ≡ suc (a + b) = omega arith in
    let right : i + 1 + a ≡ i + suc a = omega arith in
    ap (λ n. tries p n i) left
    ∙ ap (visit (get_backend_at p i)) (tries-append p a b (i + 1))
    ∙ visit-append (get_backend_at p i) (tries p a (i + 1)) (tries p b (i + 1 + a))
    ∙ ap (λ j. visit (get_backend_at p i) (tries p a (i + 1)) ++ tries p b j) right

take_all : {A : Type 0} (n : ℕ) (xs : List A) → length xs ≤ n → take n xs ≡ xs
take_all zero [] h = refl
take_all (suc n) [] h = refl
take_all zero (x ∷ xs) h = absurd (omega (arith, h))
take_all (suc n) (x ∷ xs) h = ap (λ ys. x ∷ ys) (take_all n xs (omega (arith, h)))

length-drop : {A : Type 0} (n k : ℕ) (xs : List A) → length xs ≤ n + k → length (drop n xs) ≤ k
length-drop zero k xs h = omega (arith, h)
length-drop (suc n) k [] h = omega arith
length-drop (suc n) k (x ∷ xs) h = length-drop n k xs (omega (arith, h))

-- As many tries as there are backends meet each once, from the index on and round to it.
tries_round :
    (p : Pool) (i : ℕ)
    → i ≤ length p.backends
    → tries p (length p.backends) i ≡ rotated i p.backends
unfolding rotated
tries_round p i h =
    let n : ℕ = length p.backends in
    let k : ℕ = n - i in
    let whole : n ≡ k + i = omega (arith, h) in
    let back : i + k ≡ n + 0 = omega (arith, h) in
    ap (λ j. tries p j i) whole
    ∙ tries-append p k i i
    ∙ ap₂ (λ xs ys. xs ++ ys)
        (tries_within p k i (omega (arith, h))
          ∙ take_all k (drop i p.backends) (length-drop i k p.backends (omega (arith, h))))
        (ap (tries p i) back ∙ tries_turn p i 0 ∙ tries_within p i 0 (omega (arith, h)))

length-positive : {A : Type 0} (xs : List A) → xs ≢ [] → 0 < length xs
length-positive [] h = absurd (h refl)
length-positive (x ∷ xs) h = omega arith

-- Where a send of a pool that has a backend goes: the index moves on by one, round the list, and the message goes to the first
-- backend that takes it, in the order of the list from the new index on and round to it. It fails only
-- if every backend refuses it.
pub pool_send_lem :
    (delivers : Backend → Bool) (p : Pool)
    → p.backends ≢ []
    → let i = (p.index + 1) % length p.backends in
      ((pool_send delivers p).0 ≡ first_delivering delivers (rotated i p.backends))
      × ((pool_send delivers p).2 ≡ record p { index = i })
unfolding pool_send send_after get_next_backend_index get_backend_count
pool_send_lem delivers p ne =
    let n : ℕ = length p.backends in
    let some_backend : 0 < n = length-positive p.backends ne in
    let several : leb n 0 ≡ false = ground (arith, some_backend) in
    let i : ℕ = (p.index + 1) % n in
    let below : i < n = mod-lt (p.index + 1) some_backend in
    rw several (
      try_backends-tries delivers (record p { index = i }) n i
          ∙ ap (first_delivering delivers)
              (tries_round (record p { index = i }) i (omega (arith, below))),
      refl,
    )
