-- ===== src/BufferPool.antt =====
-- The pool of receive buffers, byte_array_pool.go. A buffer is its identity and its length; `fresh`
-- is the identity of a buffer that make returns.
use sipproxy.Prelude.{
  ℕ, ◌≤◌, ◌<◌, ◌≡◌, refl, ◌⊎◌, true, ◌||◌, Option, none, some, List, [], ◌∷◌, ◌++◌, arith, ltb, leb,
  if◌then◌else◌, length, All, inl, inr, Bool-cases, length-append, All-append,
}

pub record Buffer : Type 0 where
  pub identity : ℕ
  pub size : ℕ

pub record BufferPool : Type 0 where
  pub max_cap : ℕ
  pub array_size : ℕ
  pub pool : List Buffer

unfoldable pub new_buffer_pool : ℕ → ℕ → BufferPool
new_buffer_pool max_cap array_size = record {
  max_cap = max_cap;
  array_size = array_size;
  pool = [];
}

-- The last buffer, and those before it.
unfoldable pub take_last : List Buffer → Option (List Buffer × Buffer)
take_last [] = none
take_last (b ∷ bs) = elim (take_last bs) [
  | none ↦ some ([], b)
  | some (front, last) ↦ some (b ∷ front, last)
]

unfoldable pub alloc : ℕ → BufferPool → Buffer × BufferPool
unfolding take_last
alloc fresh p = elim (take_last p.pool) [
  | none ↦ (record { identity = fresh; size = p.array_size }, p)
  | some (front, last) ↦ (last, record p { pool = front })
]

unfoldable pub free : Buffer → BufferPool → BufferPool
free b p =
    if leb (length p.pool) 0 || ltb (length p.pool) p.max_cap
    then record p { pool = p.pool ++ b ∷ [] }
    else p

unfoldable pub pool_size : BufferPool → ℕ
pool_size p = length p.pool

take_last-append : (bs : List Buffer) (b : Buffer) → take_last (bs ++ b ∷ []) ≡ some (bs, b)
unfolding take_last
take_last-append [] b = refl
take_last-append (c ∷ bs) b = rw (take_last-append bs b)

-- A freed buffer that the pool keeps is the next one handed out, and the pool is as before; the pool
-- keeps it when it is empty or below its bound.
pub alloc-free :
    (fresh : ℕ) (b : Buffer) (p : BufferPool)
    → (length p.pool ≡ 0) ⊎ (length p.pool < p.max_cap)
    → alloc fresh (free b p) ≡ (b, p)
unfolding alloc free
alloc-free fresh b p h =
    let kept : (leb (length p.pool) 0 || ltb (length p.pool) p.max_cap) ≡ true = ground arith in
    let freed : free b p ≡ record p { pool = p.pool ++ b ∷ [] } = rw kept in
    rw freed (rw (take_last-append p.pool b, alloc))

-- No more buffers than the bound, or one buffer if the bound is 0, and each of the size of the pool.
pub record IsBufferPool (p : BufferPool) : Type 0 where
  pub bounded : (length p.pool ≤ p.max_cap) ⊎ (length p.pool ≤ 1)
  pub sized : All (λ b. b.size ≡ p.array_size) p.pool

-- Freeing a buffer of the pool's size never takes the pool above its bound, or above one buffer if the
-- bound is 0, and keeps every buffer at the size of the pool.
pub free-IsBufferPool :
    (b : Buffer) (p : BufferPool) → IsBufferPool p → b.size ≡ p.array_size → IsBufferPool (free b p)
unfolding free
free-IsBufferPool b p h e =
    elim (Bool-cases (leb (length p.pool) 0 || ltb (length p.pool) p.max_cap)) [
      | inl keeps ↦ rw keeps (record {
        bounded = rw (length-append p.pool (b ∷ [])) (grind arith);
        sized = All-append _ p.pool (b ∷ []) h.sized (e, tt);
      })
      | inr full ↦ rw full h
    ]
