-- ===== src/Pool/Members.antt =====
-- The backends that the pool knows, after a backend has joined or left.
use sipproxy.Dict.{dict_get, dict_get-put, Dict, dict_delete, dict_put, dict_get-delete}
use sipproxy.Pool.{
  Backend, Pool, without, first_of_address, make_room, join_pool, add_backend, get_pool_backend,
  remove_known, remove_backend, add_created, add_ips, remove_ips, host_ip_changed,
}
use sipproxy.Prelude.{
  if-keeps, ◌||◌, Result, ok, err, ◌++◌, ◌≡◌, refl, ap, ◌∙◌, inl, inr, none, some, List, [], ◌∷◌,
  ◌++◌, arith, if◌then◌else◌, Bool-cases, no_backend, ok, err, sym, false, Option-cases,
}
use sipproxy.Text.{Bytes, codes, str_eq}
use sipproxy.Text.Equality.{str_eq_refl, str_eq_iff}

-- A backend that was added is the one that its address finds.
pub get-add_backend : (b : Backend) (p : Pool) → get_pool_backend b.address (add_backend b p) ≡ ok b
unfolding get_pool_backend add_backend join_pool
get-add_backend b p =
    let found : dict_get b.address (add_backend b p).backend_map ≡ some b =
      dict_get-put b.address b.address b
        (make_room b (dict_get b.address p.backend_map) p).backend_map
      ∙ rw (str_eq_refl b.address) refl in
    ap (λ o. elim o [ some c ↦ ok c | none ↦ err no_backend ]) found

-- No two backends of the list have one address.
abbrev pub Unique : List Backend → Type 0
Unique [] = Unit
Unique (b ∷ bs) = (first_of_address b.address bs ≡ none) × Unique bs

-- The list and the map know the same backends.
abbrev pub IsPool : Pool → Type 0
IsPool p =
    Unique p.backends
    × ((address : Bytes) → first_of_address address p.backends ≡ dict_get address p.backend_map)

pub first_of_address-without :
    (k a : Bytes) (bs : List Backend)
    → Unique bs
    → first_of_address a (without k bs) ≡ (if str_eq k a then none else first_of_address a bs)
unfolding first_of_address without
first_of_address-without k a [] u = ground arith
first_of_address-without k a (b ∷ bs) u = ground (
  arith,
  u.0,
  str_eq_iff k a,
  str_eq_iff k b.address,
  str_eq_iff a b.address,
  first_of_address-without k a bs u.1,
)

pub first_of_address-append :
    (a : Bytes) (bs : List Backend) (b : Backend)
    → first_of_address a (bs ++ b ∷ []) ≡ elim (first_of_address a bs) [
      | some c ↦ some c
      | none ↦ (if str_eq a b.address then some b else none)
    ]
unfolding first_of_address
first_of_address-append a [] b = refl
first_of_address-append a (c ∷ bs) b = elim (Bool-cases (str_eq a c.address)) [
  | inl e ↦ rw e
  | inr e ↦ rw e (first_of_address-append a bs b)
]

Unique-without : (k : Bytes) (bs : List Backend) → Unique bs → Unique (without k bs)
unfolding without
Unique-without k [] u = tt
Unique-without k (b ∷ bs) u = elim (Bool-cases (str_eq k b.address)) [
  | inl e ↦ rw e u.1
  | inr e ↦ rw e (rw (first_of_address-without k b.address bs u.1, e) u.0, Unique-without k bs u.1)
]

Unique-append :
    (bs : List Backend) (b : Backend)
    → Unique bs
    → first_of_address b.address bs ≡ none
    → Unique (bs ++ b ∷ [])
unfolding first_of_address
Unique-append [] b u h = (h, tt)
Unique-append (c ∷ bs) b u h =
    let different : str_eq b.address c.address ≡ false = ground (arith, h) in
    let rest : first_of_address b.address bs ≡ none = ground (arith, h) in
    let other : str_eq c.address b.address ≡ false =
      ground (arith, different, str_eq_iff b.address c.address, str_eq_iff c.address b.address) in
    (rw (first_of_address-append c.address bs b, u.0, other) refl, Unique-append bs b u.1 rest)

abbrev pub Agree : List Backend → Dict Backend → Type 0
Agree bs d = (a : Bytes) → first_of_address a bs ≡ dict_get a d

joined-Agree :
    (b : Backend) (bs : List Backend) (d : Dict Backend)
    → first_of_address b.address bs ≡ none
    → Agree bs d
    → Agree (bs ++ b ∷ []) (dict_put b.address b d)
joined-Agree b bs d new h a =
    first_of_address-append a bs b ∙ by_address ∙ sym (dict_get-put b.address a b d)
  where
    by_address :
        elim (first_of_address a bs) [
          | some c ↦ some c
          | none ↦ (if str_eq a b.address then some b else none)
        ]
        ≡ (if str_eq b.address a then some b else dict_get a d)
    by_address = ground (arith, new, h a, str_eq_iff a b.address, str_eq_iff b.address a)

left-Agree :
    (k : Bytes) (bs : List Backend) (d : Dict Backend)
    → Unique bs
    → Agree bs d
    → Agree (without k bs) (dict_delete k d)
left-Agree k bs d u h a =
    ground (arith, first_of_address-without k a bs u, dict_get-delete k a d, h a)

join_pool-IsPool :
    (b : Backend) (p : Pool)
    → first_of_address b.address p.backends ≡ none
    → IsPool p
    → IsPool (join_pool b p)
unfolding join_pool
join_pool-IsPool b p new h =
    (Unique-append p.backends b h.0 new, joined-Agree b p.backends p.backend_map new h.1)

-- Adding a backend keeps the list and the map in step, and no address twice in the list, also where
-- the address was known before.
pub add_backend-IsPool : (b : Backend) (p : Pool) → IsPool p → IsPool (add_backend b p)
unfolding add_backend make_room
add_backend-IsPool b p h = elim (Option-cases (dict_get b.address p.backend_map)) [
  | inl e ↦ rw e (join_pool-IsPool b p (h.1 b.address ∙ e) h)
  | inr (c, e) ↦ rw e (
      join_pool-IsPool b (make_room b (some c) p)
        (first_of_address-without b.address b.address p.backends h.0
          ∙ rw (str_eq_refl b.address) refl)
        (
          Unique-without b.address p.backends h.0,
          left-Agree b.address p.backends p.backend_map h.0 h.1,
        ))
]

-- Removing the backend of an address keeps the list and the map in step, and no address twice in the
-- list.
pub remove_backend-IsPool : (a : Bytes) (p : Pool) → IsPool p → IsPool (remove_backend a p)
unfolding remove_backend remove_known
remove_backend-IsPool a p h = elim (Option-cases (dict_get a p.backend_map)) [
  | inl e ↦ rw e h
  | inr (c, e) ↦
      rw e (Unique-without a p.backends h.0, left-Agree a p.backends p.backend_map h.0 h.1)
]

-- After the removal of an address the map has no backend for it, and for every other address what it
-- had before.
pub get-remove_backend :
    (k a : Bytes) (p : Pool)
    → dict_get a (remove_backend k p).backend_map
      ≡ (if str_eq k a then none else dict_get a p.backend_map)
unfolding remove_backend remove_known
get-remove_backend k a p = elim (Option-cases (dict_get k p.backend_map)) [
  | inl e ↦ rw e (ground (arith, e, str_eq_iff k a))
  | inr (c, e) ↦ rw e (dict_get-delete k a p.backend_map)
]

add_created-IsPool :
    (r : Result Backend × Dict Backend) (p : Pool) → IsPool p → IsPool (add_created r p).0
unfolding add_created
add_created-IsPool (ok b, d) p h = add_backend-IsPool b p h
add_created-IsPool (err e, d) p h = h

module _ (protocol local : Bytes) (hostport : Bytes → Bytes) (create : Bytes → Result Backend) where
  add_ips-IsPool :
      (ips : List Bytes) (s : Pool × Dict Backend)
      → IsPool s.0
      → IsPool (add_ips protocol local hostport create ips s).0
  unfolding add_ips
  add_ips-IsPool [] s h = h
  add_ips-IsPool (ip ∷ ips) (p, d) h = add_ips-IsPool ips _ (add_created-IsPool _ p h)

  remove_ips-IsPool :
      (ips : List Bytes) (s : Pool × Dict Backend)
      → IsPool s.0
      → IsPool (remove_ips protocol local hostport ips s).0
  unfolding remove_ips
  remove_ips-IsPool [] s h = h
  remove_ips-IsPool (ip ∷ ips) (p, d) h =
      remove_ips-IsPool ips _ (remove_backend-IsPool (protocol ++ (codes "://" ++ hostport ip)) p h)

  -- A change of the addresses of a host keeps the pool in step.
  pub host_ip_changed-IsPool :
      (new_ips removed_ips : List Bytes) (s : Pool × Dict Backend)
      → IsPool s.0
      → IsPool (host_ip_changed protocol local hostport create new_ips removed_ips s).0
  unfolding host_ip_changed
  host_ip_changed-IsPool new_ips removed_ips s h =
      if-keeps (λ (t : Pool × Dict Backend). IsPool t.0)
        (str_eq protocol (codes "udp") || str_eq protocol (codes "tcp"))
        (remove_ips protocol local hostport removed_ips
          (add_ips protocol local hostport create new_ips s))
        s (remove_ips-IsPool removed_ips _ (add_ips-IsPool new_ips s h)) h
