-- ===== src/Message/Headers.antt =====
-- Laws of the list of headers: what an accessor finds behind an insertion, and what a removal leaves.
use sipproxy.Message.{
  HeaderValue, via_value, Header, Message, is_same_header, find_header, find_header_pos,
  remove_first, remove_header, insert_at, find_via_insert_pos, add_via,
}
use sipproxy.Message.Access.{
  read_value, on_first, on_header, store, to_via, get_via, pop_via, bind-ok, pop_found_via, pure,
  then-ok, split_off,
}
use sipproxy.Prelude.{
  ◌>>=◌, ℕ, zero, suc, ◌+◌, ◌≤◌, ◌≡◌, refl, inl, inr, true, false, List, [], ◌∷◌, arith, ltb,
  Bool-cases, take, All, Result, ok, err, value_or, ◌∙◌, length,
}
use sipproxy.Text.{Bytes, codes}
use sipproxy.Via.{ViaParam, Via, new_via, add_via_param, pop_via_param, size, parse_via}

add-one : (i : ℕ) → i + 1 ≡ suc i
add-one i = omega arith

-- No header in front of the position has the name.
abbrev pub NoneBefore : Bytes → ℕ → List Header → Type 0
NoneBefore name i hs = All (λ h. is_same_header h.name name ≡ false) (take i hs)

-- The position at which the first header of the name stands, or 0, has none of them before it.
pub find_header_pos-NoneBefore :
    (name : Bytes) (hs : List Header) → NoneBefore name (value_or (find_header_pos name hs) 0) hs
unfolding find_header_pos
find_header_pos-NoneBefore name [] = tt
find_header_pos-NoneBefore name (h ∷ hs) = elim (Bool-cases (is_same_header h.name name)) [
  | inl same ↦ rw same tt
  | inr other ↦
      rw other (later other (find_header_pos name hs) (find_header_pos-NoneBefore name hs))
]
  where
    later :
        is_same_header h.name name ≡ false
        → (r : Result ℕ) → NoneBefore name (value_or r 0) hs
        → NoneBefore name (value_or (r >>= λ i. ok (i + 1)) 0) (h ∷ hs)
    later other (ok i) g = rw (add-one i) (other, g)
    later other (err e) g = tt

module _ {A : Type 0} (name : Bytes) (f : HeaderValue → Result A × HeaderValue) (h : Header)
    (same : is_same_header h.name name ≡ true) where
  pub on_first-insert_at :
      (i : ℕ) (hs : List Header)
      → NoneBefore name i hs
      → on_first name f (insert_at i h hs)
        ≡ ((f h.content).0, insert_at i (record h { content = (f h.content).1 }) hs)
  unfolding on_first insert_at
  on_first-insert_at zero hs n = rw same
  on_first-insert_at (suc i) [] n = rw same
  on_first-insert_at (suc i) (x ∷ hs) n = rw n.0 (rw (on_first-insert_at i hs n.1))

module _ (name : Bytes) (h : Header) (same : is_same_header h.name name ≡ true) where
  pub remove_first-insert_at :
      (i : ℕ) (hs : List Header)
      → NoneBefore name i hs
      → remove_first name (insert_at i h hs) ≡ (ok h.content, hs)
  unfolding remove_first insert_at
  remove_first-insert_at zero hs n = rw same
  remove_first-insert_at (suc i) [] n = rw same
  remove_first-insert_at (suc i) (x ∷ hs) n = rw n.0 (rw (remove_first-insert_at i hs n.1))

  pub find_header-insert_at :
      (i : ℕ) (hs : List Header) → NoneBefore name i hs → find_header name (insert_at i h hs) ≡ ok h
  unfolding find_header insert_at
  find_header-insert_at zero hs n = rw same
  find_header-insert_at (suc i) [] n = rw same
  find_header-insert_at (suc i) (x ∷ hs) n = rw n.0 (find_header-insert_at i hs n.1)

abbrev via_header : Via → Header
via_header v = record { name = codes "Via"; content = via_value v }

via_same : is_same_header (codes "Via") (codes "Via") ≡ true
unfolding is_same_header
via_same = refl

module _ (v : Via) (m : Message) where
  via_place : NoneBefore (codes "Via") (find_via_insert_pos m) m.headers
  unfolding find_via_insert_pos
  via_place = find_header_pos-NoneBefore (codes "Via") m.headers

  pub on_header-add_via :
      {A : Type 0} (f : HeaderValue → Result A × HeaderValue) (w : Via)
      → (f (via_value v)).1 ≡ via_value w
      → on_header (codes "Via") f (add_via v m) ≡ ((f (via_value v)).0, add_via w m)
  unfolding on_header add_via
  on_header-add_via f w e =
      rw (on_first-insert_at (codes "Via") f (via_header v) via_same _ m.headers via_place, e)

  -- The Via header that was added last is the one that the accessor finds, unchanged.
  pub get-add_via : get_via (add_via v m) ≡ (ok v, add_via v m)
  unfolding get_via read_value
  get-add_via = on_header-add_via (read_value to_via via_value parse_via) v refl

  remove-add_via : remove_header (codes "Via") (add_via v m) ≡ (ok (via_value v), m)
  unfolding remove_header add_via
  remove-add_via =
      rw (remove_first-insert_at (codes "Via") (via_header v) via_same _ m.headers via_place)

  -- Popping a Via header that was added with one via-param undoes the addition: the message is as
  -- before, in every header and at every position.
  pub pop-add_via : size v ≤ 1 → pop_via (add_via v m) ≡ (ok v, m)
  unfolding pop_via pop_found_via
  pop-add_via h =
      let single : ltb 1 (size v) ≡ false = ground (arith, h) in
      bind-ok get_via pop_found_via (add_via v m) get-add_via
      ∙ rw single (then-ok (remove_header (codes "Via")) (pure v) (add_via v m) remove-add_via)

-- Popping takes the first of several via-params and leaves the others where they were.
pub pop-add_via_several :
    (p q : ViaParam) (ps : List ViaParam) (m : Message)
    → pop_via (add_via (record { params = p ∷ q ∷ ps }) m)
      ≡ (ok (record { params = p ∷ [] }), add_via (record { params = q ∷ ps }) m)
unfolding pop_via pop_found_via split_off size pop_via_param add_via_param new_via
pop-add_via_several p q ps m =
    let v : Via = record { params = p ∷ q ∷ ps } in
    let w : Via = record { params = q ∷ ps } in
    let stored : on_header (codes "Via") (store (via_value w)) (add_via v m)
        ≡ (ok tt, add_via w m) =
      on_header-add_via v m (store (via_value w)) w refl in
    let several : ltb 1 (suc (suc (length ps))) ≡ true = ground arith in
    bind-ok get_via pop_found_via (add_via v m) (get-add_via v m)
    ∙ rw several (
        then-ok (on_header (codes "Via") (store (via_value w))) (split_off (pop_via_param v).0)
          (add_via v m) stored)
