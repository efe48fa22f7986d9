-- ===== src/Message/Transactions.antt =====
-- Which transaction a message belongs to: that of its first via-param and of the method of its CSeq,
-- whatever the rest of its headers say and whether they are parsed or not.
use sipproxy.CSeq.{CSeq, parse_cseq}
use sipproxy.Message.{
  HeaderValue, cseq_value, Header, Message, add_compact, lookup_compact, compact_names, get_compact,
  same_compact, is_same_header,
}
use sipproxy.Message.Access.{
  ◌>>=◌, pure, M, on_first, on_header, bind-ok, get_via, get_cseq, read_value, to_cseq, via_params,
  lift,
}
use sipproxy.Message.Ids.{get_top_via_branch, client_transaction, get_client_transaction}
use sipproxy.Message.Vias.{
  is_via, IsReadable, other_headers, find-Top, get_via-top, via_params_skip,
}
use sipproxy.Prelude.{
  ◌≡◌, refl, sym, ap, ◌∙◌, inl, inr, true, false, List, [], ◌∷◌, Bool-cases, All, Result, ok, err,
  no_transaction, if◌then◌else◌,
}
use sipproxy.Text.{Bytes, codes, str_eq, to_lower, equal_fold}
use sipproxy.Text.Equality.{str_eq_sound}
use sipproxy.Via.{ViaParam, Via, get_via_param, get_branch}

abbrev cseq_name : Bytes
cseq_name = codes "CSeq"

-- No spelling of a Via is one of a CSeq.
via-not_cseq : (h : Header) → is_via h ≡ true → is_same_header h.name cseq_name ≡ false
unfolding is_same_header same_compact get_compact lookup_compact compact_names add_compact
    equal_fold to_lower str_eq
via-not_cseq h e = elim (Bool-cases (str_eq (to_lower h.name) (codes "via"))) [
  | inl long ↦ rw (str_eq_sound (to_lower h.name) (codes "via") long) refl
  | inr other ↦
      let short : str_eq (to_lower h.name) (codes "v") ≡ true = rw other at e in
      rw (str_eq_sound (to_lower h.name) (codes "v") short) refl
]

cseq-not_via : (h : Header) → is_same_header h.name cseq_name ≡ true → is_via h ≡ false
cseq-not_via h k = elim (Bool-cases (is_via h)) [
  | inl e ↦ let no : is_same_header h.name cseq_name ≡ false = via-not_cseq h e in cc
  | inr e ↦ e
]

via_params-cons :
    (h : Header) (hs ks : List Header)
    → via_params hs ≡ via_params ks
    → via_params (h ∷ hs) ≡ via_params (h ∷ ks)
unfolding via_params
via_params-cons h hs ks e = rw e refl

module _ (f : HeaderValue → Result CSeq × HeaderValue) where
  on_first-others :
      (hs : List Header) → (on_first cseq_name f hs).0 ≡ (on_first cseq_name f (other_headers hs)).0
  unfolding on_first other_headers
  on_first-others [] = refl
  on_first-others (h ∷ hs) = elim (Bool-cases (is_via h)) [
    | inl e ↦ rw (e, via-not_cseq h e) (on_first-others hs)
    | inr e ↦ elim (Bool-cases (is_same_header h.name cseq_name)) [
      | inl k ↦ rw (e, on_first, k) refl
      | inr k ↦ rw (e, on_first, k) (on_first-others hs)
    ]
  ]

  on_first-vias : (hs : List Header) → via_params (on_first cseq_name f hs).1 ≡ via_params hs
  unfolding on_first
  on_first-vias [] = refl
  on_first-vias (h ∷ hs) = elim (Bool-cases (is_same_header h.name cseq_name)) [
    | inl k ↦
        rw (on_first, k)
          (via_params_skip (record h { content = (f h.content).1 }) hs (cseq-not_via h k)
            ∙ sym (via_params_skip h hs (cseq-not_via h k)))
    | inr k ↦ rw (on_first, k) (via_params-cons h _ hs (on_first-vias hs))
  ]

  on_first-IsReadable :
      (hs : List Header) → All IsReadable hs → All IsReadable (on_first cseq_name f hs).1
  unfolding on_first
  on_first-IsReadable [] r = tt
  on_first-IsReadable (h ∷ hs) r = elim (Bool-cases (is_same_header h.name cseq_name)) [
    | inl k ↦ rw (on_first, k) (inl (cseq-not_via h k), r.1)
    | inr k ↦ rw (on_first, k) (r.0, on_first-IsReadable hs r.1)
  ]

abbrev read_cseq : HeaderValue → Result CSeq × HeaderValue
read_cseq = read_value to_cseq cseq_value parse_cseq

-- Messages that differ in their Via headers only have one CSeq.
pub get_cseq-others :
    (m n : Message)
    → other_headers m.headers ≡ other_headers n.headers
    → (get_cseq m).0 ≡ (get_cseq n).0
unfolding get_cseq on_header
get_cseq-others m n e =
    on_first-others read_cseq m.headers
    ∙ ap (λ hs. (on_first cseq_name read_cseq hs).0) e
    ∙ sym (on_first-others read_cseq n.headers)

cseq_vias : (m : Message) → via_params (get_cseq m).1.headers ≡ via_params m.headers
unfolding get_cseq on_header
cseq_vias m = on_first-vias read_cseq m.headers

cseq_IsReadable : (m : Message) → All IsReadable m.headers → All IsReadable (get_cseq m).1.headers
unfolding get_cseq on_header
cseq_IsReadable m = on_first-IsReadable read_cseq m.headers

abbrev branch_of_top : Via → M Bytes
branch_of_top v n = elim (get_via_param v 0) [ ok p ↦ (get_branch p, n) | err e ↦ (err e, n) ]

top_branch :
    (m : Message) (p : ViaParam) (ps : List ViaParam)
    → All IsReadable m.headers
    → via_params m.headers ≡ p ∷ ps
    → (get_top_via_branch m).0 ≡ get_branch p
unfolding get_top_via_branch get_via_param
top_branch m p ps r v =
    ap (λ x. x.0)
      (bind-ok get_via branch_of_top m (get_via-top m p ps (find-Top m.headers p ps r v)))

abbrev with_method : CSeq → M Bytes
with_method c = do b ← get_top_via_branch; pure (client_transaction c.method b)

abbrev unless_ack : CSeq → M Bytes
unless_ack c = if str_eq c.method (codes "ACK") then lift (err no_transaction) else with_method c

-- The transaction is that of the first via-param's branch and of the method, which is not ACK.
pub get_client_transaction-vias :
    (m : Message) (p : ViaParam) (ps : List ViaParam) (c : CSeq) (branch : Bytes)
    → All IsReadable m.headers
    → via_params m.headers ≡ p ∷ ps
    → (get_cseq m).0 ≡ ok c
    → str_eq c.method (codes "ACK") ≡ false
    → get_branch p ≡ ok branch
    → (get_client_transaction m).0 ≡ ok (client_transaction c.method branch)
unfolding get_client_transaction
get_client_transaction-vias m p ps c branch r v cseq other b =
    let n : Message = (get_cseq m).1 in
    let found : (get_top_via_branch n).0 ≡ ok branch =
      top_branch n p ps (cseq_IsReadable m r) (cseq_vias m ∙ v) ∙ b in
    let read : get_cseq m ≡ (ok c, n) = ap (λ (x : Result CSeq). (x, n)) cseq in
    let top : get_top_via_branch n ≡ (ok branch, (get_top_via_branch n).1) =
      ap (λ (x : Result Bytes). (x, (get_top_via_branch n).1)) found in
    let chosen : unless_ack c n ≡ with_method c n = rw other refl in
    ap (λ (x : Result Bytes × Message). x.0)
      (bind-ok get_cseq unless_ack m read
        ∙ chosen
        ∙ bind-ok get_top_via_branch (λ b. pure (client_transaction c.method b)) n top)
