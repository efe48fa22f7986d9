-- ===== src/Message/Vias.antt =====
-- The Via headers of a message as it stands: texts still or parsed, with one via-param to a header or
-- several. What the accessors make of the first of them.
use sipproxy.Message.{HeaderValue, raw, via_value, Header, Message, is_same_header, remove_first}
use sipproxy.Message.Access.{
  parsed, read_value, on_first, on_header, to_via, get_via, via_of, via_params,
}
use sipproxy.Prelude.{
  ◌≡◌, ◌≢◌, ◌⊎◌, refl, sym, ap, ◌∙◌, inl, inr, Bool, true, false, none, some, List, [], ◌∷◌, ◌++◌,
  if◌then◌else◌, All, Result, ok, err,
}
use sipproxy.Text.{Bytes, codes}
use sipproxy.Via.{ViaParam, Via, parse_via}

abbrev pub via_name : Bytes
via_name = codes "Via"

abbrev pub is_via : Header → Bool
is_via h = is_same_header h.name via_name

-- The header is no Via, in any spelling of the name, or one with via-params that can be read.
abbrev pub IsReadable : Header → Type 0
IsReadable h =
    (is_via h ≡ false)
    ⊎ ((is_via h ≡ true) × ((v : Via) × (via_of h.content ≡ some v) × (v.params ≢ [])))

-- The headers that are no Via.
unfoldable pub other_headers : List Header → List Header
other_headers [] = []
other_headers (h ∷ hs) = if is_via h then other_headers hs else h ∷ other_headers hs

abbrev pub NotVia : Header → Type 0
NotVia h = is_via h ≡ false

-- The first Via header, with its via-params.
pub record Top (hs : List Header) (p : ViaParam) (ps : List ViaParam) : Type 0 where
  pub before : List Header
  pub top : Header
  pub behind : List Header
  pub more : List ViaParam
  pub split : hs ≡ before ++ top ∷ behind
  pub none_before : All NotVia before
  pub named : is_via top ≡ true
  pub value : via_of top.content ≡ some (record { params = p ∷ more })
  pub rest : ps ≡ more ++ via_params behind
  pub readable : All IsReadable behind

pub via_params_skip :
    (h : Header) (hs : List Header) → is_via h ≡ false → via_params (h ∷ hs) ≡ via_params hs
unfolding via_params
via_params_skip h hs e = rw e refl

via_params_take :
    (h : Header) (hs : List Header) (v : Via)
    → is_via h ≡ true
    → via_of h.content ≡ some v
    → via_params (h ∷ hs) ≡ v.params ++ via_params hs
unfolding via_params
via_params_take h hs v e f = rw (e, f) refl

Top-here :
    (h : Header) (hs : List Header) (qs : List ViaParam) (p : ViaParam) (ps : List ViaParam)
    → is_via h ≡ true
    → via_of h.content ≡ some (record { params = qs })
    → qs ≢ []
    → All IsReadable hs
    → via_params (h ∷ hs) ≡ p ∷ ps
    → Top (h ∷ hs) p ps
Top-here h hs [] p ps e f n r k = absurd (n refl)
Top-here h hs (q ∷ qs) p ps e f n r k =
    let both : q ∷ (qs ++ via_params hs) ≡ p ∷ ps = sym (via_params_take h hs _ e f) ∙ k in
    let first : q ≡ p = cc in
    let others : qs ++ via_params hs ≡ ps = cc in
    record {
      before = [];
      top = h;
      behind = hs;
      more = qs;
      split = refl;
      none_before = tt;
      named = e;
      value = f ∙ ap (λ x. some (record { params = x ∷ qs })) first;
      rest = sym others;
      readable = r;
    }

pub find-Top :
    (hs : List Header) (p : ViaParam) (ps : List ViaParam)
    → All IsReadable hs
    → via_params hs ≡ p ∷ ps
    → Top hs p ps
unfolding via_params
find-Top [] p ps r k = cc
find-Top (h ∷ hs) p ps (inl e, r) k =
    let t : Top hs p ps = find-Top hs p ps r (sym (via_params_skip h hs e) ∙ k) in
    record {
      before = h ∷ t.before;
      top = t.top;
      behind = t.behind;
      more = t.more;
      split = ap (λ x. h ∷ x) t.split;
      none_before = (e, t.none_before);
      named = t.named;
      value = t.value;
      rest = t.rest;
      readable = t.readable;
    }
find-Top (h ∷ hs) p ps (inr (e, (v, f, n)), r) k = Top-here h hs v.params p ps e f n r k

-- An accessor reads what ForEachViaParam reads.
read_text :
    (s : Bytes) (o : Result Via) (v : Via)
    → elim o [ ok w ↦ some w | err _ ↦ none ] ≡ some v
    → parsed via_value (raw s) o ≡ (ok v, via_value v)
unfolding parsed
read_text s (ok w) v h = let same : w ≡ v = cc in ap (λ x. (ok x, via_value x)) same
read_text s (err e) v h = cc

read_via :
    (c : HeaderValue) (v : Via)
    → via_of c ≡ some v
    → read_value to_via via_value parse_via c ≡ (ok v, via_value v)
unfolding via_of read_value
read_via (raw s) v h = read_text s (parse_via s) v h
read_via (via_value w) v h = let same : w ≡ v = cc in ap (λ x. (ok x, via_value x)) same
read_via c v h = cc

module _ (top : Header) (behind : List Header) (named : is_via top ≡ true) where
  pub on_first-top :
      {A : Type 0} (f : HeaderValue → Result A × HeaderValue) (before : List Header)
      → All NotVia before
      → on_first via_name f (before ++ top ∷ behind)
        ≡ ((f top.content).0, before ++ record top { content = (f top.content).1 } ∷ behind)
  unfolding on_first
  on_first-top f [] h = rw named refl
  on_first-top f (x ∷ before) h = rw h.0 (rw (on_first-top f before h.1) refl)

  pub remove_first-top :
      (before : List Header)
      → All NotVia before
      → remove_first via_name (before ++ top ∷ behind) ≡ (ok top.content, before ++ behind)
  unfolding remove_first
  remove_first-top [] h = rw named refl
  remove_first-top (x ∷ before) h = rw h.0 (rw (remove_first-top before h.1) refl)

  -- What stands before the first Via header holds no via-param and is no Via.
  pub other_headers-top :
      (before : List Header)
      → All NotVia before
      → other_headers (before ++ top ∷ behind) ≡ before ++ other_headers behind
  unfolding other_headers
  other_headers-top [] h = rw named refl
  other_headers-top (x ∷ before) h = rw h.0 (ap (λ hs. x ∷ hs) (other_headers-top before h.1))

pub other_headers-before :
    (before behind : List Header)
    → All NotVia before
    → other_headers (before ++ behind) ≡ before ++ other_headers behind
unfolding other_headers
other_headers-before [] behind h = refl
other_headers-before (x ∷ before) behind h =
    rw h.0 (ap (λ hs. x ∷ hs) (other_headers-before before behind h.1))

pub via_params-before :
    (before behind : List Header)
    → All NotVia before
    → via_params (before ++ behind) ≡ via_params behind
via_params-before [] behind h = refl
via_params-before (x ∷ before) behind h =
    via_params_skip x (before ++ behind) h.0 ∙ via_params-before before behind h.1

pub IsReadable-before :
    (before behind : List Header)
    → All NotVia before
    → All IsReadable behind
    → All IsReadable (before ++ behind)
IsReadable-before [] behind h r = r
IsReadable-before (x ∷ before) behind h r = (inl h.0, IsReadable-before before behind h.1 r)

-- A message with other headers, of which the via-params and the headers that are no Via are known.
pub record Left (m : Message) (ps : List ViaParam) (n : Message) : Type 0 where
  pub headers : List Header
  pub same : n ≡ record m { headers = headers }
  pub vias : via_params headers ≡ ps
  pub others : other_headers headers ≡ other_headers m.headers
  pub readable : All IsReadable headers

-- The first header with the value `v` in place of its text.
abbrev pub with_via :
    {hs : List Header} {p : ViaParam} {ps : List ViaParam} → Top hs p ps → Via → List Header
with_via t v = t.before ++ record t.top { content = via_value v } ∷ t.behind

module _ (m : Message) (p : ViaParam) (ps : List ViaParam) (t : Top m.headers p ps) where
  abbrev pub top_via : Via
  top_via = record { params = p ∷ t.more }

  pub get_via-top : get_via m ≡ (ok top_via, record m { headers = with_via t top_via })
  unfolding get_via on_header
  get_via-top =
      let f : HeaderValue → Result Via × HeaderValue = read_value to_via via_value parse_via in
      let value : f t.top.content ≡ (ok top_via, via_value top_via) =
        read_via t.top.content top_via t.value in
      let found : on_first via_name f m.headers ≡ (ok top_via, with_via t top_via) =
        ap (on_first via_name f) t.split
        ∙ on_first-top t.top t.behind t.named f t.before t.none_before
        ∙ ap
            (λ (x : Result Via × HeaderValue).
              (x.0, t.before ++ record t.top { content = x.1 } ∷ t.behind))
            value in
      ap (λ (x : Result Via × List Header). (x.0, record m { headers = x.1 })) found

  pub with_via-others : (v : Via) → other_headers (with_via t v) ≡ other_headers m.headers
  with_via-others v =
      other_headers-top (record t.top { content = via_value v }) t.behind t.named t.before
        t.none_before
      ∙ sym (other_headers-top t.top t.behind t.named t.before t.none_before)
      ∙ ap other_headers (sym t.split)

  pub with_via-params : (v : Via) → via_params (with_via t v) ≡ v.params ++ via_params t.behind
  unfolding via_of
  with_via-params v =
      via_params-before t.before _ t.none_before
      ∙ via_params_take (record t.top { content = via_value v }) t.behind v t.named refl

  pub with_via-IsReadable : (v : Via) → v.params ≢ [] → All IsReadable (with_via t v)
  unfolding via_of
  with_via-IsReadable v n =
      IsReadable-before t.before _ t.none_before (inr (t.named, (v, refl, n)), t.readable)
