-- ===== src/KeyValue/RoundTrip.antt =====
-- A parameter is read back from what is printed for it.
use sipproxy.KeyValue.{
  KeyValue, print_key_value, key_value_of, with_value, print_params, parse_generic_param,
  parse_generic_params,
}
use sipproxy.Prelude.{
  ℕ, ◌≡◌, true, false, [], ◌∷◌, arith, ◌==◌, All, refl, ap, ◌∙◌, List, ◌++◌, map, append-nil, ◌≢◌,
  append_cons-ne-nil, ok,
}
use sipproxy.Text.{Bytes, cut, lacks, split, solid}
use sipproxy.Text.Cut.{cut-append, cut-lacks, lacks-append, solid-append}
use sipproxy.Text.Format.{printf-lacks, printf}
use sipproxy.Text.Split.{split-lacks, split-append}

-- A text that holds none of these bytes.
abbrev pub Clean : Bytes → Bytes → Type 0
Clean bad s = All (λ c. lacks c s ≡ true) bad

-- No separator, and no percent sign, which the printer takes for a directive.
pub record IsPrintable (kv : KeyValue) : Type 0 where
  pub key_clean : lacks b'=' kv.key ≡ true
  pub key_plain : lacks b'%' kv.key ≡ true
  pub value_plain : lacks b'%' kv.value ≡ true

abbrev pub IsPlain : Bytes → Type 0
IsPlain s = lacks b'%' s ≡ true

pub read_print :
    (kv : KeyValue)
    → IsPrintable kv
    → key_value_of (print_key_value kv) (cut b'=' (print_key_value kv)) ≡ kv
unfolding print_key_value
read_print kv h = go kv.value h.value_plain
  where
    go :
        (v : Bytes)
        → lacks b'%' v ≡ true
        → key_value_of (with_value kv.key v) (cut b'=' (with_value kv.key v))
          ≡ record { key = kv.key; value = v }
    go [] p = rw (printf-lacks kv.key h.key_plain, cut-lacks b'=' kv.key h.key_clean)
    go (c ∷ v) p = rw (
      printf-lacks kv.key h.key_plain,
      printf-lacks (c ∷ v) p,
      cut-append b'=' kv.key (c ∷ v) h.key_clean,
    )

pub lacks-print_key_value :
    (c : ℕ) (kv : KeyValue)
    → (c == b'=') ≡ false
    → IsPrintable kv
    → lacks c kv.key ≡ true
    → lacks c kv.value ≡ true
    → lacks c (print_key_value kv) ≡ true
unfolding print_key_value
lacks-print_key_value c kv n h k v = go kv.value h.value_plain v
  where
    go : (w : Bytes) → lacks b'%' w ≡ true → lacks c w ≡ true → lacks c (with_value kv.key w) ≡ true
    go [] p q = rw (printf-lacks kv.key h.key_plain) k
    go (x ∷ w) p q =
        rw (printf-lacks kv.key h.key_plain, printf-lacks (x ∷ w) p)
          (lacks-append c kv.key (b'=' ∷ x ∷ w) k (ground arith))

-- What a header type asks of the parameters: none holds a byte that ends one.
pub record IsParam (bad : Bytes) (kv : KeyValue) : Type 0 where
  pub printable : IsPrintable kv
  pub key_free : Clean bad kv.key
  pub value_free : Clean bad kv.value

pub split-print_params :
    (a : Bytes) (kvs : List KeyValue)
    → lacks b';' a ≡ true
    → All (λ kv. lacks b';' (print_key_value kv) ≡ true) kvs
    → split (a ++ print_params kvs) b';' ≡ a ∷ map print_key_value kvs
unfolding print_params
split-print_params a [] h g = rw append-nil (split-lacks a b';' h)
split-print_params a (kv ∷ kvs) h g =
    split-append a _ b';' h ∙ ap (◌∷◌ a) (split-print_params (print_key_value kv) kvs g.0 g.1)

pub lacks-print_params :
    (c : ℕ) (kvs : List KeyValue)
    → (c == b';') ≡ false
    → All (λ kv. lacks c (print_key_value kv) ≡ true) kvs
    → lacks c (print_params kvs) ≡ true
unfolding print_params
lacks-print_params c [] n h = refl
lacks-print_params c (kv ∷ kvs) n h =
    let rest =
      lacks-append c (print_key_value kv) (print_params kvs) h.0 (lacks-print_params c kvs n h.1) in
    ground (arith, rest)

-- A byte that no key and no value holds stands in none of the printed parameters.
pub texts-lack :
    (bad : Bytes) (c : ℕ)
    → (c == b'=') ≡ false
    → ((s : Bytes) → Clean bad s → lacks c s ≡ true)
    → (kvs : List KeyValue) → All (IsParam bad) kvs
    → All (λ kv. lacks c (print_key_value kv) ≡ true) kvs
texts-lack bad c n pick [] g = tt
texts-lack bad c n pick (kv ∷ kvs) g = (
  lacks-print_key_value c kv n g.0.printable (pick kv.key g.0.key_free)
      (pick kv.value g.0.value_free),
  texts-lack bad c n pick kvs g.1,
)

pub print_key_value-ne-nil :
    (kv : KeyValue) → IsPrintable kv → kv.key ≢ [] → print_key_value kv ≢ []
unfolding print_key_value
print_key_value-ne-nil kv h n = go kv.value
  where
    go : (v : Bytes) → with_value kv.key v ≢ []
    go [] = rw (printf-lacks kv.key h.key_plain) n
    go (c ∷ v) = append_cons-ne-nil (printf kv.key) b'=' _

-- ParseGenericParam reads every parameter back whose key is not empty.
pub parse_generic_param-print :
    (kv : KeyValue)
    → IsPrintable kv
    → kv.key ≢ []
    → parse_generic_param (print_key_value kv) ≡ ok kv
unfolding parse_generic_param
parse_generic_param-print kv h n =
    go (print_key_value kv) (print_key_value-ne-nil kv h n) (read_print kv h)
  where
    go : (s : Bytes) → s ≢ [] → key_value_of s (cut b'=' s) ≡ kv → parse_generic_param s ≡ ok kv
    go [] n e = absurd (n refl)
    go (c ∷ s) n e = ap ok e

pub parse_generic_params-print :
    (bad : Bytes) (kvs : List KeyValue)
    → All (IsParam bad) kvs
    → All (λ kv. kv.key ≢ []) kvs
    → parse_generic_params (map print_key_value kvs) ≡ ok kvs
unfolding parse_generic_params
parse_generic_params-print bad [] h n = refl
parse_generic_params-print bad (kv ∷ kvs) h n =
    rw (parse_generic_param-print kv h.0.printable n.0, parse_generic_params-print bad kvs h.1 n.1)

-- Parameters without white space are printed without any.
abbrev pub IsSolid : KeyValue → Type 0
IsSolid kv = (solid kv.key ≡ true) × (solid kv.value ≡ true)

pub solid-print_key_value :
    (kv : KeyValue) → IsPrintable kv → IsSolid kv → solid (print_key_value kv) ≡ true
unfolding print_key_value
solid-print_key_value kv h (k, v) = go kv.value h.value_plain v
  where
    go : (w : Bytes) → lacks b'%' w ≡ true → solid w ≡ true → solid (with_value kv.key w) ≡ true
    go [] p q = rw (printf-lacks kv.key h.key_plain) k
    go (x ∷ w) p q =
        rw (printf-lacks kv.key h.key_plain, printf-lacks (x ∷ w) p)
          (solid-append kv.key (b'=' ∷ x ∷ w) k (ground arith))

pub solid-print_params :
    (kvs : List KeyValue)
    → All (λ kv. IsPrintable kv × IsSolid kv) kvs
    → solid (print_params kvs) ≡ true
unfolding print_params
solid-print_params [] h = refl
solid-print_params (kv ∷ kvs) h =
    solid-append (print_key_value kv) (print_params kvs) (solid-print_key_value kv h.0.0 h.0.1)
      (solid-print_params kvs h.1)

-- The text of a parameter starts with its key.
pub print_key_value-key :
    (kv : KeyValue) → IsPrintable kv → (w : Bytes) × (print_key_value kv ≡ kv.key ++ w)
unfolding print_key_value
print_key_value-key kv h = go kv.value
  where
    go : (v : Bytes) → (w : Bytes) × (with_value kv.key v ≡ kv.key ++ w)
    go [] = ([], rw (printf-lacks kv.key h.key_plain, append-nil))
    go (c ∷ v) = (b'=' ∷ printf (c ∷ v), rw (printf-lacks kv.key h.key_plain))
