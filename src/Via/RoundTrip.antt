-- ===== src/Via/RoundTrip.antt =====
-- A Via header is read back from what is printed for it.
use mathlib.Core.Path.{ap₂}
use sipproxy.KeyValue.{print_params, KeyValue, print_key_value}
use sipproxy.KeyValue.RoundTrip.{
  Clean, IsParam, read_print, split-print_params, lacks-print_params, texts-lack,
}
use sipproxy.Prelude.{
  ℕ, ◌≡◌, refl, ap, ◌∙◌, ◌≢◌, inl, inr, true, false, [], ◌∷◌, ◌++◌, append_assoc, arith, ◌==◌,
  Bool-cases, All, pos, int_eq, List, append_cons-ne-nil, map, ok,
}
use sipproxy.Text.{Bytes, codes, str_eq, lacks, solid, split, fields}
use sipproxy.Text.Cut.{lacks-append, solid-append}
use sipproxy.Text.Number.{itoa, is_digit}
use sipproxy.Text.Number.RoundTrip.{IsInt, lacks-itoa, itoa-solid, atoi-itoa}
use sipproxy.Text.Split.{split-lacks, split-append, fields-solid, fields-append}
use sipproxy.Via.{
  ViaParam, get_via_port, get_sent_by, print_via_param, Via, print_via, parse_via_param, parse_via,
  print_list, sent_protocol, sent_by, parse_sent, via_values, parse_parts, parse_list,
}

abbrev separators : Bytes
separators = codes ";,"

-- A text without white space that holds none of the bytes of `bad`.
abbrev pub IsWord : Bytes → Bytes → Type 0
IsWord bad s = (solid s ≡ true) × Clean bad s

pub record IsViaParam (p : ViaParam) : Type 0 where
  pub name_word : IsWord (codes ";,/") p.protocol_name
  pub version_word : IsWord (codes ";,/") p.protocol_version
  pub transport_word : IsWord (codes ";,/") p.transport
  pub host_word : IsWord (codes ";,:") p.host
  pub port_int : IsInt p.port
  pub params_clean : All (IsParam separators) p.params

-- The printer writes a port in any case, so the port of the result is given.
abbrev pub with_port : ViaParam → ViaParam
with_port p = record p { port = get_via_port p }

protocol : ViaParam → Bytes
protocol p = p.protocol_name ++ (b'/' ∷ (p.protocol_version ++ (b'/' ∷ p.transport)))

heading : ViaParam → Bytes
unfolding protocol
heading p = protocol p ++ (b' ' ∷ get_sent_by p)

get_via_port-IsInt : (p : ViaParam) → IsInt p.port → IsInt (get_via_port p)
unfolding get_via_port
get_via_port-IsInt p h = elim (Bool-cases (int_eq p.port (pos 0))) [
  | inl zero_port ↦ rw zero_port (elim (Bool-cases (str_eq p.transport (codes "TLS"))) [
    | inl tls ↦ rw tls (omega arith)
    | inr other ↦ rw other (omega arith)
  ])
  | inr given ↦ rw given h
]

print_heading : (p : ViaParam) → print_via_param p ≡ heading p ++ print_params p.params
unfolding print_via_param heading
print_heading p = simp append_assoc

module _ (p : ViaParam) (h : IsViaParam p) where
  split-protocol : split (protocol p) b'/' ≡ p.protocol_name ∷ p.protocol_version ∷ p.transport ∷ []
  unfolding protocol
  split-protocol =
      split-append p.protocol_name _ b'/' h.name_word.1.1.1.0
      ∙ ap (◌∷◌ p.protocol_name) (
          split-append p.protocol_version _ b'/' h.version_word.1.1.1.0
          ∙ ap (◌∷◌ p.protocol_version) (split-lacks p.transport b'/' h.transport_word.1.1.1.0))

  protocol-solid : solid (protocol p) ≡ true
  unfolding protocol
  protocol-solid =
      solid-append p.protocol_name _ h.name_word.0
        (solid-append p.protocol_version _ h.version_word.0 h.transport_word.0)

  protocol-ne-nil : protocol p ≢ []
  unfolding protocol
  protocol-ne-nil = append_cons-ne-nil p.protocol_name b'/' _

  lacks-protocol :
      (c : ℕ)
      → (c == b'/') ≡ false
      → lacks c p.protocol_name ≡ true
      → lacks c p.protocol_version ≡ true
      → lacks c p.transport ≡ true
      → lacks c (protocol p) ≡ true
  unfolding protocol
  lacks-protocol c n a b d =
      lacks-append c p.protocol_name _ a
        (ground (arith, lacks-append c p.protocol_version (b'/' ∷ p.transport) b (ground arith)))

  split-sent_by : split (get_sent_by p) b':' ≡ p.host ∷ itoa (get_via_port p) ∷ []
  unfolding get_sent_by
  split-sent_by =
      split-append p.host _ b':' h.host_word.1.1.1.0
      ∙ ap (◌∷◌ p.host) (split-lacks _ b':' (lacks-itoa b':' (get_via_port p) refl refl))

  sent_by-solid : solid (get_sent_by p) ≡ true
  unfolding get_sent_by
  sent_by-solid = solid-append p.host _ h.host_word.0 (itoa-solid (get_via_port p))

  sent_by-ne-nil : get_sent_by p ≢ []
  unfolding get_sent_by
  sent_by-ne-nil = append_cons-ne-nil p.host b':' _

  fields-heading : fields (heading p) ≡ protocol p ∷ get_sent_by p ∷ []
  unfolding heading
  fields-heading =
      fields-append (protocol p) _ protocol-ne-nil protocol-solid
      ∙ ap (◌∷◌ (protocol p)) (fields-solid _ sent_by-ne-nil sent_by-solid)

  lacks-heading :
      (c : ℕ)
      → (c == b'/') ≡ false
      → (c == b' ') ≡ false
      → (c == b':') ≡ false
      → (c == b'-') ≡ false
      → is_digit c ≡ false
      → lacks c p.protocol_name ≡ true
      → lacks c p.protocol_version ≡ true
      → lacks c p.transport ≡ true
      → lacks c p.host ≡ true
      → lacks c (heading p) ≡ true
  unfolding heading get_sent_by
  lacks-heading c n s o m i a b d e =
      let number = lacks-itoa c (get_via_port p) i m in
      lacks-append c (protocol p) _ (lacks-protocol c n a b d)
        (ground (arith, lacks-append c p.host (b':' ∷ itoa (get_via_port p)) e (ground arith)))

  parse_sent-heading :
      (kvs : List KeyValue)
      → parse_sent (fields (heading p)) kvs ≡ ok (record (with_port p) { params = kvs })
  unfolding parse_sent sent_protocol sent_by
  parse_sent-heading kvs = rw (
    fields-heading,
    split-protocol,
    split-sent_by,
    atoi-itoa (get_via_port p) (get_via_port-IsInt p h.port_int),
  )

  via_values-printed :
      (kvs : List KeyValue)
      → All (IsParam separators) kvs
      → via_values (map print_key_value kvs) ≡ kvs
  unfolding via_values
  via_values-printed [] g = refl
  via_values-printed (kv ∷ kvs) g =
      ap₂ ◌∷◌ (read_print kv g.0.printable) (via_values-printed kvs g.1)

  pub parse_via_param-print : parse_via_param (print_via_param p) ≡ ok (with_port p)
  unfolding parse_via_param parse_parts
  parse_via_param-print =
      let semicolons = texts-lack separators b';' refl (λ s c. c.0) p.params h.params_clean in
      let clean =
        lacks-heading b';' refl refl refl refl refl h.name_word.1.0 h.version_word.1.0
          h.transport_word.1.0 h.host_word.1.0 in
      rw (
        print_heading p,
        split-print_params (heading p) p.params clean semicolons,
        parse_sent-heading (via_values (map print_key_value p.params)),
        via_values-printed p.params h.params_clean,
      )

  pub lacks_comma-print : lacks b',' (print_via_param p) ≡ true
  lacks_comma-print =
      let commas = texts-lack separators b',' refl (λ s c. c.1.0) p.params h.params_clean in
      let clean =
        lacks-heading b',' refl refl refl refl refl h.name_word.1.1.0 h.version_word.1.1.0
          h.transport_word.1.1.0 h.host_word.1.1.0 in
      rw (print_heading p) (
        lacks-append b',' (heading p) (print_params p.params) clean
          (lacks-print_params b',' p.params refl commas))

parse_list-print :
    (p : ViaParam) (ps : List ViaParam)
    → All IsViaParam (p ∷ ps)
    → parse_list (split (print_list (p ∷ ps)) b',') ≡ ok (map with_port (p ∷ ps))
unfolding parse_list print_list
parse_list-print p [] h =
    rw (split-lacks (print_via_param p) b',' (lacks_comma-print p h.0), parse_via_param-print p h.0)
parse_list-print p (q ∷ ps) h = rw (
  split-append (print_via_param p) (print_list (q ∷ ps)) b',' (lacks_comma-print p h.0),
  parse_via_param-print p h.0,
  parse_list-print q ps h.1,
)

-- Printing a non-empty Via header of well-formed via-params and parsing the text gives the header
-- back, except that a port which was left out is now the default port of the transport.
pub parse-print_via :
    (v : Via)
    → v.params ≢ []
    → All IsViaParam v.params
    → parse_via (print_via v) ≡ ok (record { params = map with_port v.params })
unfolding parse_via print_via
parse-print_via v n h = go v.params n h
  where
    go :
        (ps : List ViaParam)
        → ps ≢ []
        → All IsViaParam ps
        → parse_via (print_list ps) ≡ ok (record { params = map with_port ps })
    go [] n h = absurd (n refl)
    go (p ∷ ps) n h = rw (parse_list-print p ps h)
