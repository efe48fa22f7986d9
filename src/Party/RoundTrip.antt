-- ===== src/Party/RoundTrip.antt =====
-- From and To headers are read back from what is printed for them.
use sipproxy.Address.{absolute_uri, parse_addr_spec, NameAddr, print_name_addr}
use sipproxy.Address.RoundTrip.{
  IsNameAddr, cut-print_name_addr, parse_name_addr-open, cut_open-print_name_addr, open_longer,
}
use sipproxy.KeyValue.{KeyValue, print_key_value, parse_generic_params, print_params}
use sipproxy.KeyValue.RoundTrip.{
  IsParam, split-print_params, lacks-print_params, texts-lack, print_key_value-ne-nil,
  parse_generic_params-print,
}
use sipproxy.Party.{
  Party, parse_tail, tail_of, parse_named, parse_bare, parse_bracketed, parse_party,
  parse_from_spec, parse_to, print_address, print_from_spec, print_to,
}
use sipproxy.Prelude.{
  ◌≡◌, refl, ◌∙◌, ◌≢◌, true, false, none, some, List, [], ◌∷◌, ◌++◌, append-ne-nil, All, ok,
}
use sipproxy.Text.{Bytes, codes, starts_with, cut, lacks, split}
use sipproxy.Text.Cut.{cut-append, cut-lacks, lacks-append}

abbrev semicolon : Bytes
semicolon = codes ";"

-- Parameters that survive ParseGenericParam: no separators, and no empty name.
pub record IsTail (kvs : List KeyValue) : Type 0 where
  pub clean : All (IsParam semicolon) kvs
  pub named : All (λ kv. kv.key ≢ []) kvs

-- A list of printed parameters is empty, or a `;` and a text that is read back.
abbrev Reads : List KeyValue → Bytes → Type 0
Reads kvs s = parse_tail (tail_of (cut b';' s)) ≡ ok kvs

parse_tail-split : (s : Bytes) → s ≢ [] → parse_tail s ≡ parse_generic_params (split s b';')
unfolding parse_tail
parse_tail-split [] n = absurd (n refl)
parse_tail-split (c ∷ s) n = refl

parse_tail-print :
    (kv : KeyValue) (kvs : List KeyValue)
    → IsTail (kv ∷ kvs)
    → parse_tail (print_key_value kv ++ print_params kvs) ≡ ok (kv ∷ kvs)
parse_tail-print kv kvs h =
    let texts = texts-lack semicolon b';' refl (λ s c. c.0) (kv ∷ kvs) h.clean in
    parse_tail-split _ (append-ne-nil _ _ (print_key_value-ne-nil kv h.clean.0.printable h.named.0))
    ∙ rw (split-print_params (print_key_value kv) kvs texts.0 texts.1)
        (parse_generic_params-print semicolon (kv ∷ kvs) h.clean h.named)

pub print_params-Reads : (kvs : List KeyValue) → IsTail kvs → Reads kvs (print_params kvs)
unfolding print_params
print_params-Reads [] h = unfold cut tail_of parse_tail in refl
print_params-Reads (kv ∷ kvs) h = unfold cut tail_of in parse_tail-print kv kvs h

abbrev pub named : NameAddr → List KeyValue → Party
named na kvs = record { name_addr = some na; addr_spec = none; params = kvs }

parse_party-named :
    (na : NameAddr) (kvs : List KeyValue)
    → IsNameAddr na
    → IsTail kvs
    → parse_party (print_name_addr na ++ print_params kvs) ≡ ok (named na kvs)
unfolding parse_party parse_bracketed parse_named
parse_party-named na kvs h t =
    let opening = cut_open-print_name_addr na h (print_params kvs) in
    rw (
      opening,
      parse_party,
      cut-print_name_addr na h (print_params kvs),
      open_longer na h,
      parse_name_addr-open na h,
      print_params-Reads kvs t,
    )

-- A From header with a well-formed name-addr and parameters is read back from its text.
pub parse-print_from_spec :
    (na : NameAddr) (kvs : List KeyValue)
    → IsNameAddr na
    → IsTail kvs
    → parse_from_spec (print_from_spec (named na kvs)) ≡ ok (named na kvs)
unfolding parse_from_spec print_from_spec print_address
parse-print_from_spec na kvs h t = parse_party-named na kvs h t

-- A To header with a well-formed name-addr and parameters is read back from its text.
pub parse-print_to :
    (na : NameAddr) (kvs : List KeyValue)
    → IsNameAddr na
    → IsTail kvs
    → parse_to (print_to (named na kvs)) ≡ ok (named na kvs)
unfolding parse_to print_to print_address
parse-print_to na kvs h t = parse_party-named na kvs h t

-- A From or To header without brackets, whose address is no SIP URI and holds no `;`, and which has
-- well-formed parameters, is read with the `;` in front of the parameters as the address's last byte.
pub bare_absolute_uri :
    (s : Bytes) (kvs : List KeyValue)
    → lacks b'<' s ≡ true
    → lacks b';' s ≡ true
    → starts_with (codes "sip:") (s ++ b';' ∷ []) ≡ false
    → starts_with (codes "sips:") (s ++ b';' ∷ []) ≡ false
    → kvs ≢ []
    → All (λ kv. lacks b'<' (print_key_value kv) ≡ true) kvs
    → IsTail kvs
    → parse_party (s ++ print_params kvs)
      ≡ ok (record {
        name_addr = none;
        addr_spec = some (absolute_uri (s ++ b';' ∷ []));
        params = kvs;
      })
unfolding parse_party parse_bare print_params parse_addr_spec
bare_absolute_uri s [] b l p q n a t = absurd (n refl)
bare_absolute_uri s (kv ∷ kvs) b l p q n a t =
    let rest = lacks-print_params b'<' (kv ∷ kvs) refl a in
    rw (
      cut-lacks b'<' (s ++ print_params (kv ∷ kvs)) (lacks-append b'<' s _ b rest),
      parse_party,
      cut-append b';' s _ l,
      p,
      q,
      parse_tail-print kv kvs t,
    )
