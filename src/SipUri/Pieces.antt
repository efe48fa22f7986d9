-- ===== src/SipUri/Pieces.antt =====
-- The parts of a SIP URI are read back from what is printed for them.
use sipproxy.KeyValue.{KeyValue}
use sipproxy.KeyValue.RoundTrip.{Clean}
use sipproxy.Prelude.{
  ℕ, ◌≡◌, refl, ap, ◌∙◌, ◌≢◌, ◌⊎◌, inl, inr, true, false, List, [], ◌∷◌, ◌++◌, append-nil, arith,
  ◌==◌, All, sym, Bool-cases, ℤ, pos, int_eq, int_eq_sound, append_assoc,
}
use sipproxy.SipUri.{
  SipUri, add_uri_parameters, print_uri_parameter, print_uri_parameters, parse_host_port,
  add_uri_headers, print_user_info, print_host_port, print_uri_headers,
}
use sipproxy.Text.{Bytes, codes, lacks, split, str_eq, cut}
use sipproxy.Text.Cut.{lacks-append, cut-append, cut-lacks}
use sipproxy.Text.Number.{is_digit, itoa}
use sipproxy.Text.Number.RoundTrip.{IsInt, atoi_full-itoa, lacks-itoa}
use sipproxy.Text.Split.{split-lacks, split-append}

-- `lr` has no value; any other parameter has one, since the parser wants an `=` there.
pub record IsUriParameter (kv : KeyValue) : Type 0 where
  pub key_free : Clean (codes ";?=") kv.key
  pub value_free : Clean (codes ";?") kv.value
  pub valued : (kv.value ≢ []) ⊎ (kv.key ≡ codes "lr")

pub record IsUriHeader (kv : KeyValue) : Type 0 where
  pub key_free : Clean (codes "&=") kv.key
  pub value_free : Clean (codes "&") kv.value

pub record IsSipUri (u : SipUri) : Type 0 where
  pub scheme_known : (u.scheme ≡ codes "sip") ⊎ (u.scheme ≡ codes "sips")
  pub user_free : Clean (codes ";?@:") u.user
  pub password_free : Clean (codes ";?@") u.password
  pub password_owned : u.user ≡ [] → u.password ≡ []
  pub host_free : Clean (codes ";?@:") u.host
  pub port_int : IsInt u.port
  pub parameters_clean : All IsUriParameter u.parameters
  pub headers_clean : All IsUriHeader u.headers

pub add_uri_parameter-print :
    (kv : KeyValue) (ss : List Bytes)
    → IsUriParameter kv
    → add_uri_parameters (print_uri_parameter kv.key kv.value ∷ ss) ≡ kv ∷ add_uri_parameters ss
unfolding add_uri_parameters print_uri_parameter
add_uri_parameter-print kv ss h = go kv.value h.valued
  where
    go :
        (v : Bytes)
        → (v ≢ []) ⊎ (kv.key ≡ codes "lr")
        → add_uri_parameters (print_uri_parameter kv.key v ∷ ss)
          ≡ record { key = kv.key; value = v } ∷ add_uri_parameters ss
    go [] (inl n) = absurd (n refl)
    go [] (inr lr) = rw lr (unfold cut str_eq in refl)
    go (c ∷ v) o = rw (cut-append b'=' kv.key (c ∷ v) h.key_free.1.1.0, add_uri_parameters)

pub print_uri_parameter-lacks :
    (c : ℕ) (key value : Bytes)
    → (c == b'=') ≡ false
    → lacks c key ≡ true
    → lacks c value ≡ true
    → lacks c (print_uri_parameter key value) ≡ true
unfolding print_uri_parameter
print_uri_parameter-lacks c key [] n k v = k
print_uri_parameter-lacks c key (x ∷ value) n k v =
    lacks-append c key (b'=' ∷ x ∷ value) k (ground arith)

pub parameter-lacks :
    (kv : KeyValue) → IsUriParameter kv → lacks b';' (print_uri_parameter kv.key kv.value) ≡ true
parameter-lacks kv h =
    print_uri_parameter-lacks b';' kv.key kv.value refl h.key_free.0 h.value_free.0

pub add_uri_parameters-print :
    (kv : KeyValue) (kvs : List KeyValue)
    → All IsUriParameter (kv ∷ kvs)
    → add_uri_parameters
        (split (print_uri_parameter kv.key kv.value ++ print_uri_parameters kvs) b';')
      ≡ kv ∷ kvs
unfolding print_uri_parameters
add_uri_parameters-print kv [] h =
    rw (append-nil, split-lacks _ b';' (parameter-lacks kv h.0))
      (add_uri_parameter-print kv [] h.0 ∙ unfold add_uri_parameters in refl)
add_uri_parameters-print kv (kw ∷ kvs) h =
    rw (split-append _ _ b';' (parameter-lacks kv h.0))
      (add_uri_parameter-print kv _ h.0 ∙ ap (◌∷◌ kv) (add_uri_parameters-print kw kvs h.1))

unfoldable pub header_text : KeyValue → Bytes
header_text kv = kv.key ++ (b'=' ∷ kv.value)

pub add_uri_header-print :
    (kv : KeyValue) (ss : List Bytes)
    → IsUriHeader kv
    → add_uri_headers (header_text kv ∷ ss) ≡ kv ∷ add_uri_headers ss
unfolding add_uri_headers header_text
add_uri_header-print kv ss h = rw (cut-append b'=' kv.key kv.value h.key_free.1.0, add_uri_headers)

pub header_text-lacks : (kv : KeyValue) → IsUriHeader kv → lacks b'&' (header_text kv) ≡ true
unfolding header_text
header_text-lacks kv h = lacks-append b'&' kv.key (b'=' ∷ kv.value) h.key_free.0 h.value_free.0

unfoldable pub header_texts : KeyValue → List KeyValue → Bytes
unfolding header_text
header_texts kv [] = header_text kv
header_texts kv (kw ∷ kvs) = header_text kv ++ (b'&' ∷ header_texts kw kvs)

pub print_uri_headers-texts :
    (mark : ℕ) (kv : KeyValue) (kvs : List KeyValue)
    → print_uri_headers mark (kv ∷ kvs) ≡ mark ∷ header_texts kv kvs
unfolding print_uri_headers header_texts
print_uri_headers-texts mark kv [] = ap (◌∷◌ mark) (rw append-nil)
print_uri_headers-texts mark kv (kw ∷ kvs) =
    rw (← print_uri_headers-texts b'&' kw kvs) (ap (◌∷◌ mark) (sym (append_assoc kv.key _ _)))

pub add_uri_headers-print :
    (kv : KeyValue) (kvs : List KeyValue)
    → All IsUriHeader (kv ∷ kvs)
    → add_uri_headers (split (header_texts kv kvs) b'&') ≡ kv ∷ kvs
unfolding header_texts
add_uri_headers-print kv [] h =
    rw (split-lacks _ b'&' (header_text-lacks kv h.0))
      (add_uri_header-print kv [] h.0 ∙ unfold add_uri_headers in refl)
add_uri_headers-print kv (kw ∷ kvs) h =
    rw (split-append _ (header_texts kw kvs) b'&' (header_text-lacks kv h.0))
      (add_uri_header-print kv _ h.0 ∙ ap (◌∷◌ kv) (add_uri_headers-print kw kvs h.1))

unfoldable pub userhost : SipUri → Bytes
userhost u = print_user_info u.user u.password ++ print_host_port u.host u.port

-- The record that the parser has filled from the scheme, the headers and the parameters.
abbrev pub without_userhost : SipUri → SipUri
without_userhost u = record u { user = []; password = []; host = []; port = pos 0 }

pub parse_host_port-print :
    (host : Bytes) (port : ℤ) (u : SipUri)
    → lacks b':' host ≡ true
    → IsInt port
    → parse_host_port (print_host_port host port) u ≡ record u { host = host; port = port }
unfolding parse_host_port print_host_port
parse_host_port-print host port u h i = elim (Bool-cases (int_eq port (pos 0))) [
  | inl zero_port ↦
      rw (zero_port, cut-lacks b':' host h)
        (ap (λ n. record u { host = host; port = n }) (sym (int_eq_sound port (pos 0) zero_port)))
  | inr given ↦ rw (given, cut-append b':' host (itoa port) h, atoi_full-itoa port i)
]

pub print_host_port-lacks :
    (c : ℕ) (host : Bytes) (port : ℤ)
    → (c == b':') ≡ false
    → is_digit c ≡ false
    → (c == b'-') ≡ false
    → lacks c host ≡ true
    → lacks c (print_host_port host port) ≡ true
unfolding print_host_port
print_host_port-lacks c host port n d m h = elim (Bool-cases (int_eq port (pos 0))) [
  | inl zero_port ↦ rw zero_port h
  | inr given ↦
      let number = lacks-itoa c port d m in
      rw given (lacks-append c host (b':' ∷ itoa port) h (ground arith))
]

pub print_user_info-lacks :
    (c : ℕ) (user password : Bytes)
    → (c == b':') ≡ false
    → (c == b'@') ≡ false
    → lacks c user ≡ true
    → lacks c password ≡ true
    → lacks c (print_user_info user password) ≡ true
unfolding print_user_info
print_user_info-lacks c [] password n a h g = refl
print_user_info-lacks c (x ∷ user) [] n a h g =
    lacks-append c (x ∷ user) (b'@' ∷ []) h (ground arith)
print_user_info-lacks c (x ∷ user) (y ∷ password) n a h g =
    let tail = lacks-append c (y ∷ password) (b'@' ∷ []) g (ground arith) in
    lacks-append c (x ∷ user) (b':' ∷ ((y ∷ password) ++ b'@' ∷ [])) h (ground arith)

pub userhost-lacks :
    (c : ℕ) (u : SipUri)
    → (c == b':') ≡ false
    → (c == b'@') ≡ false
    → is_digit c ≡ false
    → (c == b'-') ≡ false
    → lacks c u.user ≡ true
    → lacks c u.password ≡ true
    → lacks c u.host ≡ true
    → lacks c (userhost u) ≡ true
unfolding userhost
userhost-lacks c u n a d m h g k =
    lacks-append c _ _ (print_user_info-lacks c u.user u.password n a h g)
      (print_host_port-lacks c u.host u.port n d m k)
