-- ===== src/SipUri/RoundTrip.antt =====
-- A SIP URI is read back from what is printed for it.
use sipproxy.KeyValue.{KeyValue}
use sipproxy.KeyValue.RoundTrip.{Clean}
use sipproxy.Prelude.{
  ℕ, ◌≡◌, refl, ap, ◌∙◌, ◌⊎◌, inl, inr, true, List, [], ◌∷◌, ◌++◌, append-nil, append_assoc, All,
  ok, ℤ,
}
use sipproxy.SipUri.{
  SipUri, blank_uri, parse_user_info, parse_host_port, parse_uri_parameters, parse_uri_header,
  parse_sip_uri, print_sip_uri, parse_userhost, parse_before_headers, parse_after_scheme,
  print_user_info, print_host_port, print_uri_parameter, print_uri_parameters, print_uri_headers,
}
use sipproxy.SipUri.Pieces.{
  IsUriParameter, IsUriHeader, IsSipUri, print_uri_parameter-lacks, add_uri_parameters-print,
  header_texts, print_uri_headers-texts, add_uri_headers-print, userhost, parse_host_port-print,
  print_host_port-lacks, userhost-lacks,
}
use sipproxy.Text.{Bytes, codes, starts_with, lacks}
use sipproxy.Text.Cut.{cut-append, cut-lacks, lacks-append}
use sipproxy.Text.Number.RoundTrip.{IsInt}

-- The record that the parser has filled before it comes to the user and the host.
abbrev opened : Bytes → List KeyValue → List KeyValue → SipUri
opened scheme hs ps = record blank_uri { scheme = scheme; headers = hs; parameters = ps }

parse_after_scheme-print :
    (b scheme : Bytes) (hs : List KeyValue)
    → lacks b'?' b ≡ true
    → All IsUriHeader hs
    → parse_after_scheme (b ++ print_uri_headers b'?' hs) (opened scheme [] [])
      ≡ parse_before_headers b (opened scheme hs [])
unfolding parse_after_scheme parse_uri_header
parse_after_scheme-print b scheme [] l h =
    unfold print_uri_headers in rw append-nil (rw (cut-lacks b'?' b l, parse_after_scheme))
parse_after_scheme-print b scheme (kv ∷ kvs) l h = rw (
  print_uri_headers-texts b'?' kv kvs,
  cut-append b'?' b (header_texts kv kvs) l,
  parse_after_scheme,
  add_uri_headers-print kv kvs h,
)

parse_before_headers-print :
    (a scheme : Bytes) (hs ps : List KeyValue)
    → lacks b';' a ≡ true
    → All IsUriParameter ps
    → parse_before_headers (a ++ print_uri_parameters ps) (opened scheme hs [])
      ≡ parse_userhost a (opened scheme hs ps)
unfolding parse_before_headers parse_uri_parameters print_uri_parameters
parse_before_headers-print a scheme hs [] l h =
    rw append-nil (rw (cut-lacks b';' a l, parse_before_headers))
parse_before_headers-print a scheme hs (kv ∷ kvs) l h =
    rw (cut-append b';' a _ l, parse_before_headers, add_uri_parameters-print kv kvs h)

userinfo_user :
    (x : ℕ) (user host : Bytes) (port : ℤ) (scheme : Bytes) (hs ps : List KeyValue)
    → Clean (codes ";?@:") (x ∷ user)
    → lacks b'@' (print_host_port host port) ≡ true
    → parse_userhost
        (print_user_info (x ∷ user) [] ++ print_host_port host port)
        (opened scheme hs ps)
      ≡ parse_host_port
          (print_host_port host port)
          (record (opened scheme hs ps) { user = x ∷ user })
unfolding parse_userhost print_user_info parse_user_info
userinfo_user x user host port scheme hs ps c l = rw append_assoc (
    rw (
      cut-append b'@' (x ∷ user) (print_host_port host port) c.1.1.0,
      parse_userhost,
      cut-lacks b':' (x ∷ user) c.1.1.1.0,
    ))

userinfo_password :
    (x y : ℕ) (user password host : Bytes) (port : ℤ) (scheme : Bytes) (hs ps : List KeyValue)
    → Clean (codes ";?@:") (x ∷ user)
    → lacks b'@' (y ∷ password) ≡ true
    → parse_userhost
        (print_user_info (x ∷ user) (y ∷ password) ++ print_host_port host port)
        (opened scheme hs ps)
      ≡ parse_host_port
          (print_host_port host port)
          (record (opened scheme hs ps) { user = x ∷ user; password = y ∷ password })
unfolding parse_userhost print_user_info parse_user_info
userinfo_password x y user password host port scheme hs ps c l =
    let both = lacks-append b'@' (x ∷ user) (b':' ∷ y ∷ password) c.1.1.0 l in
    let spelled : print_user_info (x ∷ user) (y ∷ password) ++ print_host_port host port
        ≡ ((x ∷ user) ++ (b':' ∷ y ∷ password)) ++ (b'@' ∷ print_host_port host port) =
      simp append_assoc in
    rw spelled (
      rw (
        cut-append b'@' ((x ∷ user) ++ (b':' ∷ y ∷ password)) (print_host_port host port) both,
        parse_userhost,
        cut-append b':' (x ∷ user) (y ∷ password) c.1.1.1.0,
      ))

parse_userhost-parts :
    (user password host : Bytes) (port : ℤ) (scheme : Bytes) (hs ps : List KeyValue)
    → Clean (codes ";?@:") user
    → lacks b'@' password ≡ true
    → (user ≡ [] → password ≡ [])
    → Clean (codes ";?@:") host
    → IsInt port
    → parse_userhost
        (print_user_info user password ++ print_host_port host port)
        (opened scheme hs ps)
      ≡ record {
        scheme = scheme;
        user = user;
        password = password;
        host = host;
        port = port;
        parameters = ps;
        headers = hs;
      }
unfolding parse_userhost
parse_userhost-parts [] password host port scheme hs ps c l e k i =
    let clean = print_host_port-lacks b'@' host port refl refl refl k.1.1.0 in
    rw (e refl) (
      unfold print_user_info in
      rw (cut-lacks b'@' (print_host_port host port) clean, parse_userhost)
        (parse_host_port-print host port _ k.1.1.1.0 i))
parse_userhost-parts (x ∷ user) [] host port scheme hs ps c l e k i =
    userinfo_user x user host port scheme hs ps c
      (print_host_port-lacks b'@' host port refl refl refl k.1.1.0)
    ∙ parse_host_port-print host port _ k.1.1.1.0 i
parse_userhost-parts (x ∷ user) (y ∷ password) host port scheme hs ps c l e k i =
    userinfo_password x y user password host port scheme hs ps c l
    ∙ parse_host_port-print host port _ k.1.1.1.0 i

-- What stands behind the scheme, in the grouping in which the parser takes it apart.
pub behind_scheme : SipUri → Bytes
unfolding userhost
behind_scheme u =
    (userhost u ++ print_uri_parameters u.parameters) ++ print_uri_headers b'?' u.headers

pub print-behind_scheme : (u : SipUri) → print_sip_uri u ≡ u.scheme ++ (b':' ∷ behind_scheme u)
unfolding print_sip_uri behind_scheme
print-behind_scheme u = simp append_assoc

parameters-lack_question :
    (kvs : List KeyValue) → All IsUriParameter kvs → lacks b'?' (print_uri_parameters kvs) ≡ true
unfolding print_uri_parameters
parameters-lack_question [] h = refl
parameters-lack_question (kv ∷ kvs) h =
    let first =
      print_uri_parameter-lacks b'?' kv.key kv.value refl h.0.key_free.1.0 h.0.value_free.1.0 in
    lacks-append b'?' (print_uri_parameter kv.key kv.value) (print_uri_parameters kvs) first
      (parameters-lack_question kvs h.1)

parse_behind_scheme :
    (u : SipUri) → IsSipUri u → parse_after_scheme (behind_scheme u) (opened u.scheme [] []) ≡ u
unfolding behind_scheme
parse_behind_scheme u h =
    let no_semicolon =
      userhost-lacks b';' u refl refl refl refl h.user_free.0 h.password_free.0 h.host_free.0 in
    let no_question =
      lacks-append b'?' (userhost u) (print_uri_parameters u.parameters)
        (userhost-lacks b'?' u refl refl refl refl h.user_free.1.0 h.password_free.1.0
          h.host_free.1.0)
        (parameters-lack_question u.parameters h.parameters_clean) in
    parse_after_scheme-print _ u.scheme u.headers no_question h.headers_clean
    ∙ parse_before_headers-print (userhost u) u.scheme u.headers u.parameters no_semicolon
        h.parameters_clean
    ∙ parse_userhost-parts u.user u.password u.host u.port u.scheme u.headers u.parameters
        h.user_free h.password_free.1.1.0 h.password_owned h.host_free h.port_int

scheme_step :
    (scheme rest : Bytes)
    → (scheme ≡ codes "sip") ⊎ (scheme ≡ codes "sips")
    → parse_sip_uri (scheme ++ (b':' ∷ rest)) ≡ ok (parse_after_scheme rest (opened scheme [] []))
unfolding parse_sip_uri starts_with
scheme_step scheme rest (inl e) = rw e
scheme_step scheme rest (inr e) = rw e

-- Printing a well-formed SIP URI and parsing the text gives the URI back: scheme, user, password,
-- host, port, parameters and headers.
pub parse-print_sip_uri : (u : SipUri) → IsSipUri u → parse_sip_uri (print_sip_uri u) ≡ ok u
parse-print_sip_uri u h =
    rw (print-behind_scheme u)
      (scheme_step u.scheme (behind_scheme u) h.scheme_known ∙ ap ok (parse_behind_scheme u h))
