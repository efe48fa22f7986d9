-- ===== src/Identity.antt =====
-- Which messages are for the proxy itself, the type MyName of proxy.go.
use sipproxy.Address.{AddrSpec, sip_uri, absolute_uri, no_uri}
use sipproxy.Message.{ServerTransport, Message, get_request_uri}
use sipproxy.Prelude.{
  Bool, false, ◌&&◌, ◌||◌, Option, none, some, List, [], ◌∷◌, ◌++◌, map, ok, err, int_eq,
}
use sipproxy.SipUri.{SipUri, get_uri_port}
use sipproxy.Text.{Bytes, str_eq, cut, trim_space, split}

-- MyName: the names, and for each that compiles as a pattern what it matches.
pub record MyName : Type 0 where
  pub names : List Bytes
  pub patterns : List (Bytes → Bool)

unfoldable pub any_equal : Bytes → List Bytes → Bool
unfolding str_eq
any_equal s [] = false
any_equal s (n ∷ ns) = str_eq s n || any_equal s ns

unfoldable pub any_match : Bytes → List (Bytes → Bool) → Bool
any_match s [] = false
any_match s (p ∷ ps) = p s || any_match s ps

-- NewMyName; `compile` is regexp.Compile with MatchString, `none` where it has an error.
unfoldable pub compiled : (Bytes → Option (Bytes → Bool)) → List Bytes → List (Bytes → Bool)
compiled compile [] = []
compiled compile (n ∷ ns) =
    let rest = compiled compile ns in elim (compile n) [ none ↦ rest | some p ↦ p ∷ rest ]

unfoldable pub new_my_name : (Bytes → Option (Bytes → Bool)) → Bytes → MyName
unfolding compiled trim_space split
new_my_name compile name =
    let names = map trim_space (split name b',') in
    record { names = names; patterns = compiled compile names }

unfoldable pub match_absolute_uri : MyName → Bytes → Bool
unfolding any_equal any_match
match_absolute_uri my uri = any_equal uri my.names || any_match uri my.patterns

unfoldable pub name_matches : Bytes → Bytes → Bytes → Option (Bytes × Bytes) → Bool
unfolding str_eq
name_matches user host name none = str_eq host name
name_matches user host name (some (u, h)) = str_eq host h && str_eq user u

unfoldable pub any_name : Bytes → Bytes → List Bytes → Bool
unfolding name_matches cut
any_name user host [] = false
any_name user host (n ∷ ns) = name_matches user host n (cut b'@' n) || any_name user host ns

unfoldable pub match_sip_uri : MyName → Bytes → Bytes → Bool
unfolding any_name any_match
match_sip_uri my user host =
    any_name user host my.names || any_match (user ++ (b'@' ∷ host)) my.patterns

unfoldable pub is_receiver : SipUri → Option ServerTransport → Bool
unfolding str_eq get_uri_port
is_receiver u none = false
is_receiver u (some t) = str_eq u.host t.address && int_eq (get_uri_port u) t.local_port

unfoldable pub is_my_uri : MyName → Option ServerTransport → AddrSpec → Bool
unfolding match_absolute_uri match_sip_uri is_receiver
is_my_uri my from (absolute_uri s) = match_absolute_uri my s
is_my_uri my from (sip_uri u) = is_receiver u from || match_sip_uri my u.user u.host
is_my_uri my from no_uri = false

unfoldable pub is_my_message : MyName → Message → Bool
unfolding is_my_uri get_request_uri
is_my_message my m = elim (get_request_uri m) [
  | ok a ↦ is_my_uri my m.received_from a
  | err _ ↦ false
]
