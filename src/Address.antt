-- ===== src/Address.antt =====
-- addr_spec.go, absolute_uri.go and name_addr.go.
pub mod RoundTrip
use sipproxy.Prelude.{
  ◌+◌, Bool, true, false, ◌||◌, Option, some, [], ◌∷◌, ◌++◌, ltb, if◌then◌else◌, length, drop,
  malformed_name_addr, not_sip_uri, not_absolute_uri, Result, ok, err, ◌>>=◌,
}
use sipproxy.SipUri.{SipUri, parse_sip_uri, print_sip_uri}
use sipproxy.Text.{Bytes, codes, starts_with, cut}
use sipproxy.Text.Format.{printf}

-- AddrSpec has two pointers of which the constructors set at most one.
pub data AddrSpec : Type 0 where
  sip_uri : SipUri → AddrSpec
  absolute_uri : Bytes → AddrSpec
  no_uri : AddrSpec

unfoldable pub parse_addr_spec : Bytes → Result AddrSpec
unfolding starts_with parse_sip_uri
parse_addr_spec s =
    if starts_with (codes "sip:") s || starts_with (codes "sips:") s
    then (do u ← parse_sip_uri s; ok (sip_uri u))
    else ok (absolute_uri s)

unfoldable pub is_sip_uri : AddrSpec → Bool
is_sip_uri (sip_uri u) = true
is_sip_uri _ = false

unfoldable pub get_sip_uri : AddrSpec → Result SipUri
get_sip_uri (sip_uri u) = ok u
get_sip_uri _ = err not_sip_uri

unfoldable pub get_absolute_uri : AddrSpec → Result Bytes
get_absolute_uri (absolute_uri s) = ok s
get_absolute_uri _ = err not_absolute_uri

-- AddrSpec.String
unfoldable pub print_addr_spec : AddrSpec → Bytes
unfolding print_sip_uri
print_addr_spec (sip_uri u) = print_sip_uri u
print_addr_spec (absolute_uri s) = s
print_addr_spec no_uri = []

-- AddrSpec.Write, which takes an absolute URI for a format
unfoldable pub write_addr_spec : AddrSpec → Bytes
unfolding print_sip_uri printf
write_addr_spec (sip_uri u) = print_sip_uri u
write_addr_spec (absolute_uri s) = printf s
write_addr_spec no_uri = []

pub record NameAddr : Type 0 where
  pub display_name : Bytes
  pub addr : AddrSpec

-- The text before the first `<`, and the text between it and the first `>` of all.
unfoldable pub between : Option (Bytes × Bytes) → Option (Bytes × Bytes) → Result (Bytes × Bytes)
unfolding cut
between (some (name, behind)) (some (before, _)) =
    if ltb (length before) (length name)
    then err malformed_name_addr
    else ok (name, drop (length name + 1) before)
between _ _ = err malformed_name_addr

unfoldable pub parse_name_addr : Bytes → Result NameAddr
unfolding between cut parse_addr_spec
parse_name_addr s = do
  parts ← between (cut b'<' s) (cut b'>' s)
  a ← parse_addr_spec parts.1
  ok (record { display_name = parts.0; addr = a })

unfoldable pub print_name_addr : NameAddr → Bytes
unfolding write_addr_spec printf
print_name_addr na = printf na.display_name ++ (b'<' ∷ (write_addr_spec na.addr ++ (b'>' ∷ [])))
