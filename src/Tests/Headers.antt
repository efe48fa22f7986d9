-- ===== src/Tests/Headers.antt =====
-- The theorems on printed and parsed headers at concrete values.
use sipproxy.Address.{sip_uri, NameAddr, print_name_addr}
use sipproxy.Address.RoundTrip.{IsAddr, IsNameAddr}
use sipproxy.CSeq.{CSeq}
use sipproxy.KeyValue.{KeyValue}
use sipproxy.Party.{parse_from_spec, print_from_spec}
use sipproxy.Party.RoundTrip.{IsTail, parse-print_from_spec, named}
use sipproxy.Prelude.{◌≡◌, refl, inl, inr, [], ◌∷◌, map, arith, ok, pos, true}
use sipproxy.Routes.{RouteParam, parse_record_route, print_record_route}
use sipproxy.Routes.RoundTrip.{IsRoute, parse-print_record_route}
use sipproxy.SipUri.{SipUri, parse_sip_uri, print_sip_uri}
use sipproxy.SipUri.Pieces.{IsSipUri}
use sipproxy.SipUri.RoundTrip.{parse-print_sip_uri}
use sipproxy.Text.{codes, lacks}
use sipproxy.Via.{ViaParam, print_via, parse_via}
use sipproxy.Via.RoundTrip.{IsViaParam, with_port, parse-print_via}

abbrev rport : KeyValue
rport = record { key = codes "rport"; value = [] }

abbrev tag : KeyValue
tag = record { key = codes "tag"; value = codes "9fx" }

abbrev edge : ViaParam
edge = record {
  protocol_name = codes "SIP";
  protocol_version = codes "2.0";
  transport = codes "UDP";
  host = codes "10.0.0.1";
  port = pos 5070;
  params = rport ∷ [];
}

edge-IsViaParam : IsViaParam edge
edge-IsViaParam = record {
  name_word = (refl, (refl, (refl, (refl, tt))));
  version_word = (refl, (refl, (refl, (refl, tt))));
  transport_word = (refl, (refl, (refl, (refl, tt))));
  host_word = (refl, (refl, (refl, (refl, tt))));
  port_int = omega arith;
  params_clean = (
    record {
      printable = record { key_clean = refl; key_plain = refl; value_plain = refl };
      key_free = (refl, (refl, tt));
      value_free = (refl, (refl, tt));
    },
    tt,
  );
}

parse-print_via_example :
    parse_via (print_via (record { params = edge ∷ [] }))
    ≡ ok (record { params = map with_port (edge ∷ []) })
parse-print_via_example =
    parse-print_via (record { params = edge ∷ [] }) (λ e. cc) (edge-IsViaParam, tt)

abbrev alice : SipUri
alice = record {
  scheme = codes "sip";
  user = codes "alice";
  password = codes "pw";
  host = codes "example.com";
  port = pos 5061;
  parameters =
      record { key = codes "transport"; value = codes "tcp" }
      ∷ record { key = codes "lr"; value = [] }
      ∷ [];
  headers = record { key = codes "subject"; value = codes "x" } ∷ [];
}

alice-IsSipUri : IsSipUri alice
alice-IsSipUri = record {
  scheme_known = inl refl;
  user_free = (refl, (refl, (refl, (refl, tt))));
  password_free = (refl, (refl, (refl, tt)));
  password_owned = λ e. cc;
  host_free = (refl, (refl, (refl, (refl, tt))));
  port_int = omega arith;
  parameters_clean = (
    record {
      key_free = (refl, (refl, (refl, tt)));
      value_free = (refl, (refl, tt));
      valued = inl (λ e. cc);
    },
    (
      record {
        key_free = (refl, (refl, (refl, tt)));
        value_free = (refl, (refl, tt));
        valued = inr refl;
      },
      tt,
    ),
  );
  headers_clean = (record { key_free = (refl, (refl, tt)); value_free = (refl, tt) }, tt);
}

parse-print_sip_uri_example : parse_sip_uri (print_sip_uri alice) ≡ ok alice
parse-print_sip_uri_example = parse-print_sip_uri alice alice-IsSipUri

abbrev named_alice : NameAddr
named_alice = record { display_name = codes "Alice "; addr = sip_uri alice }

alice-IsAddr : IsAddr (sip_uri alice)
unfolding print_sip_uri
alice-IsAddr = (alice-IsSipUri, refl, refl)

named_alice-IsNameAddr : IsNameAddr named_alice
named_alice-IsNameAddr = record {
  name_plain = refl;
  name_open = refl;
  name_close = refl;
  addr_clean = alice-IsAddr;
}

tag-IsTail : IsTail (tag ∷ [])
tag-IsTail = record {
  clean = (
    record {
      printable = record { key_clean = refl; key_plain = refl; value_plain = refl };
      key_free = (refl, tt);
      value_free = (refl, tt);
    },
    tt,
  );
  named = ((λ e. cc), tt);
}

parse-print_from_spec_example :
    parse_from_spec (print_from_spec (named named_alice (tag ∷ [])))
    ≡ ok (named named_alice (tag ∷ []))
parse-print_from_spec_example =
    parse-print_from_spec named_alice (tag ∷ []) named_alice-IsNameAddr tag-IsTail

abbrev route : RouteParam
route = record {
  name_addr = named_alice;
  rr_param = record { key = codes "ftag"; value = codes "1" } ∷ [];
}

comma : lacks b',' (print_name_addr named_alice) ≡ true
unfolding print_name_addr
comma = refl

route_IsRoute : IsRoute route
route_IsRoute = record {
  addr = named_alice-IsNameAddr;
  addr_comma = comma;
  clean = (
    record {
      printable = record { key_clean = refl; key_plain = refl; value_plain = refl };
      key_free = (refl, (refl, tt));
      value_free = (refl, (refl, tt));
    },
    tt,
  );
  solid_params =
      ((record { key_clean = refl; key_plain = refl; value_plain = refl }, (refl, refl)), tt);
  named = ((λ e. cc), tt);
}

parse-print_record_route_example :
    parse_record_route (print_record_route (record { rec_route = route ∷ [] }))
    ≡ ok (record { rec_route = route ∷ [] })
parse-print_record_route_example = parse-print_record_route route [] (route_IsRoute, tt)

abbrev invite : CSeq
invite = record { seq = pos 314159; method = codes "INVITE" }
