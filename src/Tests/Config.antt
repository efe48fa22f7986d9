-- ===== src/Tests/Config.antt =====
-- A configuration with two backends at one address and a host that is listed twice.
use sipproxy.Config.{
  HostIp, BackendConfig, any_text, or_environment, to_keep_next_hop_route,
  get_default_dialog_timeout, dialog_timeout, create_pre_config_host_resolver, Url, is_network,
  Making, with_created, Watched, watch_host, add_configured, add_backends,
  create_round_robin_backend,
}
use sipproxy.Config.Backends.{create_round_robin_backend-IsPool}
use sipproxy.Config.Hosts.{get_ips-configured}
use sipproxy.Dict.{dict_get, dict_put}
use sipproxy.Pool.{
  Backend, new_pool, without, make_room, join_pool, add_backend, factory_key, kept_or_created,
  create_backend, host_ip_changed, add_ips, add_created, remove_ips,
}
use sipproxy.Pool.Members.{IsPool}
use sipproxy.PreConfigRoute.{cut_last}
use sipproxy.Prelude.{
  ◌≡◌, refl, Bool, false, some, List, [], ◌∷◌, ◌++◌, map, length, no_address, Result, ok, err, pos,
}
use sipproxy.Resolver.{is_ip_address, get_ips}
use sipproxy.Text.{Bytes, codes, str_eq, cut, to_lower}
use sipproxy.Text.Number.{atoi}

abbrev host_list : List HostIp
host_list =
    record { name = codes "pbx.lan"; ip = codes "10.0.0.1" }
    ∷ record { name = codes "gw.lan"; ip = codes "10.0.0.7" }
    ∷ []

abbrev own_list : List HostIp
own_list = record { name = codes "pbx.lan"; ip = codes "10.0.0.2" } ∷ []

get_ips-configured_example :
    (get_ips
      (λ s. false)
      (err no_address)
      5
      5
      5
      (codes "pbx.lan")
      (create_pre_config_host_resolver host_list own_list)).0
    ≡ codes "10.0.0.1" ∷ codes "10.0.0.2" ∷ []
unfolding str_eq
get_ips-configured_example =
    get_ips-configured (λ s. false) (err no_address) 5 5 5 (codes "pbx.lan") (codes "10.0.0.1")
      (codes "10.0.0.2" ∷ []) host_list own_list refl refl

abbrev url : Bytes → Result Url
url address = ok (record { scheme = codes "udp"; url_host = address })

abbrev any_local : Bytes → Bytes
any_local address = address ++ codes ":0"

abbrev is_any_ip : Bytes → Bool
is_any_ip s = str_eq s (codes "10.0.0.1")

abbrev made : Bytes → Bytes → Bytes → Result Backend
made scheme local hostport =
    ok (record { identity = length local; address = scheme ++ (codes "://" ++ hostport) })

abbrev twice : List BackendConfig
twice =
    record { backend_address = codes "10.0.0.1:5060"; local_address = codes "10.0.0.9" }
    ∷ record { backend_address = codes "10.0.0.1:5060"; local_address = [] }
    ∷ record { backend_address = codes "pbx:5062"; local_address = [] }
    ∷ []

abbrev joined : Bytes → Bytes → Bytes
joined host port = host ++ (b':' ∷ port)

-- The resolver holds an address for every name.
abbrev held : List Watched → Bytes → List Bytes
held watched host = codes "10.0.0.3" ∷ []

abbrev making : Result Making
making = create_round_robin_backend url any_local is_any_ip joined held made twice []

abbrev made_of : Result Making → Making
made_of (ok t) = t
made_of (err e) = record { pool = new_pool; factory = []; watched = [] }

making-made : making ≡ ok (made_of making)
unfolding create_round_robin_backend add_backends is_network str_eq add_configured cut_last cut
    is_ip_address with_created create_backend kept_or_created dict_get watch_host
making-made = refl

create_round_robin_backend-IsPool_example : IsPool (made_of making).pool
create_round_robin_backend-IsPool_example =
    create_round_robin_backend-IsPool url any_local is_any_ip joined held made twice []
      (made_of making) making-made

two_backends :
    map (λ b. b.address) (made_of making).pool.backends
    ≡ codes "udp://10.0.0.1:5060" ∷ codes "udp://10.0.0.3:5062" ∷ []
unfolding create_round_robin_backend add_backends is_network str_eq add_configured cut_last cut
    is_ip_address with_created create_backend kept_or_created dict_get factory_key dict_put
    add_backend make_room join_pool without new_pool watch_host host_ip_changed add_ips add_created
    remove_ips
two_backends = refl

route_not_kept : to_keep_next_hop_route [] [] ≡ false
unfolding to_keep_next_hop_route any_text str_eq or_environment to_lower
route_not_kept = refl

timeout_default : dialog_timeout (some (codes "x")) (pos 0) ≡ pos 1200
unfolding dialog_timeout get_default_dialog_timeout atoi
timeout_default = refl
