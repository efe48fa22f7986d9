-- ===== src/Tests/Network.antt =====
-- The resolvers, the connections of TCP backends and the client transports at concrete values.
use sipproxy.Clients.FailOver
use sipproxy.Clients.{FailOverClient, Clients, create_udp_client, new_clients, fail_over_send}
use sipproxy.Clients.FailOver.{IsOnlyPrimary, Reach-IsOnlyPrimary, new_tcp_transport-refuses}
use sipproxy.Clients.Lookup.{get_client_transport_twice}
use sipproxy.Clients.Manager.{
  clean_expired_transport, is_supported, Surroundings, get_client_transport, use_connection,
}
use sipproxy.Dict.{dict_get}
use sipproxy.Prelude.{
  ℕ, ◌+◌, ◌≡◌, refl, true, false, none, some, [], ◌∷◌, ◌++◌, arith, ltb, get_elem?, no_address,
  send_failed, ok, err, is_ok, pos,
}
use sipproxy.Resolver.{
  in_str_array, str_array_sub, resolved_ips, ips_or_name, get_ips, Notice, HostEntry, entry_changed,
  entry_resolved,
}
use sipproxy.Resolver.Cache.{get_ips-cached, fail_times, fail_times_lem}
use sipproxy.Resolver.Sync.{
  next, here, informed, informed_all, Watch, queued, resolved, delivered, IsSynced, Reach-IsSynced,
}
use sipproxy.Resolver.Overtaking.{overtaken_notice}
use sipproxy.Stream.{Stream, Network, tcp_backend_send}
use sipproxy.Stream.Retry.{IsBalanced, Ends, tcp_backend_send-keeps, tcp_backend_send-reconnects}
use sipproxy.Text.{Bytes, codes, str_eq, to_lower}

abbrev host_a : Bytes
host_a = codes "10.0.0.1"

abbrev host_b : Bytes
host_b = codes "10.0.0.2"

abbrev first_entry : HostEntry
first_entry = record { addrs = host_a ∷ []; failed = 0; callbacks = 1 ∷ [] }

abbrev watch : Watch
watch = record { entry = first_entry; pending = []; known = host_a ∷ [] }

abbrev moved : Watch
moved = record watch {
  entry = (entry_resolved (ok (host_b ∷ [])) first_entry).0;
  pending = watch.pending ++ queued (entry_resolved (ok (host_b ∷ [])) first_entry).1;
}

moved_notice : entry_resolved (ok (host_b ∷ [])) first_entry ≡ (
  record first_entry { addrs = host_b ∷ [] },
  some (record { new_addrs = host_b ∷ []; removed_addrs = host_a ∷ [] }),
)
unfolding entry_resolved entry_changed str_array_sub in_str_array str_eq
moved_notice = refl

abbrev told : Notice
told = record { new_addrs = host_b ∷ []; removed_addrs = host_a ∷ [] }

abbrev informed_watch : Watch
informed_watch = record moved { pending = []; known = informed told moved.known }

moved_pending : moved.pending ≡ told ∷ []
unfolding entry_resolved entry_changed queued str_array_sub in_str_array str_eq
moved_pending = refl

Reach-IsSynced_example : IsSynced informed_watch
unfolding informed_all
Reach-IsSynced_example =
    Reach-IsSynced
      (next (next here (resolved (ok (host_b ∷ [])) watch))
        (delivered [] told [] moved moved_pending (λ x h. tt)))
      (λ x. refl)

overtaken_notice_example :
    let after = entry_resolved (ok (host_b ∷ [])) first_entry in
    let last = entry_resolved (ok (host_a ∷ [])) after.0 in
    (in_str_array host_b (informed_all (queued last.1 ++ queued after.1) (host_a ∷ [])) ≡ true)
    × (in_str_array host_b last.0.addrs ≡ false)
unfolding in_str_array str_eq
overtaken_notice_example =
    overtaken_notice host_b (host_b ∷ []) (host_a ∷ []) first_entry (host_a ∷ []) refl refl refl

get_ips-cached_example :
    (get_ips
      (λ s. false)
      (err no_address)
      15
      15
      15
      (codes "sip.lan")
      (get_ips (λ s. false) (ok (host_a ∷ [])) 10 10 10 (codes "sip.lan") []).1).0
    ≡ ips_or_name (codes "sip.lan") (resolved_ips (codes "sip.lan") (ok (host_a ∷ [])))
unfolding dict_get
get_ips-cached_example =
    get_ips-cached (λ s. false) (ok (host_a ∷ [])) (err no_address) 10 10 10 15 15 15
      (codes "sip.lan") [] refl refl (omega arith) (omega arith) (omega arith)

fail_times_lem_example :
    (fail_times 3 first_entry ≡ (record first_entry { failed = 3 }, []))
    × (fail_times 4 first_entry ≡ (
      record first_entry { addrs = []; failed = 0 },
      record { new_addrs = []; removed_addrs = host_a ∷ [] } ∷ [],
    ))
fail_times_lem_example = fail_times_lem 3 first_entry refl (λ e. cc)

-- The held connection 5 breaks, and 11 is dialled in the second round.
abbrev network : Network
network = record { dial = λ i. some (i + 10); write = λ i c. ltb 5 c }

abbrev idle : Stream
idle = record { conn = none; events = [] }

tcp_backend_send-keeps_example :
    IsBalanced (tcp_backend_send network idle).1 × Ends (tcp_backend_send network idle)
tcp_backend_send-keeps_example = tcp_backend_send-keeps network idle refl

tcp_backend_send-reconnects_example : is_ok (tcp_backend_send network idle).0 ≡ true
tcp_backend_send-reconnects_example = tcp_backend_send-reconnects network idle 11 refl refl

abbrev surroundings : Surroundings
surroundings = record {
  join = λ host port. host ++ (b':' ∷ port);
  show_conn = λ t. t.address;
  learned = λ host protocol. none;
  route_address = λ host protocol. [];
}

get_client_transport_twice_example :
    get_client_transport surroundings 20
      (λ i. 20)
      (codes "UDP")
      host_a
      (pos 5060)
      []
      (get_client_transport surroundings 10
        (λ i. 10)
        (codes "UDP")
        host_a
        (pos 5060)
        []
        (new_clients 0)).1
    ≡ get_client_transport surroundings 10
        (λ i. 10)
        (codes "UDP")
        host_a
        (pos 5060)
        []
        (new_clients 0)
unfolding is_supported to_lower str_eq get_client_transport new_clients
get_client_transport_twice_example =
    get_client_transport_twice surroundings 10 (λ i. 10) 20 (λ i. 20) (codes "UDP") host_a
      (pos 5060) [] (new_clients 0) refl (omega arith)

abbrev asked : Clients
asked =
    (get_client_transport surroundings 10 (λ i. 10) (codes "tcp") host_a (pos 5060) []
      (new_clients 0)).1

-- By then a UDP listener is learned for the host.
abbrev learned_since : Surroundings
learned_since = record surroundings {
  learned = λ host protocol.
      some (record { protocol = codes "udp"; address = host_b; local_port = pos 5060 });
}

abbrev connected_clients : Clients
connected_clients = use_connection host_b (pos 6000) 12 0 (
    (create_udp_client host_b (pos 5060) (codes ":0")
      (get_client_transport learned_since 11 (λ i. 11) (codes "udp") host_b (pos 5060) []
        asked).1).1)

Reach-IsOnlyPrimary_example : IsOnlyPrimary connected_clients
Reach-IsOnlyPrimary_example = Reach-IsOnlyPrimary 0 (
    FailOver.next
      (FailOver.next
        (FailOver.next
          (FailOver.next FailOver.here (
            FailOver.got surroundings 10 (λ i. 10) (codes "tcp") host_a (pos 5060) []
              (new_clients 0)))
          (FailOver.got learned_since 11 (λ i. 11) (codes "udp") host_b (pos 5060) [] asked))
        (FailOver.created host_b (pos 5060) (codes ":0") _))
      (FailOver.accepted host_b (pos 6000) 12 0 _))

new_tcp_transport-refuses_example :
    (i : ℕ) × (f : FailOverClient) × (((get_client_transport surroundings 10
          (λ i. 10)
          (codes "TCP")
          host_a
          (pos 5060)
          []
          (new_clients 0)).0
        ≡ ok i)
      × ((get_elem?
              (get_client_transport surroundings 10
                (λ i. 10)
                (codes "TCP")
                host_a
                (pos 5060)
                []
                (new_clients 0)).1.fail_overs
              i
            ≡ some f)
          × (fail_over_send (λ c. true) f ≡ err send_failed)))
unfolding to_lower clean_expired_transport new_clients dict_get
new_tcp_transport-refuses_example =
    new_tcp_transport-refuses surroundings 10 (λ i. 10) (codes "TCP") host_a (pos 5060) []
      (new_clients 0) (λ c. true) refl refl
