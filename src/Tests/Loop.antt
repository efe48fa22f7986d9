-- ===== src/Tests/Loop.antt =====
-- A round of the loop for a packet, and the surroundings that the tests of the loop share.
use sipproxy.Clients.{new_clients}
use sipproxy.Dispatch.{SessionStore, local_store}
use sipproxy.Dispatch.Choice.{pool_of}
use sipproxy.Loop.{Outside, ProxyState, Settings}
use sipproxy.Loop.Rounds.{process_message_survives}
use sipproxy.Loop.Sends.{process_message}
use sipproxy.Message.{Message}
use sipproxy.Pool.{new_pool}
use sipproxy.Prelude.{
  ℕ, ◌≡◌, refl, true, none, some, [], ◌∷◌, ◌++◌, ok, pos, inl, false, no_route, err, is_ok,
}
use sipproxy.Server.{RawMessage}
use sipproxy.Session.{LocalSessions}
use sipproxy.Text.{codes}

abbrev pub empty_message : Message
empty_message = record {
  request = none;
  response = none;
  headers = [];
  body = [];
  received_from = none;
}

abbrev store_of_calls : SessionStore LocalSessions
store_of_calls =
    local_store
      (record { get_now = 10; now = 10; test_now = 10; clean_now = 10; entry_now = λ id. 10 })

abbrev pub outside : ℕ → Outside LocalSessions
outside t = record {
  branch = ok (codes "z9hG4bK1");
  clock = λ i. t;
  now = t;
  client_now = λ i. t;
  accept_now = t;
  ips_of = λ host. [];
  join = λ host port. host ++ (b':' ∷ port);
  show_conn = λ u. u.address;
  local_of = λ u. u.address;
  takes = λ i. true;
  delivers = λ b. true;
  keeper = store_of_calls;
}

abbrev pub start : ProxyState LocalSessions
start = record {
  routes = record { clean_interval = 60; last_clean_time = 0; expire = 1200; route = [] };
  clients = new_clients 0;
  items = [];
  sessions = record { timeout = 30; sessions = []; next_clean_time = 0 };
}

abbrev pub from_peer : RawMessage
from_peer = record {
  peer_addr = codes "10.0.0.1";
  peer_port = pos 40000;
  message = empty_message;
  from = record { protocol = codes "tcp"; address = codes "10.0.0.9"; local_port = pos 5060 };
  received_support = true;
  conn = some 7;
  prefer = none;
  via = none;
}

abbrev settings : Settings
settings = record {
  must_record_route = true;
  keep_next_hop_route = false;
  my_name = record { names = codes "sip.lan" ∷ []; patterns = [] };
  find = λ host. err no_route;
}

abbrev packet : RawMessage
packet = record from_peer {
  from = record { protocol = codes "udp"; address = codes "10.0.0.9"; local_port = pos 5060 };
  conn = none;
  prefer = some 0;
}

abbrev listening : ProxyState LocalSessions
listening = record start {
  items = record { transports = packet.from ∷ []; pool = some new_pool } ∷ [];
}

process_message_survives_example :
    is_ok (process_message settings (outside 10) packet listening) ≡ true
unfolding pool_of
process_message_survives_example =
    process_message_survives settings (outside 10) packet 0 new_pool (inl refl) refl listening refl
      refl
