-- ===== src/Stream.antt =====
-- Sending over a connection that is made when it is needed and dropped when it fails: TCPBackend of
-- backend.go, TCPClientTransport and UDPClientTransport of transport.go. A connection is named by a
-- number. What the network does in a round is an argument: the connection that a dial makes, and
-- whether a write succeeds.
pub mod Retry
use sipproxy.Prelude.{
  ℕ, zero, suc, ◌+◌, Bool, false, ◌||◌, Option, none, some, List, [], ◌∷◌, ◌++◌, if◌then◌else◌,
  no_address, send_failed, Result, ok, err,
}
use sipproxy.Text.{Bytes}

-- What happens to connections, in order; an opened one is handed to `connectionEstablished` too.
pub data Event : Type 0 where
  opened : ℕ → Event
  wrote : ℕ → Event
  closed : ℕ → Event

-- A sender's connection, and the events so far.
pub record Stream : Type 0 where
  pub conn : Option ℕ
  pub events : List Event

unfoldable pub log : Event → Stream → Stream
log e s = record s { events = s.events ++ e ∷ [] }

unfoldable pub connected : Option ℕ → Stream → Stream
unfolding log
connected none s = s
connected (some c) s = log (opened c) (record s { conn = some c })

-- `if t.conn == nil { t.connect() }`
unfoldable pub connect_if_needed : Option ℕ → Option ℕ → Stream → Stream
unfolding connected
connect_if_needed none dialled s = connected dialled s
connect_if_needed (some _) dialled s = s

-- One write: the connection is closed and forgotten if it fails.
unfoldable pub write_once : (ℕ → Bool) → Option ℕ → Stream → Result ℕ × Stream
unfolding log
write_once write none s = (err send_failed, s)
write_once write (some c) s =
    if write c
    then (ok c, log (wrote c) s)
    else (err send_failed, log (closed c) (record s { conn = none }))

unfoldable pub send_round : Option ℕ → (ℕ → Bool) → Stream → Result ℕ × Stream
unfolding connect_if_needed write_once
send_round dialled write s =
    let s' = connect_if_needed s.conn dialled s in write_once write s'.conn s'

-- What the network does in each round.
pub record Network : Type 0 where
  pub dial : ℕ → Option ℕ
  pub write : ℕ → ℕ → Bool

-- The rounds of the loop, `left` more from `i` on.
unfoldable pub send_rounds : Network → ℕ → ℕ → Stream → Result ℕ × Stream
unfolding send_round
send_rounds net zero i s = (err send_failed, s)
send_rounds net (suc left) i s =
    let round = send_round (net.dial i) (net.write i) s in
    elim round.0 [ ok c ↦ round | err _ ↦ send_rounds net left (i + 1) round.1 ]

-- TCPBackend.Send; the message's bytes are always there, and the write takes all of them.
unfoldable pub tcp_backend_send : Network → Stream → Result ℕ × Stream
unfolding send_rounds
tcp_backend_send net s = send_rounds net 2 0 s

unfoldable pub close_stream : Option ℕ → Stream → Stream
unfolding log
close_stream none s = s
close_stream (some c) s = log (closed c) s

-- TCPBackend.Close, which keeps the closed connection
unfoldable pub tcp_backend_close : Stream → Stream
unfolding close_stream
tcp_backend_close s = close_stream s.conn s

-- createConnection: the first address of the host that can be dialled
unfoldable pub first_dialled : (Bytes → Option ℕ) → List Bytes → Option ℕ
first_dialled dial [] = none
first_dialled dial (ip ∷ ips) =
    let rest = first_dialled dial ips in elim (dial ip) [ some c ↦ some c | none ↦ rest ]

-- TCPClientTransport.Send, where `ips` and `dial` are what the resolver and the network answer in a
-- round; one that was made of an accepted connection does not dial.
unfoldable pub client_network :
    Bool → (ℕ → List Bytes) → (ℕ → Bytes → Option ℕ) → (ℕ → ℕ → Bool) → Network
unfolding first_dialled
client_network reconnectable ips dial write = record {
  dial = λ i. if reconnectable then first_dialled (dial i) (ips i) else none;
  write = write;
}

unfoldable pub tcp_client_send :
    Bool → (ℕ → List Bytes) → (ℕ → Bytes → Option ℕ) → (ℕ → ℕ → Bool) → Stream → Result ℕ × Stream
unfolding send_rounds client_network
tcp_client_send reconnectable ips dial write s =
    send_rounds (client_network reconnectable ips dial write) 2 0 s

unfoldable pub kept_ips : (Bytes → Bool) → List Bytes → List Bytes
kept_ips is_ip [] = []
kept_ips is_ip (ip ∷ ips) = let rest = kept_ips is_ip ips in if is_ip ip then ip ∷ rest else rest

unfoldable pub some_addrs : List Bytes → Result (List Bytes)
some_addrs [] = err no_address
some_addrs (ip ∷ ips) = ok (ip ∷ ips)

-- UDPClientTransport.getPeerAddrs: the addresses of the host that net.ParseIP reads
unfoldable pub get_peer_addrs : (Bytes → Bool) → List Bytes → Result (List Bytes)
unfolding kept_ips some_addrs
get_peer_addrs is_ip ips = some_addrs (kept_ips is_ip ips)

-- UDPClientTransport.connect, once
unfoldable pub udp_connect : (Bytes → Option ℕ) → Result (List Bytes) → Option ℕ → Option ℕ
unfolding first_dialled
udp_connect dial peers (some c) = some c
udp_connect dial (err _) none = none
udp_connect dial (ok ips) none = first_dialled dial ips

-- WriteToUDP to one address after another
unfoldable pub any_written : (Bytes → Bool) → List Bytes → Bool
any_written write [] = false
any_written write (ip ∷ ips) = write ip || any_written write ips

unfoldable pub peers_or_none : Result (List Bytes) → List Bytes
peers_or_none (ok ips) = ips
peers_or_none (err _) = []

-- UDPClientTransport.Send and sendData: whether it succeeds, and the connection. One that listens
-- already is not connected to the peer.
unfoldable pub udp_client_send :
    Bool
    → (Bytes → Bool)
    → List Bytes
    → (Bytes → Option ℕ)
    → (ℕ → Bool)
    → (ℕ → Bytes → Bool)
    → Option ℕ
    → Result (Unit {0}) × Option ℕ
unfolding udp_connect get_peer_addrs any_written peers_or_none
udp_client_send pre_connected is_ip ips dial write write_to conn =
    let conn' = udp_connect dial (get_peer_addrs is_ip ips) conn in
    elim conn' [
      | none ↦ (err send_failed, none)
      | some c ↦ (
        (if (if pre_connected
              then write c
              else any_written (write_to c) (peers_or_none (get_peer_addrs is_ip ips)))
            then ok tt
            else err send_failed),
        some c,
      )
    ]
