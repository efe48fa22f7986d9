-- ===== src/Server.antt =====
-- The server transports of transport.go: what UDPServerTransport and TCPServerTransport make of the
-- bytes that come in. The goroutines are left out: a packet or a connection is handled by one function.
pub mod Framing
pub mod Streams
use sipproxy.Dispatch.{ViaConfig}
use sipproxy.Message.{ServerTransport, Message}
use sipproxy.Message.Access.{◌>>◌}
use sipproxy.Message.Wire.{parse_message}
use sipproxy.Prelude.{
  ◌>>=◌, ℕ, zero, suc, Bool, true, false, Option, none, some, List, [], ◌∷◌, ◌++◌, map, length,
  drop, Error, out_of_fuel, Result, ok, err, ℤ,
}
use sipproxy.Text.{Bytes, codes}

-- RawMessage: `conn` is TcpConn, and `prefer` the item whose pool is Backend.
pub record RawMessage : Type 0 where
  pub peer_addr : Bytes
  pub peer_port : ℤ
  pub message : Message
  pub from : ServerTransport
  pub received_support : Bool
  pub conn : Option ℕ
  pub prefer : Option ℕ
  pub via : Option ViaConfig

unfoldable pub new_raw_message :
    Bytes → ℤ → ServerTransport → Bool → Message → Option ℕ → Option ViaConfig → RawMessage
new_raw_message peer_addr peer_port from received_support m prefer via = record {
  peer_addr = peer_addr;
  peer_port = peer_port;
  message = m;
  from = from;
  received_support = received_support;
  conn = none;
  prefer = prefer;
  via = via;
}

-- UDPServerTransport; GetPort is that of the local address.
pub record UdpServer : Type 0 where
  pub local_addr : Bytes
  pub port : ℤ
  pub received_support : Bool
  pub prefer : Option ℕ
  pub via : Option ViaConfig

unfoldable pub udp_transport : UdpServer → ServerTransport
udp_transport u = record { protocol = codes "udp"; address = u.local_addr; local_port = u.port }

-- ReadFromUDP into a buffer of the pool: the bytes behind the packet stay as they were.
unfoldable pub filled : Bytes → Bytes → Bytes
filled packet buffer = packet ++ drop (length packet) buffer

-- startParseMessage for a packet: the reader is over the whole buffer.
unfoldable pub parse_packet : Bytes → Bytes → Result Message
unfolding filled parse_message
parse_packet packet buffer = do r ← parse_message (filled packet buffer); ok r.0

unfoldable pub udp_received : UdpServer → Bytes → ℤ → Result Message → List RawMessage
unfolding new_raw_message udp_transport
udp_received u peer_addr peer_port (err _) = []
udp_received u peer_addr peer_port (ok m) =
    new_raw_message peer_addr peer_port (udp_transport u) u.received_support m u.prefer u.via ∷ []

unfoldable pub udp_receive : UdpServer → Bytes → ℤ → Bytes → Bytes → List RawMessage
unfolding udp_received parse_packet
udp_receive u peer_addr peer_port packet buffer =
    udp_received u peer_addr peer_port (parse_packet packet buffer)

-- TCPServerTransport; a listening one has no connection.
pub record TcpServer : Type 0 where
  pub address : Bytes
  pub port : ℤ
  pub conn : Option ℕ
  pub received_support : Bool
  pub prefer : Option ℕ
  pub via : Option ViaConfig
  pub exit : Bool

unfoldable pub new_tcp_server : Bytes → ℤ → Bool → Option ℕ → Option ViaConfig → TcpServer
new_tcp_server addr port received_support prefer via = record {
  address = addr;
  port = port;
  conn = none;
  received_support = received_support;
  prefer = prefer;
  via = via;
  exit = false;
}

-- NewTCPServerTransportWithConn, at the local address of the connection
unfoldable pub new_tcp_server_with_conn : ℕ → Bytes → ℤ → Bool → Option ℕ → TcpServer
new_tcp_server_with_conn conn addr port received_support prefer = record {
  address = addr;
  port = port;
  conn = some conn;
  received_support = received_support;
  prefer = prefer;
  via = none;
  exit = false;
}

unfoldable pub tcp_transport : TcpServer → ServerTransport
tcp_transport t = record { protocol = codes "tcp"; address = t.address; local_port = t.port }

unfoldable pub is_exit : TcpServer → Bool
is_exit t = elim t.conn [ none ↦ false | some _ ↦ t.exit ]

-- The loop of receiveMessage over all that the connection will bring, up to the error that ends it.
-- The fuel is the number of messages that it can read; running out of it is an error of its own.
unfoldable pub receive_messages : ℕ → Bytes → List Message × Error
unfolding parse_message
receive_messages zero s = ([], out_of_fuel)
receive_messages (suc f) s = elim (parse_message s) [
  | err e ↦ ([], e)
  | ok r ↦ (r.0 ∷ (receive_messages f r.1).0, (receive_messages f r.1).1)
]

unfoldable pub tcp_raw_message : TcpServer → ℕ → Bytes → ℤ → Message → RawMessage
unfolding new_raw_message tcp_transport
tcp_raw_message t conn peer_addr peer_port m =
    record (new_raw_message peer_addr peer_port (tcp_transport t) t.received_support
      (record m { received_from = some (tcp_transport t) }) t.prefer t.via) { conn = some conn }

-- TCPServerTransport.receiveMessage: what is handed on, and the transport at its end
unfoldable pub tcp_receive : TcpServer → ℕ → Bytes → ℤ → Bytes → List RawMessage × TcpServer
unfolding receive_messages tcp_raw_message
tcp_receive t conn peer_addr peer_port s = (
  map (tcp_raw_message t conn peer_addr peer_port) (receive_messages (suc (length s)) s).0,
  elim t.conn [ none ↦ t | some _ ↦ record t { exit = true } ],
)
