-- ===== src/Tests/Wire.antt =====
-- A request and its bytes, and runs of the reader and the proxy's operations.
use sipproxy.Address.{absolute_uri, print_addr_spec}
use sipproxy.Message.{
  RequestLine, add_compact, lookup_compact, compact_names, get_compact, is_same_header,
  is_final_code,
}
use sipproxy.Message.Wire.{parse_message, message_bytes}
use sipproxy.Message.Wire.Lines.{text_header, IsTextHeader}
use sipproxy.Message.Wire.Pieces.{length_header, IsRequestLine}
use sipproxy.Message.Wire.RoundTrip.{request_of, parse-message_bytes}
use sipproxy.Prelude.{
  ◌≡◌, ◌≢◌, refl, false, some, [], ◌∷◌, ◌++◌, map, arith, out_of_fuel, ok, pos, ◌>>=◌, true, none,
}
use sipproxy.Server.{
  filled, parse_packet, TcpServer, receive_messages, tcp_raw_message, tcp_receive,
}
use sipproxy.Server.Framing.{receive_messages_ends}
use sipproxy.Server.Streams.{
  Sent, IsSent, bytes_of, received_of, stream_of, tcp_receive-stream, parse_packet-sent,
}
use sipproxy.Text.{Bytes, codes, str_eq, starts_with, drop_space, trim_space, to_lower}

abbrev options : RequestLine
options = record {
  method = codes "OPTIONS";
  request_uri = absolute_uri (codes "tel:1");
  version = codes "SIP/2.0";
}

options-IsRequestLine : IsRequestLine options
unfolding starts_with print_addr_spec
options-IsRequestLine = record {
  method_word = refl;
  method_there = λ e. cc;
  no_status = refl;
  uri_clean = (refl, refl, refl, refl, refl);
  uri_word = refl;
  uri_there = λ e. cc;
  version_word = refl;
  version_there = λ e. cc;
}

abbrev call_id : Bytes × Bytes
call_id = (codes "Call-ID", codes "a84 b4")

call_id-IsTextHeader : IsTextHeader call_id
unfolding trim_space drop_space is_same_header
call_id-IsTextHeader = record {
  name_colon = refl;
  name_line = refl;
  text_line = refl;
  trimmed = refl;
  no_length = refl;
}

parse-message_bytes_example :
    parse_message (message_bytes (request_of options (map text_header (call_id ∷ [])) (codes "hi")))
    ≡ ok (
      request_of options (map text_header (call_id ∷ []) ++ length_header 2 ∷ []) (codes "hi"),
      [],
    )
parse-message_bytes_example =
    parse-message_bytes options (call_id ∷ []) (codes "hi") options-IsRequestLine
      (call_id-IsTextHeader, tt) (omega arith)

compact_via : get_compact (codes "VIA") ≡ some (codes "v")
unfolding get_compact lookup_compact compact_names add_compact str_eq to_lower
compact_via = refl

final_codes : is_final_code (pos 180) ≡ false
unfolding is_final_code
final_codes = refl

abbrev greeting : Sent
greeting = record { line = options; headers = call_id ∷ []; body = codes "hi" }

greeting-IsSent : IsSent greeting
greeting-IsSent = record {
  line = options-IsRequestLine;
  headers = (call_id-IsTextHeader, tt);
  short = omega arith;
}

abbrev tcp_listener : TcpServer
tcp_listener = record {
  address = codes "10.0.0.9";
  port = pos 5060;
  conn = none;
  received_support = true;
  prefer = none;
  via = none;
  exit = false;
}

tcp_receive-stream_example :
    (tcp_receive tcp_listener 7
      (codes "10.0.0.1")
      (pos 5070)
      (stream_of (greeting ∷ greeting ∷ []))).0
    ≡ map
        (tcp_raw_message tcp_listener 7 (codes "10.0.0.1") (pos 5070))
        (received_of greeting ∷ received_of greeting ∷ [])
tcp_receive-stream_example =
    tcp_receive-stream tcp_listener 7 (codes "10.0.0.1") (pos 5070) (greeting ∷ greeting ∷ [])
      (greeting-IsSent, (greeting-IsSent, tt))

receive_messages_ends_example :
    ((receive_messages 9 (codes "x\r\n\r\n")).1 ≢ out_of_fuel)
    × (receive_messages 9 (codes "x\r\n\r\n") ≡ receive_messages 6 (codes "x\r\n\r\n"))
receive_messages_ends_example =
    receive_messages_ends 9 6 (codes "x\r\n\r\n") (omega arith) (omega arith)

parse_packet-sent_example :
    parse_packet (bytes_of greeting) (codes "an earlier packet") ≡ ok (received_of greeting)
parse_packet-sent_example = parse_packet-sent greeting (codes "an earlier packet") greeting-IsSent

-- A packet that ends early is filled up from the buffer.
abbrev cut_short : Bytes
cut_short = codes "OPTIONS tel:1 SIP/2.0\r\nContent-Length: 4\r\n\r\nhi"

abbrev full : Bytes
full = codes "OPTIONS tel:1 SIP/2.0\r\nContent-Length: 4\r\n\r\nolleh"

cut_short_packet : (do m ← parse_packet cut_short full; ok m.body) ≡ ok (codes "hile")
unfolding parse_packet filled
cut_short_packet = refl
