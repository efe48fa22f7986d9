-- ===== src/Server/Streams.antt =====
-- The messages that peers send are the messages that the server transports hand on.
use sipproxy.Message.{RequestLine, Message}
use sipproxy.Message.Wire.{read_line, skip_white_space, parse_lines, parse_message, message_bytes}
use sipproxy.Message.Wire.Lines.{text_header, IsTextHeader}
use sipproxy.Message.Wire.Pieces.{length_header, IsRequestLine}
use sipproxy.Message.Wire.RoundTrip.{request_of, parse-message_bytes_rest}
use sipproxy.Prelude.{
  ℕ, suc, ◌+◌, ◌<◌, ◌≡◌, refl, ap, ◌∙◌, List, [], ◌∷◌, ◌++◌, map, arith, length, drop, All, Error,
  end_of_input, ok, ℤ,
}
use sipproxy.Server.{
  filled, parse_packet, TcpServer, receive_messages, tcp_raw_message, tcp_receive,
}
use sipproxy.Server.Framing.{receive_messages_enough}
use sipproxy.Text.{Bytes, cut}

-- A request with text headers, which a peer sends.
pub record Sent : Type 0 where
  pub line : RequestLine
  pub headers : List (Bytes × Bytes)
  pub body : Bytes

pub record IsSent (x : Sent) : Type 0 where
  pub line : IsRequestLine x.line
  pub headers : All IsTextHeader x.headers
  pub short : length x.body < 9223372036854775808

abbrev pub bytes_of : Sent → Bytes
bytes_of x = message_bytes (request_of x.line (map text_header x.headers) x.body)

-- It comes with the Content-Length that the writer adds.
abbrev pub received_of : Sent → Message
received_of x =
    request_of x.line (map text_header x.headers ++ length_header (length x.body) ∷ []) x.body

abbrev pub stream_of : List Sent → Bytes
stream_of [] = []
stream_of (x ∷ xs) = bytes_of x ++ stream_of xs

receive-stream :
    (xs : List Sent) (f : ℕ)
    → All IsSent xs
    → receive_messages (length xs + suc f) (stream_of xs) ≡ (map received_of xs, end_of_input)
unfolding receive_messages parse_message parse_lines read_line skip_white_space cut
receive-stream [] f h =
    let same : 0 + suc f ≡ suc f = omega arith in ap (λ n. receive_messages n []) same
receive-stream (x ∷ xs) f h =
    let same : suc (length xs) + suc f ≡ suc (length xs + suc f) = omega arith in
    let first : parse_message (bytes_of x ++ stream_of xs) ≡ ok (received_of x, stream_of xs) =
      parse-message_bytes_rest x.line x.headers x.body (stream_of xs) h.0.line h.0.headers
        h.0.short in
    ap (λ n. receive_messages n (bytes_of x ++ stream_of xs)) same
    ∙ rw (receive_messages, first)
        (ap (λ (r : List Message × Error). (received_of x ∷ r.0, r.1)) (receive-stream xs f h.1))

-- Of a connection that brings some requests one after another and then ends, the transport hands on
-- these requests in order, each with the Content-Length that the writer added; if every request has a
-- well-formed request line, text headers and a body shorter than 2 ^ 63 bytes.
pub tcp_receive-stream :
    (t : TcpServer) (conn : ℕ) (peer_addr : Bytes) (peer_port : ℤ) (xs : List Sent)
    → All IsSent xs
    → (tcp_receive t conn peer_addr peer_port (stream_of xs)).0
      ≡ map (tcp_raw_message t conn peer_addr peer_port) (map received_of xs)
unfolding tcp_receive
tcp_receive-stream t conn peer_addr peer_port xs h =
    let n : ℕ = length (stream_of xs) in
    ap (λ (r : List Message × Error). map (tcp_raw_message t conn peer_addr peer_port) r.0)
      (receive_messages_enough (suc n) (length xs + suc n) (stream_of xs) (omega arith)
          (omega arith)
        ∙ receive-stream xs n h)

-- A packet that holds a whole request is read as this request, whatever an earlier packet left in the
-- buffer; if the request has a well-formed request line, text headers and a body shorter than 2 ^ 63
-- bytes.
pub parse_packet-sent :
    (x : Sent) (buffer : Bytes) → IsSent x → parse_packet (bytes_of x) buffer ≡ ok (received_of x)
unfolding parse_packet filled
parse_packet-sent x buffer h =
    let rest : Bytes = drop (length (bytes_of x)) buffer in
    let first : parse_message (bytes_of x ++ rest) ≡ ok (received_of x, rest) =
      parse-message_bytes_rest x.line x.headers x.body rest h.line h.headers h.short in
    rw (parse_packet, first) refl
