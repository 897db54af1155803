-- ===== src/Tests/Streams.antt =====
-- Tests of TCP connections.
use minimal_sip_proxy_sip_cl.Base.{
  ◌≡◌, ◌++◌, ◌<◌, ◌^◌, append-nil, refl, true, false, none, some, inl, inr, [], ◌∷◌, List, Bytes,
  codes, arith, find, starts_with, str_eq, to_string, map, length,
}
use minimal_sip_proxy_sip_cl.Sip.Message.{
  SipMessage, header, set_in, serialize, update_content_length,
}
use minimal_sip_proxy_sip_cl.Proxy.Parser.{parse}
use minimal_sip_proxy_sip_cl.Proxy.Parser.Fields.{IsHeader}
use minimal_sip_proxy_sip_cl.Proxy.Parser.RoundTrip.{IsWellFormed}
use minimal_sip_proxy_sip_cl.Proxy.Parser.Stream.{receive_loop-serialize, receive_loop_body}
use minimal_sip_proxy_sip_cl.Networking.Tcp.{TcpTransport, receive_loop, send, end_of_headers}
use minimal_sip_proxy_sip_cl.Networking.Tcp.Framing.{concat, AllFrames, receive_loop_lem}
use minimal_sip_proxy_sip_cl.Networking.Tcp.Reconnect.{old_end_drops}
use minimal_sip_proxy_sip_cl.Networking.Tcp.Connections.{
  Event, accepted, closed, after, open_socket, send-latest,
}

abbrev chunks : List Bytes
chunks = codes "BYE\r\nA: 1\r" ∷ codes "\n\r\nACK" ∷ []

receive_loop_example :
    (concat (receive_loop [] chunks).0 ++ (receive_loop [] chunks).1 ≡ concat chunks)
    × AllFrames (receive_loop [] chunks).0
    × (find end_of_headers (receive_loop [] chunks).1 ≡ none)
receive_loop_example = receive_loop_lem chunks

abbrev running : TcpTransport
running = record { running = true; client_mode = false; client_fd = none; connections = [] }

abbrev peers : List Event
peers =
    closed (codes "10.0.0.2") 5080 4
    ∷ accepted (codes "10.0.0.1") 5070 5
    ∷ closed (codes "10.0.0.1") 5070 3
    ∷ accepted (codes "10.0.0.1") 5070 3
    ∷ accepted (codes "10.0.0.2") 5080 4
    ∷ []

send-latest_example :
    send (after running peers) (codes "x") (codes "10.0.0.1") 5070 ≡ some (5, codes "x")
unfolding str_eq
send-latest_example =
    send-latest running peers (codes "x") (codes "10.0.0.1") 5070 refl refl refl (omega arith)
      (omega arith) (inl refl, (inr refl, tt))

reconnect_test :
    let es =
      closed (codes "10.0.0.1") 5070 4
      ∷ accepted (codes "10.0.0.1") 5070 5
      ∷ accepted (codes "10.0.0.1") 5070 4
      ∷ [] in
    (open_socket (codes "10.0.0.1") 5070 es ≡ some 5)
    × (send (after running es) (codes "x") (codes "10.0.0.1") 5070 ≡ none)
reconnect_test =
    old_end_drops running [] [] [] [] (codes "x") (codes "10.0.0.1") 5070 4 5 refl refl refl tt tt
      tt tt (omega arith) (omega arith)

-- A request and a response as the client and the proxy send them.
abbrev bye_message : SipMessage
bye_message = record {
  start_line = codes "BYE sip:b SIP/2.0";
  headers = header (codes "To") (codes "<sip:b@b.com>") ∷ [];
  body = [];
}

to-IsHeader : IsHeader (header (codes "To") (codes "<sip:b@b.com>"))
to-IsHeader = record {
  name_given = refl;
  name_plain = omega arith;
  name_line = omega arith;
  name_starts = refl;
  name_ends = refl;
  value_line = omega arith;
  value_starts = refl;
  value_ends = refl;
}

bye-IsWellFormed :
    (body : Bytes) → length body < 2 ^ 31 → IsWellFormed (record bye_message { body = body })
bye-IsWellFormed body h = record {
  start_given = refl;
  start_line = omega arith;
  headers = (to-IsHeader, tt);
  body_fits = h;
}

abbrev two_chunks : List Bytes
two_chunks =
    codes "BYE sip:b SIP/2.0\r\nTo: <sip:b@b.com>\r\nContent-Len"
    ∷ codes "gth: 0\r\n\r\nBYE sip:b SIP/2.0\r\nTo: <sip:b@b.com>\r\nContent-Length: 0\r\n\r\n"
    ∷ []

receive_loop-serialize_example :
    (receive_loop [] two_chunks ≡ (serialize bye_message ∷ serialize bye_message ∷ [], []))
    × (map parse (receive_loop [] two_chunks).0
        ≡ update_content_length bye_message ∷ update_content_length bye_message ∷ [])
unfolding serialize to_string str_eq set_in
receive_loop-serialize_example =
    let w = bye-IsWellFormed [] (omega arith) in
    receive_loop-serialize (bye_message ∷ bye_message ∷ []) two_chunks (w, refl, (w, refl, tt)) refl

receive_loop_body_example :
    (front : Bytes) × (serialize (record bye_message { body = codes "v=0" }) ≡ front ++ codes "v=0")
    × (receive_loop [] (serialize (record bye_message { body = codes "v=0" }) ∷ [])
        ≡ (front ∷ [], codes "v=0"))
unfolding find starts_with
receive_loop_body_example =
    receive_loop_body (record bye_message { body = codes "v=0" })
      (serialize (record bye_message { body = codes "v=0" }) ∷ [])
      (bye-IsWellFormed (codes "v=0") (omega arith)) refl (append-nil _)
