-- ===== src/Networking/Tcp.antt =====
-- networking/src/tcp_transport.cpp: how a byte stream is cut into messages, and the table of
-- connections. What the socket does is given: the chunks that `recv` delivers, up to the one that
-- ends the loop, and whether `bind`, `listen` and `connect` succeed.
pub mod Framing
pub mod Connections
pub mod Reconnect
use minimal_sip_proxy_sip_cl.Base.{
  ℕ, zero, suc, ◌+◌, Bool, true, false, not, ◌&&◌, Option, none, some, List, [], ◌∷◌, ◌++◌, Bytes,
  codes, length, take, drop, find, to_string, if◌then◌else◌, Dict, lookup, insert, erase, Result,
  ok, err, runtime_error,
}
use mathlib.Core.Option

abbrev pub end_of_headers : Bytes
end_of_headers = 13 ∷ 10 ∷ 13 ∷ 10 ∷ []

-- The inner loop of `receiveLoop`: the messages that are cut off the accumulator, and what stays
-- in it. Every round takes four bytes or more, so that one round for each byte is enough.
unfoldable pub cut : ℕ → Bytes → List Bytes × Bytes
cut zero accumulator = ([], accumulator)
cut (suc n) accumulator = elim (find end_of_headers accumulator) [
  | none ↦ ([], accumulator)
  | some pos ↦
      let rest = cut n (drop (pos + 4) accumulator) in (take (pos + 4) accumulator ∷ rest.0, rest.1)
]

-- One chunk is appended and the accumulator is cut.
unfoldable pub receive_chunk : Bytes → Bytes → List Bytes × Bytes
receive_chunk accumulator chunk = let all = accumulator ++ chunk in cut (suc (length all)) all

-- The messages of a connection in the order of the callbacks, and the accumulator at its end.
unfoldable pub receive_loop : Bytes → List Bytes → List Bytes × Bytes
receive_loop accumulator [] = ([], accumulator)
receive_loop accumulator (chunk ∷ chunks) =
    let now = receive_chunk accumulator chunk in
    let later = receive_loop now.1 chunks in (now.0 ++ later.0, later.1)

pub record TcpTransport : Type 0 where
  pub running : Bool
  pub client_mode : Bool
  -- `none` is -1.
  pub client_fd : Option ℕ
  pub connections : Dict ℕ

abbrev pub new_transport : TcpTransport
new_transport = record { running = false; client_mode = false; client_fd = none; connections = [] }

unfoldable pub start : TcpTransport → Bool → Bool → Result TcpTransport
start t bound listening =
    if t.running
    then ok t
    else if bound && listening
    then ok (record t { client_mode = false; running = true })
    else err runtime_error

unfoldable pub connect : TcpTransport → Option ℕ → Result TcpTransport
connect t fd = if t.running then ok t else elim fd [
  | none ↦ err runtime_error
  | some n ↦ ok (record t { client_mode = true; client_fd = some n; running = true })
]

abbrev pub close : TcpTransport → TcpTransport
close t = if t.running then record t { running = false; connections = [] } else t

unfoldable pub connection_key : Bytes → ℕ → Bytes
connection_key ip port = ip ++ (codes ":" ++ to_string port)

-- The socket that the data is written to, if any.
unfoldable pub send : TcpTransport → Bytes → Bytes → ℕ → Option (ℕ × Bytes)
send t payload ip port =
    if t.client_mode
    then Option.map (λ fd. (fd, payload)) t.client_fd
    else Option.map (λ fd. (fd, payload)) (lookup t.connections (connection_key ip port))

-- The body of `acceptLoop` for a connection, and the end of its `receiveLoop`.
unfoldable pub accept : TcpTransport → Bytes → ℕ → ℕ → TcpTransport
accept t ip port fd =
    if t.running
    then record t { connections = insert t.connections (connection_key ip port) fd }
    else t

unfoldable pub disconnect : TcpTransport → Bytes → ℕ → TcpTransport
disconnect t ip port =
    if t.client_mode
    then t
    else record t { connections = erase t.connections (connection_key ip port) }
