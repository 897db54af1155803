-- ===== src/Networking/Udp.antt =====
-- networking/src/udp_transport.cpp. What the socket does is given: whether `bind` succeeds, and what
-- each `recvfrom` finds, a datagram or an error. The thread and its pauses are left out.
pub mod Delivery
use minimal_sip_proxy_sip_cl.Base.{
  ℕ, ◌*◌, Bool, true, false, ◌==◌, Option, none, some, List, [], ◌∷◌, Bytes, length, take,
  if◌then◌else◌, Result, ok, err, runtime_error, is_empty,
}

pub record UdpTransport : Type 0 where
  pub running : Bool

abbrev pub new_udp_transport : UdpTransport
new_udp_transport = record { running = false }

unfoldable pub start_udp : UdpTransport → Bool → Result UdpTransport
start_udp t bound =
    if t.running
    then ok t
    else if bound
    then ok (record t { running = true })
    else err runtime_error

abbrev pub stop_udp : UdpTransport → UdpTransport
stop_udp t = record t { running = false }

abbrev pub first_buffer_size : ℕ
first_buffer_size = 65536

-- What the callback gets, if it is called, and the size of the buffer after the round. A datagram that
-- fills the buffer is dropped, and the buffer doubled.
unfoldable pub receive_round : ℕ → Option Bytes → Option Bytes × ℕ
receive_round buffer_size none = (none, buffer_size)
receive_round buffer_size (some datagram) =
    let received = take buffer_size datagram in
    if length received == buffer_size
    then (none, buffer_size * 2)
    else if is_empty received
    then (none, buffer_size)
    else (some received, buffer_size)

-- A call of the callback goes in front of the later ones.
abbrev pub and_then : Option Bytes → List Bytes → List Bytes
and_then none later = later
and_then (some text) later = text ∷ later

unfoldable pub receive_rounds : ℕ → List (Option Bytes) → List Bytes
receive_rounds buffer_size [] = []
receive_rounds buffer_size (found ∷ rounds) =
    let round = receive_round buffer_size found in and_then round.0 (receive_rounds round.1 rounds)
