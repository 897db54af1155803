-- ===== src/Networking/Sockets.antt =====
-- networking/src/tcp_socket.cpp and udp_socket.cpp: what the two classes ask of the system. The
-- system calls and the conversions of addresses are given; a port is a number, since `htons` and
-- `ntohs` undo one another. A descriptor that is -1 is `none`.
pub mod Addresses
use minimal_sip_proxy_sip_cl.Base.{
  ℕ, zero, suc, Bool, true, false, Option, none, some, List, [], ◌∷◌, ℤ, pos, negsuc, Bytes,
  if◌then◌else◌, ◌==◌,
}
use mathlib.Core.Option

-- The addresses of the system.
pub record Net : Type 1 where
  pub Ip : Type 0
  -- INADDR_ANY, which is all zero, as a fresh `sockaddr_in` is.
  pub any : Ip
  pub inet_pton : Bytes → Option Ip
  pub inet_ntop : Ip → Bytes

-- The options and flags that a constructor sets: SO_REUSEADDR, and O_NONBLOCK.
pub data Setting : Type 0 where
  reuse_address nonblocking : Setting

pub record TcpSocket : Type 0 where
  pub socket_fd : Option ℕ

-- The result of `socket` is given. The settings are made if there is one.
unfoldable pub new_tcp_socket : Option ℕ → TcpSocket × List Setting
new_tcp_socket none = (record { socket_fd = none }, [])
new_tcp_socket (some fd) = (record { socket_fd = some fd }, reuse_address ∷ [])

pub record UdpSocket : Type 0 where
  pub socket_fd : Option ℕ

unfoldable pub new_udp_socket : Option ℕ → UdpSocket × List Setting
new_udp_socket none = (record { socket_fd = none }, [])
new_udp_socket (some fd) = (record { socket_fd = some fd }, nonblocking ∷ [])

-- What the destructors and closeClient close.
abbrev pub closed_at_end : TcpSocket → Option ℕ
closed_at_end s = s.socket_fd

abbrev pub closed_udp_at_end : UdpSocket → Option ℕ
closed_udp_at_end s = s.socket_fd

unfoldable pub close_client : ℤ → Option ℕ
close_client (pos fd) = some fd
close_client (negsuc n) = none

-- A result of `send` or `recv`.
abbrev pub send_to_fd : (ℕ → Bytes → ℤ) → ℕ → Bytes → ℤ
send_to_fd sys_send fd payload = sys_send fd payload

abbrev pub receive_from_fd : (ℕ → ℕ → ℤ × Bytes) → ℕ → ℕ → ℤ × Bytes
receive_from_fd sys_recv fd size = sys_recv fd size

-- The call has succeeded.
unfoldable pub is_zero : ℤ → Bool
is_zero (pos n) = n == 0
is_zero (negsuc n) = false

unfoldable pub listen : (Option ℕ → ℕ → ℤ) → TcpSocket → ℕ → Bool
unfolding is_zero
listen sys_listen s backlog = is_zero (sys_listen s.socket_fd backlog)

module _ (net : Net) where
  -- sockaddr_in
  pub record SocketAddress : Type 0 where
    pub ip : net.Ip
    pub port : ℕ

  abbrev pub any_address : ℕ → SocketAddress
  any_address port = record { ip = net.any; port = port }

  unfoldable pub bind : (Option ℕ → SocketAddress → ℤ) → TcpSocket → ℕ → Bool
  unfolding is_zero
  bind sys_bind s port = is_zero (sys_bind s.socket_fd (any_address port))

  unfoldable pub bind_udp : (Option ℕ → SocketAddress → ℤ) → UdpSocket → ℕ → Bool
  unfolding is_zero
  bind_udp sys_bind s port = is_zero (sys_bind s.socket_fd (any_address port))

  -- The new descriptor with the address of the client; `none` is -1.
  unfoldable pub accept :
      (Option ℕ → Option (ℕ × SocketAddress)) → TcpSocket → Option (ℕ × Bytes × ℕ)
  accept sys_accept s =
      Option.map (λ found. (found.0, net.inet_ntop found.1.ip, found.1.port))
        (sys_accept s.socket_fd)

  connect_at : (Option ℕ → SocketAddress → ℤ) → TcpSocket → ℕ → Option net.Ip → Bool
  connect_at sys_connect s port none = false
  connect_at sys_connect s port (some ip) =
      is_zero (sys_connect s.socket_fd (record { ip = ip; port = port }))

  unfoldable pub connect : (Option ℕ → SocketAddress → ℤ) → TcpSocket → Bytes → ℕ → Bool
  unfolding connect_at is_zero
  connect sys_connect s ip port = connect_at sys_connect s port (net.inet_pton ip)

  -- The port that `getsockname` fills in, in an address that is zero before.
  unfoldable pub local_port : (Option ℕ → Option SocketAddress) → Option ℕ → ℕ
  local_port sys_getsockname fd = elim (sys_getsockname fd) [ none ↦ 0 | some a ↦ a.port ]

  or_any : Option net.Ip → net.Ip
  or_any none = net.any
  or_any (some ip) = ip

  -- `inet_pton` leaves the address zero where it fails.
  unfoldable pub send_to :
      (Option ℕ → Bytes → SocketAddress → ℤ) → UdpSocket → Bytes → Bytes → ℕ → ℤ
  unfolding or_any
  send_to sys_sendto s payload ip port =
      sys_sendto s.socket_fd payload (record { ip = or_any (net.inet_pton ip); port = port })

  -- What `recvfrom` returns, and the address of the sender, which stays as it was without data.
  pub record Received : Type 0 where
    pub count : ℤ
    pub buffer : Bytes
    pub ip : Bytes
    pub port : ℕ

  unfoldable pub received : ℤ × Bytes × SocketAddress → Bytes → ℕ → Received
  received (negsuc n, buffer, sender) ip port = record {
    count = negsuc n;
    buffer = buffer;
    ip = ip;
    port = port;
  }
  received (pos zero, buffer, sender) ip port = record {
    count = pos 0;
    buffer = buffer;
    ip = ip;
    port = port;
  }
  received (pos (suc n), buffer, sender) ip port = record {
    count = pos (suc n);
    buffer = buffer;
    ip = net.inet_ntop sender.ip;
    port = sender.port;
  }

  unfoldable pub receive_from :
      (Option ℕ → ℕ → ℤ × Bytes × SocketAddress) → UdpSocket → ℕ → Bytes → ℕ → Received
  unfolding received
  receive_from sys_recvfrom s size ip port = received (sys_recvfrom s.socket_fd size) ip port
