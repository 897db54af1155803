-- ===== src/Networking/Sockets/Addresses.antt =====
-- What the sockets do with a text that is to be an address.
use minimal_sip_proxy_sip_cl.Base.{ℕ, suc, ◌≡◌, refl, false, Option, none, some, Bytes, ℤ, pos}
use minimal_sip_proxy_sip_cl.Networking.Sockets.{
  Net, TcpSocket, UdpSocket, SocketAddress, any_address, connect, send_to, receive_from,
}

module _ (net : Net) where
  -- For a text that is no address, such as the name of a host, TCP refuses to connect, whatever the
  -- system would answer; UDP sends the data all the same, to the address that is all zero.
  pub no_address :
      (sys_connect : Option ℕ → SocketAddress net → ℤ)
      (sys_sendto : Option ℕ → Bytes → SocketAddress net → ℤ) (t : TcpSocket) (u : UdpSocket)
      (payload ip : Bytes) (port : ℕ)
      → net.inet_pton ip ≡ none
      → (connect net sys_connect t ip port ≡ false)
        × (send_to net sys_sendto u payload ip port
            ≡ sys_sendto u.socket_fd payload (any_address net port))
  unfolding connect send_to
  no_address sys_connect sys_sendto t u payload ip port h = (rw h refl, rw h refl)

  -- An answer to the address that a datagram has come from goes to that address.
  pub reply_to_sender :
      (sys_recvfrom : Option ℕ → ℕ → ℤ × Bytes × SocketAddress net)
      (sys_sendto : Option ℕ → Bytes → SocketAddress net → ℤ) (u : UdpSocket) (size n port : ℕ)
      (data' ip payload : Bytes) (sender : SocketAddress net)
      → sys_recvfrom u.socket_fd size ≡ (pos (suc n), data', sender)
      → net.inet_pton (net.inet_ntop sender.ip) ≡ some sender.ip
      → let got = receive_from net sys_recvfrom u size ip port in
        send_to net sys_sendto u payload got.ip got.port ≡ sys_sendto u.socket_fd payload sender
  unfolding receive_from send_to
  reply_to_sender sys_recvfrom sys_sendto u size n port data' ip payload sender e law =
      rw (e, law) refl
