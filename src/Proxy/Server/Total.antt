-- ===== src/Proxy/Server/Total.antt =====
-- Which packets the proxy gets through, what it sends for them, and which end the process.
use native.Mathlib.Nat.{mod-eq_of_lt}
use minimal_sip_proxy_sip_cl.Base.{
  ℕ, ◌+◌, ◌-◌, ◌≡◌, refl, none, some, List, [], ◌∷◌, arith, Bytes, codes, length, find, find_from,
  ok, err, stoi, invalid_argument, Option-cases, inl, inr, to_u16,
}
use minimal_sip_proxy_sip_cl.Sip.Message.{TransportType, get_header, get_method, serialize}
use minimal_sip_proxy_sip_cl.Proxy.Parser.{parse}
use minimal_sip_proxy_sip_cl.Proxy.Metrics.{inc_messages_received}
use minimal_sip_proxy_sip_cl.Proxy.Address.{Addresses, at_found, colon_found, ip_cut, port_read}
use minimal_sip_proxy_sip_cl.Proxy.Router.Helpers.{
  RoutingAction, respond_locally, forward_request, forward_response, ignore, RoutingResult,
  SipRouter,
}
use minimal_sip_proxy_sip_cl.Proxy.Router.Route.{route}
use minimal_sip_proxy_sip_cl.Proxy.Router.Sound.{HasAddress, IsSound, IsDeliverable, route-Delivers}
use minimal_sip_proxy_sip_cl.Proxy.Server.{
  RawPacket, SipProxy, Sent, send_response, contact_ip, send_to_contact, send_request, deliver,
  handle_packet,
}

-- The router behind the count of the received packet.
abbrev pub received : SipProxy → SipRouter
received p = record p.router { metrics = inc_messages_received p.router.metrics }

-- A request for a contact "…@ip:port…", with one '@' up to the IP address, no ':' in that, and a
-- port below 2 ^ 16 that no digit follows, goes to this IP address and port.
pub send_to_contact_lem :
    (p : SipProxy) (payload contact ip : Bytes) (port : ℕ) (t : TransportType)
    → Addresses contact ip port
    → send_to_contact p payload contact t ≡ ok (send_response p payload ip port t)
unfolding send_to_contact contact_ip to_u16
send_to_contact_lem p payload contact ip port t a =
    rw (at_found a, colon_found a, port_read a)
      (λ i. ok (
        send_response p payload
          (ip_cut a (length ip + 1 + length a.before - (length a.before + 1)) (omega arith) i)
          (mod-eq_of_lt a.port_fits i) t))

-- What became of a routing decision: nothing for `ignore`, and one message otherwise, to the
-- sender, to the address in the contact of the decision, or to its plain address.
pub data Delivered (p : SipProxy) (pkt : RawPacket) (result : RoutingResult)
    (after : List Sent × SipProxy) : Type 0 where
  dropped : result.action ≡ ignore → after ≡ ([], p) → Delivered p pkt result after
  answered :
      result.action ≡ respond_locally
      → after ≡ send_response p (serialize result.response) pkt.ip pkt.port pkt.transport
      → Delivered p pkt result after
  to_contact :
      (contact ip : Bytes) (port : ℕ)
      → result.action ≡ forward_request
      → result.contact ≡ some contact
      → Addresses contact ip port
      → after ≡ send_response p (serialize result.message) ip port result.callee_transport
      → Delivered p pkt result after
  to_address :
      result.action ≡ forward_request
      → result.contact ≡ none
      → after
        ≡ send_response p (serialize result.message) result.ip result.port result.callee_transport
      → Delivered p pkt result after
  returned :
      result.action ≡ forward_response
      → after ≡ send_response p (serialize result.message) result.ip result.port pkt.transport
      → Delivered p pkt result after

deliver_total :
    (p : SipProxy) (pkt : RawPacket) (result : RoutingResult) (action : RoutingAction)
    → result.action ≡ action
    → IsDeliverable result
    → (after : List Sent × SipProxy) × (deliver p pkt result action ≡ ok after)
      × Delivered p pkt result after
unfolding deliver send_request
deliver_total p pkt result respond_locally e d = (_, refl, answered e refl)
deliver_total p pkt result forward_response e d = (_, refl, returned e refl)
deliver_total p pkt result ignore e d = (_, refl, dropped e refl)
deliver_total p pkt result forward_request e d = elim (Option-cases result.contact) [
  | inl n ↦ (
    send_response p (serialize result.message) result.ip result.port result.callee_transport,
    rw n,
    to_address e n refl,
  )
  | inr (c, f) ↦
      let a = d.contact c f in
      (
        send_response p (serialize result.message) a.ip a.port result.callee_transport,
        rw f (send_to_contact_lem p _ c a.ip a.port result.callee_transport a.at),
        to_contact c a.ip a.port e f a.at refl,
      )
]

-- Sending touches neither the registrations nor the calls.
sent-IsSound :
    (p : SipProxy) (payload ip : Bytes) (port : ℕ) (t : TransportType)
    (after : List Sent × SipProxy)
    → IsSound p.router
    → after ≡ send_response p payload ip port t
    → IsSound after.1.router
unfolding send_response
sent-IsSound p payload ip port t after s e =
    rw e (record { registered = s.registered; called = s.called })

Delivered-IsSound :
    {p : SipProxy} {pkt : RawPacket} {result : RoutingResult} {after : List Sent × SipProxy}
    → IsSound p.router
    → Delivered p pkt result after
    → IsSound after.1.router
Delivered-IsSound s (dropped a e) = rw e s
Delivered-IsSound s (answered a e) = sent-IsSound _ _ _ _ _ _ s e
Delivered-IsSound s (to_contact c ip port a b d e) = sent-IsSound _ _ _ _ _ _ s e
Delivered-IsSound s (to_address a b e) = sent-IsSound _ _ _ _ _ _ s e
Delivered-IsSound s (returned a e) = sent-IsSound _ _ _ _ _ _ s e

-- In a state where every contact to forward to has an address, a packet, which brings a contact
-- with an address if it is a REGISTER, is handled without an exception, into such a state again:
-- its message is routed, and the decision is carried out with at most one message sent.
pub handle_packet_total :
    (p : SipProxy) (pkt : RawPacket)
    → IsSound p.router
    → (get_method (parse pkt.payload) ≡ codes "REGISTER"
        → HasAddress (get_header (parse pkt.payload) (codes "Contact")))
    → (after : List Sent × SipProxy) × (result : RoutingResult) × (r' : SipRouter) × (handle_packet
          p pkt
        ≡ ok after)
      × (route (received p) (parse pkt.payload) pkt.ip pkt.port pkt.transport ≡ ok (result, r'))
      × Delivered (record p { router = r' }) pkt result after
      × IsSound after.1.router
unfolding handle_packet
handle_packet_total p pkt s h =
    let before : IsSound (received p) = record { registered = s.registered; called = s.called } in
    let (result, r', routed, d) =
      route-Delivers (received p) (parse pkt.payload) pkt.ip pkt.port pkt.transport before h in
    let (after, done, how) =
      deliver_total (record p { router = r' }) pkt result result.action refl d.deliverable in
    (after, result, r', rw routed done, routed, how, Delivered-IsSound d.sound how)

-- A contact without a port: no ':' follows its first '@', or it has no '@'.
abbrev pub LacksPort : Bytes → Type 0
LacksPort contact = find_from (codes ":") contact (find (codes "@") contact) ≡ none

-- A request that is to go to a contact "<…" without a port is not sent: the conversion of its
-- port throws, and the exception leaves `handle_packet`.
pub portless_contact_throws :
    (p : SipProxy) (pkt : RawPacket) (result : RoutingResult) (r' : SipRouter) (address : Bytes)
    → route (received p) (parse pkt.payload) pkt.ip pkt.port pkt.transport ≡ ok (result, r')
    → result.action ≡ forward_request
    → result.contact ≡ some (b'<' ∷ address)
    → LacksPort (b'<' ∷ address)
    → handle_packet p pkt ≡ err invalid_argument
unfolding handle_packet deliver send_request send_to_contact stoi
portless_contact_throws p pkt result r' address routed a c n = rw (routed, a, c, n)
