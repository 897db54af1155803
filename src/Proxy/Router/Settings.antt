-- ===== src/Proxy/Router/Settings.antt =====
-- No message but a REGISTER changes the registrations, and none the ports.
use minimal_sip_proxy_sip_cl.Base.{ℕ, ◌≡◌, refl, false, arith, Bytes, codes, str_eq, ok, inl, inr}
use minimal_sip_proxy_sip_cl.Sip.Message.{TransportType, SipMessage, get_method}
use minimal_sip_proxy_sip_cl.Proxy.Router.Helpers.{SipRouter, RoutingResult, strip_proxy_via}
use minimal_sip_proxy_sip_cl.Proxy.Router.Context.{handle_ack, handle_bye}
use minimal_sip_proxy_sip_cl.Proxy.Router.Response.{
  handle_response, after_response, store_answer, on_answer, on_decline, on_end,
}
use minimal_sip_proxy_sip_cl.Proxy.Router.Route.{route, handle_invite}
use minimal_sip_proxy_sip_cl.Proxy.Router.Cases.{route_cases}
use minimal_sip_proxy_sip_cl.Proxy.Router.Invite.{invite_cases, call_id_of}

pub record SameSettings (r r' : SipRouter) : Type 0 where
  pub table : r'.table ≡ r.table
  pub udp_port : r'.proxy_udp_port ≡ r.proxy_udp_port
  pub tcp_port : r'.proxy_tcp_port ≡ r.proxy_tcp_port

after_response-SameSettings :
    (r : SipRouter) (m : SipMessage) (id : Bytes) → SameSettings r (after_response r m id)
unfolding after_response on_answer store_answer on_decline on_end
after_response-SameSettings r m id = ground arith

response-SameSettings : (r : SipRouter) (m : SipMessage) → SameSettings r (handle_response r m).1
unfolding handle_response
response-SameSettings r m =
    ground (arith, after_response-SameSettings r (strip_proxy_via m) (call_id_of m))

ack-SameSettings : (r : SipRouter) (m : SipMessage) → SameSettings r (handle_ack r m).1
unfolding handle_ack
ack-SameSettings r m = ground arith

bye-SameSettings : (r : SipRouter) (m : SipMessage) → SameSettings r (handle_bye r m).1
unfolding handle_bye
bye-SameSettings r m = ground arith

invite-SameSettings :
    (r r' : SipRouter) (m : SipMessage) (ip : Bytes) (port : ℕ) (t : TransportType)
    (x : RoutingResult)
    → handle_invite r m ip port t ≡ ok (x, r')
    → SameSettings r r'
invite-SameSettings r r' m ip port t x h = elim (invite_cases r m ip port t x r' h) [
  | inl refused ↦ rw refused.same (record { table = refl; udp_port = refl; tcp_port = refl })
  | inr placed ↦ rw placed.after (record { table = refl; udp_port = refl; tcp_port = refl })
]

pub route-SameSettings :
    (r r' : SipRouter) (m : SipMessage) (ip : Bytes) (port : ℕ) (t : TransportType)
    (x : RoutingResult)
    → str_eq (get_method m) (codes "REGISTER") ≡ false
    → route r m ip port t ≡ ok (x, r')
    → SameSettings r r'
route-SameSettings r r' m ip port t x other h =
    route_cases (λ _ s. SameSettings r s) x r' r m ip port t (λ _. response-SameSettings r m)
      (λ _ _. record { table = refl; udp_port = refl; tcp_port = refl })
      (λ e. absurd (cc (e, other))) (invite-SameSettings r r' m ip port t x) (ack-SameSettings r m)
      (bye-SameSettings r m) h
