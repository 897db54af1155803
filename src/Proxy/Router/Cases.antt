-- ===== src/Proxy/Router/Cases.antt =====
-- The states that messages lead to, and `route` by cases on its handlers.
use mathlib.Core.Path.{subst}
use mathlib.Core.Option.{none}
use mathlib.Core.Path.{refl}
use minimal_sip_proxy_sip_cl.Base.{ℕ, ◌≡◌, true, Bytes, codes, str_eq, ok, Bool-cases, inl, inr}
use minimal_sip_proxy_sip_cl.Sip.Message.{
  TransportType, SipMessage, is_response, is_request, get_method,
}
use minimal_sip_proxy_sip_cl.Proxy.Router.Helpers.{
  SipRouter, new_router, set_proxy_ports, RoutingResult,
}
use minimal_sip_proxy_sip_cl.Proxy.Router.Context.{handle_ack, handle_bye}
use minimal_sip_proxy_sip_cl.Proxy.Router.Response.{handle_response}
use minimal_sip_proxy_sip_cl.Proxy.Router.Route.{route, handle_register, handle_invite}

module _ {ℓ} (P : RoutingResult → SipRouter → Type ℓ) (result : RoutingResult)
    (r' : SipRouter) where
  by_state : (x : RoutingResult × SipRouter) → ok x ≡ ok (result, r') → P x.0 x.1 → P result r'
  by_state x e p = subst (λ (y : RoutingResult × SipRouter). P y.0 y.1) (cc) p

  pub route_cases :
      (r : SipRouter) (m : SipMessage) (ip : Bytes) (port : ℕ) (t : TransportType)
      → (is_response m ≡ true → P (handle_response r m).0 (handle_response r m).1)
      → ((x : RoutingResult) → x.contact ≡ none → P x r)
      → (str_eq (get_method m) (codes "REGISTER") ≡ true
          → P (handle_register r m t).0 (handle_register r m t).1)
      → (handle_invite r m ip port t ≡ ok (result, r') → P result r')
      → P (handle_ack r m).0 (handle_ack r m).1
      → P (handle_bye r m).0 (handle_bye r m).1
      → route r m ip port t ≡ ok (result, r')
      → P result r'
  unfolding route
  route_cases r m ip port t response same register invite ack bye h =
      elim (Bool-cases (is_response m)) [
        | inl e ↦ by_state _ (rw e at h) (response e)
        | inr e1 ↦ elim (Bool-cases (is_request m)) [
          | inr e ↦ by_state _ (rw (e1, e) at h) (same _ refl)
          | inl e2 ↦ elim (Bool-cases (str_eq (get_method m) (codes "REGISTER"))) [
            | inl e ↦ by_state _ (rw (e1, e2, e) at h) (register e)
            | inr e3 ↦ elim (Bool-cases (str_eq (get_method m) (codes "INVITE"))) [
              | inl e ↦ invite (rw (e1, e2, e3, e) at h)
              | inr e4 ↦ elim (Bool-cases (str_eq (get_method m) (codes "ACK"))) [
                | inl e ↦ by_state _ (rw (e1, e2, e3, e4, e) at h) ack
                | inr e5 ↦ elim (Bool-cases (str_eq (get_method m) (codes "BYE"))) [
                  | inl e ↦ by_state _ (rw (e1, e2, e3, e4, e5, e) at h) bye
                  | inr e ↦ by_state _ (rw (e1, e2, e3, e4, e5, e) at h) (same _ refl)
                ]
              ]
            ]
          ]
        ]
      ]

-- The states that messages lead to from a fresh router.
pub data Reaches : SipRouter → Type 0 where
  started : (udp_port tcp_port : ℕ) → Reaches (set_proxy_ports new_router udp_port tcp_port)
  routed :
      {r r' : SipRouter} {result : RoutingResult} (m : SipMessage) (ip : Bytes) (port : ℕ)
      (t : TransportType)
      → Reaches r
      → route r m ip port t ≡ ok (result, r')
      → Reaches r'
