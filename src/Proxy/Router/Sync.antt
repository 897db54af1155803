-- ===== src/Proxy/Router/Sync.antt =====
-- Whether the registry of sessions and the contexts of calls speak of the same calls.
use minimal_sip_proxy_sip_cl.Base.{
  ℕ, ◌≡◌, refl, arith, Bytes, str_eq, str_eq_iff, lookup, ok, Bool-cases, inl, inr,
}
use minimal_sip_proxy_sip_cl.Sip.Message.{TransportType, SipMessage}
use minimal_sip_proxy_sip_cl.Proxy.Router.Helpers.{SipRouter, RoutingResult}
use minimal_sip_proxy_sip_cl.Proxy.Router.Context.{handle_ack, handle_bye}
use minimal_sip_proxy_sip_cl.Proxy.Router.Response.{handle_response}
use minimal_sip_proxy_sip_cl.Proxy.Router.Invite.{invite_cases, call_id_of}
use minimal_sip_proxy_sip_cl.Proxy.Router.Cases.{route_cases, Reaches, started, routed}
use minimal_sip_proxy_sip_cl.Proxy.Router.Frame.{route-SameCall}
use minimal_sip_proxy_sip_cl.Proxy.Router.Route.{route}
use minimal_sip_proxy_sip_cl.Proxy.Router.SyncSteps.{
  SyncAt, InSync, ack-SyncAt, bye-SyncAt, response-SyncAt, Placed-SyncAt, register-SyncAt,
}

-- Every message that is routed keeps the registry of sessions and the contexts of calls in step.
pub route-InSync :
    (r r' : SipRouter) (m : SipMessage) (ip : Bytes) (port : ℕ) (t : TransportType)
    (result : RoutingResult)
    → InSync r
    → route r m ip port t ≡ ok (result, r')
    → InSync r'
unfolding handle_response handle_ack handle_bye
route-InSync r r' m ip port t result h e = record {
  at = λ k. elim (Bool-cases (str_eq (call_id_of m) k)) [
    | inr other ↦
        let same =
          route-SameCall r r' m ip port t result k (ground (arith, str_eq_iff (call_id_of m) k))
            e in
        rw (same.session, same.context) (h.at k)
    | inl this ↦ rw (← (str_eq_iff (call_id_of m) k).0 this) own
  ];
}
  where
    own : SyncAt r' (call_id_of m)
    own =
        route_cases (λ _ s. SyncAt s (call_id_of m)) result r' r m ip port t
          (λ _. response-SyncAt (call_id_of m) r m _ refl (h.at (call_id_of m)))
          (λ _ _. h.at (call_id_of m))
          (λ _. register-SyncAt r m t (call_id_of m) (h.at (call_id_of m)))
          (λ done. elim (invite_cases r m ip port t result r' done) [
            | inl refused ↦ rw refused.same (h.at (call_id_of m))
            | inr placed ↦ Placed-SyncAt placed
          ])
          (ack-SyncAt (call_id_of m) r m _ refl (h.at (call_id_of m)))
          (bye-SyncAt (call_id_of m) r m _ refl (h.at (call_id_of m))) e

-- In every state that messages lead to, a Call-ID has a session and a context or neither, both
-- of the same two distinct parties, and the session knows its Call-ID.
pub Reaches-InSync : {r : SipRouter} → Reaches r → InSync r
unfolding lookup
Reaches-InSync (started u v) = record { at = λ k. tt }
Reaches-InSync (routed {r} {r'} {result} m ip port t h e) =
    route-InSync r r' m ip port t result (Reaches-InSync h) e
