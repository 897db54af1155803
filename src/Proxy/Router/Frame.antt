-- ===== src/Proxy/Router/Frame.antt =====
-- What a message leaves alone: the calls of other Call-IDs, and the registrations.
use mathlib.Core.Option
use minimal_sip_proxy_sip_cl.Base.{
  ℕ, ◌≡◌, ◌≢◌, refl, ap, ◌∙◌, false, Option, none, some, arith, Bytes, codes, str_eq, str_eq_iff,
  if◌then◌else◌, lookup, lookup-insert, lookup-erase, ok, Option-cases, inl, inr,
}
use minimal_sip_proxy_sip_cl.Sip.Message.{TransportType, SipMessage, get_header}
use minimal_sip_proxy_sip_cl.Proxy.Call.{
  CallSession, CallRegistry, with_session, on_request, on_response,
}
use minimal_sip_proxy_sip_cl.Proxy.Router.Helpers.{
  SipRouter, CallContext, RoutingResult, strip_proxy_via,
}
use minimal_sip_proxy_sip_cl.Proxy.Router.Context.{
  handle_ack, handle_bye, session_request, drop_call,
}
use minimal_sip_proxy_sip_cl.Proxy.Router.Response.{
  handle_response, after_response, session_response, store_answer, on_answer, on_decline, on_end,
}
use minimal_sip_proxy_sip_cl.Proxy.Router.Cases.{route_cases}
use minimal_sip_proxy_sip_cl.Proxy.Router.Invite.{invite_cases, call_id_of}
use minimal_sip_proxy_sip_cl.Proxy.Router.Route.{route, handle_register, handle_invite}

pub lookup-with_session :
    (calls : CallRegistry) (id k : Bytes) (f : CallSession → CallSession)
    → lookup (with_session calls id f) k
      ≡ (if str_eq id k then Option.map f (lookup calls k) else lookup calls k)
unfolding with_session
lookup-with_session calls id k f = elim (Option-cases (lookup calls id)) [
  | inl missing ↦ rw (missing, with_session) (ground (arith, str_eq_iff id k))
  | inr (s, found) ↦
      rw (found, with_session) (ground (arith, str_eq_iff id k, lookup-insert calls id k (f s)))
]

-- The entry of one call in the registry and among the contexts is the same in both states.
pub record SameCall (k : Bytes) (r r' : SipRouter) : Type 0 where
  pub session : lookup r'.registry k ≡ lookup r.registry k
  pub context : lookup r'.call_contexts k ≡ lookup r.call_contexts k

module _ (k : Bytes) where
  pub SameCall-trans : {r s t : SipRouter} → SameCall k r s → SameCall k s t → SameCall k r t
  SameCall-trans a b = record { session = b.session ∙ a.session; context = b.context ∙ a.context }

  register-SameCall :
      (r : SipRouter) (m : SipMessage) (t : TransportType) → SameCall k r (handle_register r m t).1
  unfolding handle_register
  register-SameCall r m t = ground arith

  module _ (id : Bytes) (h : str_eq id k ≡ false) where
    drop_call-SameCall : (r : SipRouter) → SameCall k r (drop_call r id)
    drop_call-SameCall r = record {
      session = rw (lookup-erase r.registry id k, h);
      context = rw (lookup-erase r.call_contexts id k, h);
    }

    session_request-SameCall :
        (r : SipRouter) (m : SipMessage) → SameCall k r (session_request r m id)
    session_request-SameCall r m = record {
      session = rw (lookup-with_session r.registry id k (on_request m), h);
      context = refl;
    }

    session_response-SameCall :
        (r : SipRouter) (m : SipMessage) → SameCall k r (session_response r m id)
    session_response-SameCall r m = record {
      session = rw (lookup-with_session r.registry id k (on_response m), h);
      context = refl;
    }

    store_answer-SameCall :
        (r : SipRouter) (m : SipMessage) (o : Option CallContext)
        → SameCall k r (store_answer r m id o)
    unfolding store_answer
    store_answer-SameCall r m none = record { session = refl; context = refl }
    store_answer-SameCall r m (some c) = record {
      session = refl;
      context = rw (lookup-insert r.call_contexts id k _, h);
    }

    on_answer-SameCall : (r : SipRouter) (m : SipMessage) → SameCall k r (on_answer r m id)
    unfolding on_answer
    on_answer-SameCall r m = ground (arith, store_answer-SameCall r m (lookup r.call_contexts id))

    on_decline-SameCall : (r : SipRouter) (m : SipMessage) → SameCall k r (on_decline r m)
    unfolding on_decline
    on_decline-SameCall r m = ground arith

    on_end-SameCall :
        (r : SipRouter) (m : SipMessage) (code : ℕ) (method : Bytes)
        → SameCall k r (on_end r m id code method)
    unfolding on_end
    on_end-SameCall r m code method = let d = drop_call-SameCall r in ground arith

    after_response-SameCall :
        (r : SipRouter) (m : SipMessage) → SameCall k r (after_response r m id)
    unfolding after_response
    after_response-SameCall r m = SameCall-trans (session_response-SameCall r m) (
        SameCall-trans (on_answer-SameCall _ m) (
          SameCall-trans (on_decline-SameCall _ m) (
            SameCall-trans (on_end-SameCall _ m 200 (codes "BYE"))
              (on_end-SameCall _ m 486 (codes "INVITE")))))

    pub ack-SameCall :
        (r : SipRouter) (m : SipMessage) → call_id_of m ≡ id → SameCall k r (handle_ack r m).1
    unfolding handle_ack
    ack-SameCall r m e = rw e (
        ground (
          arith,
          session_request-SameCall r m,
          SameCall-trans (session_request-SameCall r m)
              (drop_call-SameCall (session_request r m id)),
        ))

    pub bye-SameCall :
        (r : SipRouter) (m : SipMessage) → call_id_of m ≡ id → SameCall k r (handle_bye r m).1
    unfolding handle_bye
    bye-SameCall r m e = rw e (ground (arith, session_request-SameCall r m))

    pub response-SameCall :
        (r : SipRouter) (m : SipMessage) → call_id_of m ≡ id → SameCall k r (handle_response r m).1
    unfolding handle_response
    response-SameCall r m e = rw e (ground (arith, after_response-SameCall r (strip_proxy_via m)))

    pub invite-SameCall :
        (r r' : SipRouter) (m : SipMessage) (ip : Bytes) (port : ℕ) (t : TransportType)
        (result : RoutingResult)
        → call_id_of m ≡ id
        → handle_invite r m ip port t ≡ ok (result, r')
        → SameCall k r r'
    invite-SameCall r r' m ip port t result e done =
        elim (invite_cases r m ip port t result r' done) [
          | inl refused ↦ rw refused.same (record { session = refl; context = refl })
          | inr placed ↦ record {
            session =
                ap (λ (s : SipRouter). lookup s.registry k) placed.after
                ∙ lookup-with_session _ (call_id_of m) k (on_request m)
                ∙ rw (e, h) (lookup-insert r.registry id k _ ∙ rw h);
            context =
                ap (λ (s : SipRouter). lookup s.call_contexts k) placed.after
                ∙ lookup-insert r.call_contexts (call_id_of m) k _
                ∙ rw (e, h);
          }
        ]

-- A message of one Call-ID leaves every other call as it was, whatever the message and whatever
-- the router answers.
pub route-SameCall :
    (r r' : SipRouter) (m : SipMessage) (ip : Bytes) (port : ℕ) (t : TransportType)
    (result : RoutingResult) (k : Bytes)
    → k ≢ get_header m (codes "Call-ID")
    → route r m ip port t ≡ ok (result, r')
    → SameCall k r r'
route-SameCall r r' m ip port t result k ne h =
    let id = get_header m (codes "Call-ID") in
    let other : str_eq id k ≡ false = ground (arith, str_eq_iff id k) in
    route_cases (λ x s. SameCall k r s) result r' r m ip port t
      (λ _. response-SameCall k id other r m refl)
      (λ x _. record { session = refl; context = refl }) (λ _. register-SameCall k r m t)
      (λ e. invite-SameCall k id other r r' m ip port t result refl e)
      (ack-SameCall k id other r m refl) (bye-SameCall k id other r m refl) h
