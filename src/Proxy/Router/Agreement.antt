-- ===== src/Proxy/Router/Agreement.antt =====
-- Two states of the router that agree on what a message of one call depends on, and the handlers on
-- them.
use mathlib.Core.Option
use minimal_sip_proxy_sip_cl.Base.{
  ℕ, ◌≡◌, refl, sym, ap, ◌∙◌, Option, none, some, arith, Bytes, codes, str_eq, str_eq_refl,
  if◌then◌else◌, lookup, insert, erase, lookup-insert, lookup-erase, Dict, Bool-cases, inl, inr,
}
use minimal_sip_proxy_sip_cl.Sip.Message.{TransportType, udp, tcp, SipMessage}
use minimal_sip_proxy_sip_cl.Proxy.Call.{
  CallSession, CallRegistry, with_session, on_request, on_response,
}
use minimal_sip_proxy_sip_cl.Proxy.Router.Helpers.{
  SipRouter, CallContext, RoutingResult, proxy_port, strip_proxy_via,
}
use minimal_sip_proxy_sip_cl.Proxy.Router.Context.{
  handle_ack, handle_bye, ack_in, bye_in, session_request, drop_call, forward_within, is_over,
  is_over_session,
}
use minimal_sip_proxy_sip_cl.Proxy.Router.Response.{
  handle_response, response_in, after_response, session_response, store_answer, on_answer,
  on_decline, on_end, answers,
}
use minimal_sip_proxy_sip_cl.Proxy.Router.Frame.{lookup-with_session}
use minimal_sip_proxy_sip_cl.Proxy.Router.Invite.{call_id_of}

-- The registrations and the ports, and the session and the context of the call.
pub record Agree (id : Bytes) (r q : SipRouter) : Type 0 where
  pub table : r.table ≡ q.table
  pub udp_port : r.proxy_udp_port ≡ q.proxy_udp_port
  pub tcp_port : r.proxy_tcp_port ≡ q.proxy_tcp_port
  pub session : lookup r.registry id ≡ lookup q.registry id
  pub context : lookup r.call_contexts id ≡ lookup q.call_contexts id

-- Two runs of a handler with the same result, to states that agree.
abbrev pub SameRun : Bytes → RoutingResult × SipRouter → RoutingResult × SipRouter → Type 0
SameRun id x y = (x.0 ≡ y.0) × Agree id x.1 y.1

module _ (id : Bytes) where
  lookup-insert_self : {A : Type 0} (d : Dict A) (v : A) → lookup (insert d id v) id ≡ some v
  lookup-insert_self d v = lookup-insert d id id v ∙ rw (str_eq_refl id)

  lookup-erase_self : {A : Type 0} (d : Dict A) → lookup (erase d id) id ≡ none
  lookup-erase_self d = lookup-erase d id id ∙ rw (str_eq_refl id)

  pub insert_same :
      {A : Type 0} (d e : Dict A) (v w : A)
      → v ≡ w
      → lookup (insert d id v) id ≡ lookup (insert e id w) id
  insert_same d e v w h = lookup-insert_self d v ∙ ap some h ∙ sym (lookup-insert_self e w)

  erase_same : {A : Type 0} (d e : Dict A) → lookup (erase d id) id ≡ lookup (erase e id) id
  erase_same d e = lookup-erase_self d ∙ sym (lookup-erase_self e)

  pub with_session_same :
      (calls others : CallRegistry) (f : CallSession → CallSession)
      → lookup calls id ≡ lookup others id
      → lookup (with_session calls id f) id ≡ lookup (with_session others id f) id
  with_session_same calls others f h =
      lookup-with_session calls id id f
      ∙ ap (λ o. if str_eq id id then Option.map f o else o) h
      ∙ sym (lookup-with_session others id id f)

  module _ (r q : SipRouter) (a : Agree id r q) where
    pub proxy_port_same : (t : TransportType) → proxy_port r t ≡ proxy_port q t
    proxy_port_same udp = a.udp_port
    proxy_port_same tcp = a.tcp_port

    drop_call-Agree : Agree id (drop_call r id) (drop_call q id)
    drop_call-Agree = record {
      table = a.table;
      udp_port = a.udp_port;
      tcp_port = a.tcp_port;
      session = erase_same r.registry q.registry;
      context = erase_same r.call_contexts q.call_contexts;
    }

    session_request-Agree :
        (m : SipMessage) → Agree id (session_request r m id) (session_request q m id)
    session_request-Agree m = record {
      table = a.table;
      udp_port = a.udp_port;
      tcp_port = a.tcp_port;
      session = with_session_same r.registry q.registry (on_request m) a.session;
      context = a.context;
    }

    session_response-Agree :
        (m : SipMessage) → Agree id (session_response r m id) (session_response q m id)
    session_response-Agree m = record {
      table = a.table;
      udp_port = a.udp_port;
      tcp_port = a.tcp_port;
      session = with_session_same r.registry q.registry (on_response m) a.session;
      context = a.context;
    }

    store_answer-Agree :
        (m : SipMessage) (o : Option CallContext)
        → Agree id (store_answer r m id o) (store_answer q m id o)
    unfolding store_answer
    store_answer-Agree m none = a
    store_answer-Agree m (some c) = record {
      table = a.table;
      udp_port = a.udp_port;
      tcp_port = a.tcp_port;
      session = a.session;
      context = insert_same r.call_contexts q.call_contexts _ _ refl;
    }

    on_answer-Agree : (m : SipMessage) → Agree id (on_answer r m id) (on_answer q m id)
    unfolding on_answer
    on_answer-Agree m = elim (Bool-cases (answers m 200 (codes "INVITE"))) [
      | inl e ↦ rw e (rw a.context (store_answer-Agree m (lookup q.call_contexts id)))
      | inr e ↦ rw e a
    ]

    on_decline-Agree : (m : SipMessage) → Agree id (on_decline r m) (on_decline q m)
    unfolding on_decline
    on_decline-Agree m = elim (Bool-cases (answers m 603 (codes "INVITE"))) [
      | inl e ↦ rw e (record {
        table = a.table;
        udp_port = a.udp_port;
        tcp_port = a.tcp_port;
        session = a.session;
        context = a.context;
      })
      | inr e ↦ rw e a
    ]

    on_end-Agree :
        (m : SipMessage) (code : ℕ) (method : Bytes)
        → Agree id (on_end r m id code method) (on_end q m id code method)
    unfolding on_end
    on_end-Agree m code method = elim (Bool-cases (answers m code method)) [
      | inl e ↦
          let d = drop_call-Agree in
          rw e (record {
            table = d.table;
            udp_port = d.udp_port;
            tcp_port = d.tcp_port;
            session = d.session;
            context = d.context;
          })
      | inr e ↦ rw e a
    ]

  after_response-Agree :
      (r q : SipRouter) (m : SipMessage)
      → Agree id r q
      → Agree id (after_response r m id) (after_response q m id)
  unfolding after_response
  after_response-Agree r q m a =
      on_end-Agree _ _
        (on_end-Agree _ _
          (on_decline-Agree _ _ (on_answer-Agree _ _ (session_response-Agree r q a m) m) m) m 200
          (codes "BYE"))
        m 486 (codes "INVITE")

  response_in-SameRun :
      (r q : SipRouter) (m : SipMessage) (o : Option CallContext)
      → call_id_of m ≡ id
      → Agree id r q
      → SameRun id (response_in r m o) (response_in q m o)
  unfolding response_in
  response_in-SameRun r q m none e a = (refl, a)
  response_in-SameRun r q m (some c) e a =
      (refl, rw e (after_response-Agree r q (strip_proxy_via m) a))

  forward_within_same :
      (r q : SipRouter) (m : SipMessage) (c : CallContext)
      → Agree id r q
      → forward_within r m c ≡ forward_within q m c
  unfolding forward_within
  forward_within_same r q m c a =
      ground
        (arith, proxy_port_same r q a c.callee_transport, proxy_port_same r q a c.caller_transport)

  bye_in-SameRun :
      (r q : SipRouter) (m : SipMessage) (o : Option CallContext)
      → call_id_of m ≡ id
      → Agree id r q
      → SameRun id (bye_in r m o) (bye_in q m o)
  unfolding bye_in
  bye_in-SameRun r q m none e a = (refl, a)
  bye_in-SameRun r q m (some c) e a =
      (forward_within_same r q m c a, rw e (session_request-Agree r q a m))

  ack_in-SameRun :
      (r q : SipRouter) (m : SipMessage) (o : Option CallContext)
      → call_id_of m ≡ id
      → Agree id r q
      → SameRun id (ack_in r m o) (ack_in q m o)
  unfolding ack_in
  ack_in-SameRun r q m none e a = (refl, a)
  ack_in-SameRun r q m (some c) e a =
      let next = session_request-Agree r q a m in
      let over : is_over (session_request r m id) id ≡ is_over (session_request q m id) id =
        ap is_over_session next.session in
      rw e (elim (Bool-cases (is_over (session_request q m id) id)) [
        | inl y ↦ rw (over, y) (forward_within_same r q m c a, drop_call-Agree _ _ next)
        | inr n ↦ rw (over, n) (forward_within_same r q m c a, next)
      ])

  -- A response, an ACK and a BYE of the call.
  pub response-SameRun :
      (r q : SipRouter) (m : SipMessage)
      → call_id_of m ≡ id
      → Agree id r q
      → SameRun id (handle_response r m) (handle_response q m)
  unfolding handle_response
  response-SameRun r q m e a =
      rw (e, a.context) (response_in-SameRun r q m (lookup q.call_contexts id) e a)

  pub ack-SameRun :
      (r q : SipRouter) (m : SipMessage)
      → call_id_of m ≡ id
      → Agree id r q
      → SameRun id (handle_ack r m) (handle_ack q m)
  unfolding handle_ack
  ack-SameRun r q m e a = rw (e, a.context) (ack_in-SameRun r q m (lookup q.call_contexts id) e a)

  pub bye-SameRun :
      (r q : SipRouter) (m : SipMessage)
      → call_id_of m ≡ id
      → Agree id r q
      → SameRun id (handle_bye r m) (handle_bye q m)
  unfolding handle_bye
  bye-SameRun r q m e a = rw (e, a.context) (bye_in-SameRun r q m (lookup q.call_contexts id) e a)
