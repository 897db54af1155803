-- ===== src/Proxy/Router/InCall.antt =====
-- What each message inside a call does: it is forwarded, and the call goes on.
use minimal_sip_proxy_sip_cl.Base.{
  ◌≡◌, refl, ap, ◌∙◌, true, false, some, List, ◌∷◌, arith, Bytes, codes, str_eq, str_eq_refl,
  lookup, lookup-insert, Dict, Bool-cases, inl, inr,
}
use minimal_sip_proxy_sip_cl.Sip.Message.{SipMessage, is_response}
use minimal_sip_proxy_sip_cl.Proxy.Metrics.{MetricsCollector}
use minimal_sip_proxy_sip_cl.Proxy.Call.{on_request, on_response}
use minimal_sip_proxy_sip_cl.Proxy.Call.Alive.{on_response_alive, ack_alive}
use minimal_sip_proxy_sip_cl.Proxy.Router.Helpers.{SipRouter, CallContext, strip_proxy_via}
use minimal_sip_proxy_sip_cl.Proxy.Router.Context.{
  handle_ack, handle_bye, session_request, forward_within, is_over, store_headers,
}
use minimal_sip_proxy_sip_cl.Proxy.Router.Response.{
  handle_response, after_response, session_response, store_answer, on_answer, on_decline, on_end,
  answers, forward_back, response_from_caller,
}
use minimal_sip_proxy_sip_cl.Proxy.Router.Route.{route}
use minimal_sip_proxy_sip_cl.Proxy.Router.Invite.{call_id_of}
use minimal_sip_proxy_sip_cl.Proxy.Router.Frame.{
  lookup-with_session, ack-SameCall, bye-SameCall, response-SameCall,
}
use minimal_sip_proxy_sip_cl.Proxy.Router.Conversation.{
  Arrival, Served, Served-cons, destination, where_to, Held, Talking, IsQuiet, IsRequest,
}

module _ (c : CallContext) (id : Bytes) (n : MetricsCollector) where
  quiet_after :
      (r : SipRouter) (m : SipMessage)
      → IsQuiet id m
      → after_response r (strip_proxy_via m) id
        ≡ on_answer (session_response r (strip_proxy_via m) id) (strip_proxy_via m) id
  unfolding after_response on_decline on_end
  quiet_after r m q = rw (q.no_decline, q.no_goodbye, q.no_busy) refl

  store_answer-Held :
      (r : SipRouter) (m : SipMessage)
      → Held c id n r
      → Held c id n (store_answer r m id (lookup r.call_contexts id))
  unfolding store_answer
  store_answer-Held r m h = rw h.context (record {
    stored = store_headers h.stored m.headers;
    context = lookup-insert r.call_contexts id id _ ∙ rw (str_eq_refl id);
    metrics = h.metrics;
  })

  on_answer-Held : (r : SipRouter) (m : SipMessage) → Held c id n r → Held c id n (on_answer r m id)
  unfolding on_answer
  on_answer-Held r m h = elim (Bool-cases (answers m 200 (codes "INVITE"))) [
    | inl e ↦ rw e (store_answer-Held r m h)
    | inr e ↦ rw e h
  ]

  session_response-Held :
      (r : SipRouter) (m : SipMessage) → Held c id n r → Held c id n (session_response r m id)
  session_response-Held r m h = record {
    stored = h.stored;
    context = h.context;
    metrics = h.metrics;
  }

  pub response_within :
      (r : SipRouter) (m : SipMessage)
      → Held c id n r
      → call_id_of m ≡ id
      → is_response m ≡ true
      → (where_to (handle_response r m).0 ≡ destination c m)
        × ((handle_response r m).1 ≡ after_response r (strip_proxy_via m) id)
  unfolding handle_response forward_back destination response_from_caller
  response_within r m h e k =
      rw (e, h.context, k) (ground arith, ap (after_response r (strip_proxy_via m)) e)

  pub quiet-Held :
      (r : SipRouter) (m : SipMessage)
      → IsQuiet id m
      → Held c id n r
      → Held c id n (handle_response r m).1
  quiet-Held r m q h =
      rw ((response_within r m h q.same_call q.response).1, quiet_after r m q)
        (on_answer-Held _ (strip_proxy_via m) (session_response-Held r (strip_proxy_via m) h))

  registry-on_answer : (r : SipRouter) (m : SipMessage) → (on_answer r m id).registry ≡ r.registry
  unfolding on_answer store_answer
  registry-on_answer r m = ground arith

  pub quiet-Talking :
      (r : SipRouter) (m : SipMessage)
      → IsQuiet id m
      → Talking c id n r
      → Talking c id n (handle_response r m).1
  quiet-Talking r m q t = record {
    held = quiet-Held r m q t.held;
    session = on_response (strip_proxy_via m) t.session;
    found =
        ap (λ (s : SipRouter). lookup s.registry id)
          ((response_within r m t.held q.same_call q.response).1 ∙ quiet_after r m q)
        ∙ ap (λ calls. lookup calls id) (registry-on_answer _ (strip_proxy_via m))
        ∙ lookup-with_session r.registry id id (on_response (strip_proxy_via m))
        ∙ rw (str_eq_refl id, t.found);
    alive = on_response_alive (strip_proxy_via m) t.session t.alive;
  }

  request_within :
      (r : SipRouter) (m : SipMessage) (stored : Dict Bytes)
      → is_response m ≡ false
      → where_to (forward_within r m (record c { callee_stored_headers = stored }))
        ≡ destination c m
  unfolding forward_within destination
  request_within r m stored k = rw k (ground arith)

  pub bye_within :
      (r : SipRouter) (m : SipMessage)
      → IsRequest (codes "BYE") id m
      → Held c id n r
      → (where_to (handle_bye r m).0 ≡ destination c m) × Held c id n (handle_bye r m).1
  unfolding handle_bye
  bye_within r m q h =
      rw (q.same_call, h.context)
        (
          request_within r m h.stored q.no_response,
          record { stored = h.stored; context = h.context; metrics = h.metrics },
        )

  session_after_ack :
      (r : SipRouter) (m : SipMessage) (t : Talking c id n r)
      → lookup (session_request r m id).registry id ≡ some (on_request m t.session)
  session_after_ack r m t =
      lookup-with_session r.registry id id (on_request m) ∙ rw (str_eq_refl id, t.found)

  ack_goes_on :
      (r : SipRouter) (m : SipMessage)
      → IsRequest (codes "ACK") id m
      → Talking c id n r
      → is_over (session_request r m id) id ≡ false
  ack_goes_on r m q t = rw (session_after_ack r m t) (ack_alive m t.session q.named t.alive)

  pub ack_within :
      (r : SipRouter) (m : SipMessage)
      → IsRequest (codes "ACK") id m
      → Talking c id n r
      → (where_to (handle_ack r m).0 ≡ destination c m) × Talking c id n (handle_ack r m).1
  unfolding handle_ack
  ack_within r m q t =
      rw (q.same_call, t.held.context, q.same_call, ack_goes_on r m q t)
        (
          request_within r m t.held.stored q.no_response,
          record {
            held = record {
              stored = t.held.stored;
              context = t.held.context;
              metrics = t.held.metrics;
            };
            session = on_request m t.session;
            found = session_after_ack r m t;
            alive = ack_alive m t.session q.named t.alive;
          },
        )

  module _ (P : SipRouter → Type 0) (rest : List Arrival) where
    -- One message of the call, and what follows it.
    pub quiet-Served :
        (a : Arrival) (r : SipRouter)
        → IsQuiet id a.message
        → Held c id n r
        → Served c id P rest (handle_response r a.message).1
        → Served c id P (a ∷ rest) r
    unfolding route
    quiet-Served a r q h later =
        Served-cons c id P a rest r _ (handle_response r a.message).0 (rw q.response refl)
          (response_within r a.message h q.same_call q.response).0
          (λ k other. response-SameCall k id other r a.message q.same_call) later

    pub ack-Served :
        (a : Arrival) (r : SipRouter)
        → IsRequest (codes "ACK") id a.message
        → Talking c id n r
        → Served c id P rest (handle_ack r a.message).1
        → Served c id P (a ∷ rest) r
    unfolding route str_eq
    ack-Served a r q t later =
        Served-cons c id P a rest r _ (handle_ack r a.message).0
          (rw (q.no_response, q.request, q.named) refl) (ack_within r a.message q t).0
          (λ k other. ack-SameCall k id other r a.message q.same_call) later

    pub bye-Served :
        (a : Arrival) (r : SipRouter)
        → IsRequest (codes "BYE") id a.message
        → Held c id n r
        → Served c id P rest (handle_bye r a.message).1
        → Served c id P (a ∷ rest) r
    unfolding route str_eq
    bye-Served a r q h later =
        Served-cons c id P a rest r _ (handle_bye r a.message).0
          (rw (q.no_response, q.request, q.named) refl) (bye_within r a.message q h).0
          (λ k other. bye-SameCall k id other r a.message q.same_call) later
