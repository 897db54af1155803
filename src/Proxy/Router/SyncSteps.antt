-- ===== src/Proxy/Router/SyncSteps.antt =====
-- What it means that the registry and the contexts agree on a call, and each step on them.
use mathlib.Core.Option
use minimal_sip_proxy_sip_cl.Base.{
  ℕ, ◌≡◌, ◌≢◌, refl, Option, none, some, arith, Bytes, codes, str_eq_refl, lookup, insert,
  lookup-insert, lookup-erase, Bool-cases, inl, inr,
}
use minimal_sip_proxy_sip_cl.Sip.Message.{TransportType, SipMessage}
use minimal_sip_proxy_sip_cl.Proxy.Call.{
  CallSession, CallEvent, apply_event, on_request, on_response,
}
use minimal_sip_proxy_sip_cl.Proxy.Router.Helpers.{
  has_required_register_headers, SipRouter, CallContext, RoutingResult, strip_proxy_via,
}
use minimal_sip_proxy_sip_cl.Proxy.Router.Context.{
  ack_in, bye_in, session_request, drop_call, new_context, store_headers, is_over,
}
use minimal_sip_proxy_sip_cl.Proxy.Router.Response.{
  response_in, after_response, session_response, store_answer, on_answer, on_decline, on_end,
  answers,
}
use minimal_sip_proxy_sip_cl.Proxy.Router.Invite.{Placed, call_id_of, new_session}
use minimal_sip_proxy_sip_cl.Proxy.Router.Frame.{lookup-with_session}
use minimal_sip_proxy_sip_cl.Proxy.Router.Route.{handle_register}

-- A session and a context of one Call-ID: both or neither, of the same two distinct parties.
abbrev pub Matches : Bytes → Option CallSession → Option CallContext → Type 0
Matches k none none = Unit {0}
Matches k none (some c) = ⊥
Matches k (some s) none = ⊥
Matches k (some s) (some c) =
    (s.call_id ≡ k) × (s.caller ≡ c.caller) × (s.callee ≡ c.callee) × (c.caller ≢ c.callee)

abbrev pub SyncAt : SipRouter → Bytes → Type 0
SyncAt r k = Matches k (lookup r.registry k) (lookup r.call_contexts k)

pub record InSync (r : SipRouter) : Type 0 where
  pub at : (k : Bytes) → SyncAt r k

-- A function on sessions that keeps whose call it is.
abbrev SameParties : CallSession → CallSession → Type 0
SameParties s s' = (s'.call_id ≡ s.call_id) × (s'.caller ≡ s.caller) × (s'.callee ≡ s.callee)

apply_event-SameParties : (s : CallSession) (e : CallEvent) → SameParties s (apply_event s e)
unfolding apply_event
apply_event-SameParties s e = ground arith

on_request-SameParties : (m : SipMessage) (s : CallSession) → SameParties s (on_request m s)
unfolding on_request
on_request-SameParties m s = ground (
  arith,
  apply_event-SameParties s CallEvent.invite,
  apply_event-SameParties s CallEvent.ack,
  apply_event-SameParties s CallEvent.bye,
)

on_response-SameParties : (m : SipMessage) (s : CallSession) → SameParties s (on_response m s)
unfolding on_response
on_response-SameParties m s = ground (
  arith,
  apply_event-SameParties s CallEvent.trying_100,
  apply_event-SameParties s CallEvent.ringing_180,
  apply_event-SameParties s CallEvent.ok_200,
)

Matches-map :
    (k : Bytes) (f : CallSession → CallSession)
    → ((s : CallSession) → SameParties s (f s))
    → (o : Option CallSession) (c : Option CallContext) → Matches k o c
    → Matches k (Option.map f o) c
Matches-map k f keep none none h = h
Matches-map k f keep none (some c) h = h
Matches-map k f keep (some s) none h = h
Matches-map k f keep (some s) (some c) h = let e = keep s in ground arith

module _ (id : Bytes) where
  session_request-SyncAt :
      (r : SipRouter) (m : SipMessage) → SyncAt r id → SyncAt (session_request r m id) id
  session_request-SyncAt r m h =
      rw (lookup-with_session r.registry id id (on_request m), str_eq_refl id)
        (Matches-map id (on_request m) (on_request-SameParties m) _ _ h)

  session_response-SyncAt :
      (r : SipRouter) (m : SipMessage) → SyncAt r id → SyncAt (session_response r m id) id
  session_response-SyncAt r m h =
      rw (lookup-with_session r.registry id id (on_response m), str_eq_refl id)
        (Matches-map id (on_response m) (on_response-SameParties m) _ _ h)

  drop_call-SyncAt : (r : SipRouter) → SyncAt (drop_call r id) id
  drop_call-SyncAt r =
      rw (lookup-erase r.registry id id, lookup-erase r.call_contexts id id, str_eq_refl id) tt

  store_answer-SyncAt :
      (r : SipRouter) (m : SipMessage) (o : Option CallContext)
      → lookup r.call_contexts id ≡ o
      → SyncAt r id
      → SyncAt (store_answer r m id o) id
  unfolding store_answer
  store_answer-SyncAt r m none e h = h
  store_answer-SyncAt r m (some c) e h =
      rw (lookup-insert r.call_contexts id id _, str_eq_refl id)
        (go (lookup r.registry id) (rw e at h))
    where
      go :
          (o : Option CallSession)
          → Matches id o (some c)
          → Matches id o (
              some (record c {
                callee_stored_headers = store_headers c.callee_stored_headers m.headers;
              }))
      go none x = x
      go (some s) x = x

  on_answer-SyncAt : (r : SipRouter) (m : SipMessage) → SyncAt r id → SyncAt (on_answer r m id) id
  unfolding on_answer
  on_answer-SyncAt r m h = elim (Bool-cases (answers m 200 (codes "INVITE"))) [
    | inl e ↦ rw e (store_answer-SyncAt r m _ refl h)
    | inr e ↦ rw e h
  ]

  on_decline-SyncAt : (r : SipRouter) (m : SipMessage) → SyncAt r id → SyncAt (on_decline r m) id
  unfolding on_decline
  on_decline-SyncAt r m h = elim (Bool-cases (answers m 603 (codes "INVITE"))) [
    | inl e ↦ rw e h
    | inr e ↦ rw e h
  ]

  on_end-SyncAt :
      (r : SipRouter) (m : SipMessage) (code : ℕ) (method : Bytes)
      → SyncAt r id
      → SyncAt (on_end r m id code method) id
  unfolding on_end
  on_end-SyncAt r m code method h = elim (Bool-cases (answers m code method)) [
    | inl e ↦ rw e (drop_call-SyncAt r)
    | inr e ↦ rw e h
  ]

  after_response-SyncAt :
      (r : SipRouter) (m : SipMessage) → SyncAt r id → SyncAt (after_response r m id) id
  unfolding after_response
  after_response-SyncAt r m h = on_end-SyncAt _ m 486 (codes "INVITE") (
      on_end-SyncAt _ m 200 (codes "BYE")
        (on_decline-SyncAt _ m (on_answer-SyncAt _ m (session_response-SyncAt r m h))))

  pub ack-SyncAt :
      (r : SipRouter) (m : SipMessage) (o : Option CallContext)
      → call_id_of m ≡ id
      → SyncAt r id
      → SyncAt (ack_in r m o).1 id
  unfolding ack_in
  ack-SyncAt r m none e h = h
  ack-SyncAt r m (some c) e h = rw e (elim (Bool-cases (is_over (session_request r m id) id)) [
    | inl y ↦ rw y (drop_call-SyncAt (session_request r m id))
    | inr y ↦ rw y (session_request-SyncAt r m h)
  ])

  pub bye-SyncAt :
      (r : SipRouter) (m : SipMessage) (o : Option CallContext)
      → call_id_of m ≡ id
      → SyncAt r id
      → SyncAt (bye_in r m o).1 id
  unfolding bye_in
  bye-SyncAt r m none e h = h
  bye-SyncAt r m (some c) e h = rw e (session_request-SyncAt r m h)

  pub response-SyncAt :
      (r : SipRouter) (m : SipMessage) (o : Option CallContext)
      → call_id_of m ≡ id
      → SyncAt r id
      → SyncAt (response_in r m o).1 id
  unfolding response_in
  response-SyncAt r m none e h = h
  response-SyncAt r m (some c) e h = rw e (after_response-SyncAt r (strip_proxy_via m) h)

pub Placed-SyncAt :
    {r : SipRouter} {m : SipMessage} {ip : Bytes} {port : ℕ} {t : TransportType}
    {result : RoutingResult} {r' : SipRouter}
    → Placed r m ip port t result r'
    → SyncAt r' (call_id_of m)
unfolding new_context
Placed-SyncAt {r} {m} p =
    let id = call_id_of m in
    let k = on_request-SameParties m (new_session m) in
    rw
      (
        p.after,
        lookup-with_session (insert r.registry id (new_session m)) id id (on_request m),
        lookup-insert r.registry id id (new_session m),
        lookup-insert r.call_contexts id id _,
        str_eq_refl id,
      )
      (k.0, k.1, k.2, p.distinct)

pub register-SyncAt :
    (r : SipRouter) (m : SipMessage) (t : TransportType) (k : Bytes)
    → SyncAt r k
    → SyncAt (handle_register r m t).1 k
unfolding handle_register
register-SyncAt r m t k h = elim (Bool-cases (has_required_register_headers m)) [
  | inl e ↦ rw e h
  | inr e ↦ rw e h
]
