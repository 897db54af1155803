-- ===== src/Proxy/Router/Calls.antt =====
-- How a call ends, or fails to end, in the router.
use mathlib.Core.Option
use minimal_sip_proxy_sip_cl.Base.{Exception, err, Result-cases}
use minimal_sip_proxy_sip_cl.Base.{
  ◌≡◌, refl, ap, ◌∙◌, ℕ, [], ◌⊎◌, inl, inr, true, false, Option, none, some, arith, Bytes, codes,
  str_eq_refl, lookup, lookup-erase, erase, ok, is_int, ℤ, pos, negsuc,
}
use minimal_sip_proxy_sip_cl.Sip.Message.{TransportType, SipMessage, get_status_code}
use minimal_sip_proxy_sip_cl.Proxy.Metrics.{dec_active_calls}
use minimal_sip_proxy_sip_cl.Proxy.Call.{
  create_call, CallSession, CallEvent, terminated, handle_event, apply_event, on_request,
  on_response,
}
use minimal_sip_proxy_sip_cl.Proxy.Call.Machine.{state-apply_event}
use minimal_sip_proxy_sip_cl.Proxy.Router.Helpers.{
  SipRouter, CallContext, RoutingResult, no_result, respond, respond_locally, strip_proxy_via,
}
use minimal_sip_proxy_sip_cl.Proxy.Router.Context.{
  handle_ack, handle_bye, ack_in, session_request, bad_request, drop_call, is_over,
}
use minimal_sip_proxy_sip_cl.Proxy.Router.Response.{
  handle_response, after_response, session_response, store_answer, on_answer, on_decline, on_end,
  answers,
}
use minimal_sip_proxy_sip_cl.Proxy.Router.Route.{handle_invite, invite_contact, start_call}
use minimal_sip_proxy_sip_cl.Proxy.Router.Invite.{invite_cases, call_id_of}
use minimal_sip_proxy_sip_cl.Proxy.Router.Frame.{lookup-with_session}

-- An ACK or a BYE of a call without a context is answered with 400, and a response is dropped;
-- in all three cases the state stays as it was.
pub unknown_call :
    (r : SipRouter) (m : SipMessage)
    → lookup r.call_contexts (call_id_of m) ≡ none
    → (handle_ack r m ≡ (respond bad_request m [], r))
      × (handle_bye r m ≡ (respond bad_request m [], r))
      × (handle_response r m ≡ (no_result, r))
unfolding handle_ack handle_bye handle_response
unknown_call r m e = (rw e, rw e, rw e)

duplicate_throws :
    (r : SipRouter) (m : SipMessage) (ip : Bytes) (port : ℕ) (t : TransportType) (s : CallSession)
    (x : Exception)
    → lookup r.registry (call_id_of m) ≡ some s
    → handle_invite r m ip port t ≡ err x
    → ⊥
unfolding handle_invite invite_contact start_call create_call
duplicate_throws r m ip port t s x e h = ground arith

-- While a call has a session, an INVITE with its Call-ID is refused with a local response, and
-- the state stays as it was.
pub invite_while_called :
    (r : SipRouter) (m : SipMessage) (ip : Bytes) (port : ℕ) (t : TransportType) (s : CallSession)
    → lookup r.registry (call_id_of m) ≡ some s
    → (result : RoutingResult) × (handle_invite r m ip port t ≡ ok (result, r))
      × (result.action ≡ respond_locally)
invite_while_called r m ip port t s e = elim (Result-cases (handle_invite r m ip port t)) [
  | inr (x, h) ↦ absurd (duplicate_throws r m ip port t s x e h)
  | inl ((result, r'), h) ↦ elim (invite_cases r m ip port t result r' h) [
    | inl refused ↦ (result, rw refused.same at h, refused.local)
    | inr placed ↦ absurd (cc (placed.fresh))
  ]
]

-- The responses that end a call.
abbrev pub Ends : SipMessage → Type 0
Ends m = (answers m 200 (codes "BYE") ≡ true) ⊎ (answers m 486 (codes "INVITE") ≡ true)

-- One status code excludes the others that the handler asks for.
only_603 :
    (z : ℤ)
    → is_int z 603 ≡ true
    → (is_int z 100 ≡ false)
      × (is_int z 180 ≡ false)
      × (is_int z 200 ≡ false)
      × (is_int z 486 ≡ false)
only_603 (pos n) h = ground arith
only_603 (negsuc n) h = cc

only_200 : (z : ℤ) → is_int z 200 ≡ true → (is_int z 603 ≡ false) × (is_int z 486 ≡ false)
only_200 (pos n) h = ground arith
only_200 (negsuc n) h = cc

only_486 : (z : ℤ) → is_int z 486 ≡ true → (is_int z 603 ≡ false) × (is_int z 200 ≡ false)
only_486 (pos n) h = ground arith
only_486 (negsuc n) h = cc

metrics-on_answer :
    (r : SipRouter) (m : SipMessage) (id : Bytes) → (on_answer r m id).metrics ≡ r.metrics
unfolding on_answer store_answer
metrics-on_answer r m id = ground arith

after_decline :
    (r : SipRouter) (m : SipMessage) (id : Bytes)
    → answers m 603 (codes "INVITE") ≡ true
    → after_response r m id
      ≡ record (session_response r m id) { metrics = dec_active_calls r.metrics }
unfolding after_response on_answer on_decline on_end
after_decline r m id h =
    let (a, b, c, d) = only_603 (get_status_code m) (ground arith) in rw (h, c, d)

quiet_decline :
    (m : SipMessage) (o : Option CallSession)
    → is_int (get_status_code m) 603 ≡ true
    → Option.map (on_response m) o ≡ o
unfolding on_response
quiet_decline m none h = refl
quiet_decline m (some s) h = let (a, b, c, d) = only_603 (get_status_code m) h in rw (a, b, c)

-- The state of a call is dropped, and the call is counted off.
abbrev pub Ended : SipRouter → Bytes → SipRouter → Type 0
Ended r id r' =
    (lookup r'.registry id ≡ none)
    × (lookup r'.call_contexts id ≡ none)
    × (r'.metrics ≡ dec_active_calls r.metrics)

Ended-drop :
    (r q : SipRouter) (id : Bytes)
    → q.metrics ≡ r.metrics
    → Ended r id (record (drop_call q id) { metrics = dec_active_calls q.metrics })
Ended-drop r q id e = (
  lookup-erase q.registry id id ∙ rw (str_eq_refl id),
  lookup-erase q.call_contexts id id ∙ rw (str_eq_refl id),
  ap dec_active_calls e,
)

pub after_end :
    (r : SipRouter) (m : SipMessage) (id : Bytes) → Ends m → Ended r id (after_response r m id)
unfolding after_response on_decline on_end
after_end r m id (inl h) =
    let (a, b) = only_200 (get_status_code m) (ground arith) in
    rw (h, a, b)
      (Ended-drop r (on_answer (session_response r m id) m id) id
        (metrics-on_answer (session_response r m id) m id))
after_end r m id (inr h) =
    let (a, b) = only_486 (get_status_code m) (ground arith) in
    rw (h, a, b)
      (Ended-drop r (on_answer (session_response r m id) m id) id
        (metrics-on_answer (session_response r m id) m id))

-- After a 200 to BYE or a 486 to INVITE the call has neither a session nor a context, and it is
-- counted off the active calls, once.
pub end_removes_call :
    (r : SipRouter) (m : SipMessage) (c : CallContext)
    → lookup r.call_contexts (call_id_of m) ≡ some c
    → Ends (strip_proxy_via m)
    → let r' = (handle_response r m).1 in
      (lookup r'.registry (call_id_of m) ≡ none)
      × (lookup r'.call_contexts (call_id_of m) ≡ none)
      × (r'.metrics ≡ dec_active_calls r.metrics)
unfolding handle_response
end_removes_call r m c e h = rw e (after_end r (strip_proxy_via m) (call_id_of m) h)

-- A 603 to INVITE leaves the session and the context of the call in place; only the count of
-- active calls goes down.
pub decline_keeps_call :
    (r : SipRouter) (m : SipMessage) (c : CallContext)
    → lookup r.call_contexts (call_id_of m) ≡ some c
    → answers (strip_proxy_via m) 603 (codes "INVITE") ≡ true
    → let r' = (handle_response r m).1 in
      (lookup r'.registry (call_id_of m) ≡ lookup r.registry (call_id_of m))
      × (lookup r'.call_contexts (call_id_of m) ≡ some c)
      × (r'.metrics ≡ dec_active_calls r.metrics)
unfolding handle_response
decline_keeps_call r m c e h =
    let s = strip_proxy_via m in
    let id = call_id_of m in
    rw (e, after_decline r s id h)
      (
        lookup-with_session r.registry id id (on_response s)
            ∙ rw (str_eq_refl id) (quiet_decline s _ (ground arith)),
        e,
        refl,
      )

apply_event_terminated :
    (s : CallSession) (e : CallEvent) → s.state ≡ terminated → (apply_event s e).state ≡ terminated
unfolding handle_event
apply_event_terminated s e h = state-apply_event s e ∙ rw h

on_request_terminated :
    (m : SipMessage) (s : CallSession) → s.state ≡ terminated → (on_request m s).state ≡ terminated
unfolding on_request
on_request_terminated m s h = ground (
  arith,
  apply_event_terminated s CallEvent.invite h,
  apply_event_terminated s CallEvent.ack h,
  apply_event_terminated s CallEvent.bye h,
)

still_over :
    (r : SipRouter) (m : SipMessage) (id : Bytes) (s : CallSession)
    → lookup r.registry id ≡ some s
    → s.state ≡ terminated
    → is_over (session_request r m id) id ≡ true
still_over r m id s e h = rw (
  lookup-with_session r.registry id id (on_request m),
  str_eq_refl id,
  e,
  on_request_terminated m s h,
)

-- When a call is over for its session and its context is still there, an ACK drops the call
-- without counting it off, and the answer to the BYE that comes then is ignored.
pub late_ack_loses_answer :
    (r : SipRouter) (ack answer : SipMessage) (c : CallContext) (s : CallSession)
    → call_id_of answer ≡ call_id_of ack
    → lookup r.call_contexts (call_id_of ack) ≡ some c
    → lookup r.registry (call_id_of ack) ≡ some s
    → s.state ≡ terminated
    → let r' = (handle_ack r ack).1 in
      (r'.metrics ≡ r.metrics) × (handle_response r' answer ≡ (no_result, r'))
unfolding handle_ack ack_in
late_ack_loses_answer r ack answer c s same e f over =
    let id = call_id_of ack in
    let gone : lookup (erase r.call_contexts id) (call_id_of answer) ≡ none =
      rw same (lookup-erase r.call_contexts id id ∙ rw (str_eq_refl id)) in
    rw (e, still_over r ack id s f over)
      (refl, (unknown_call (drop_call (session_request r ack id) id) answer gone).2)
