-- ===== src/Tests/Calls.antt =====
-- Tests of the router, and its theorems at concrete calls.
use minimal_sip_proxy_sip_cl.Base.{
  ◌≡◌, refl, ◌⊎◌, true, false≢true, some, [], ◌∷◌, Bytes, codes, ok, starts_with, find, find_from,
  str_eq, str_eq_iff, stoi, to_string, lookup, insert, erase, to_u16,
}
use minimal_sip_proxy_sip_cl.Sip.Message.{
  udp, header, SipMessage, get_in, has_in, get_method, get_status_code, is_request, is_response,
}
use minimal_sip_proxy_sip_cl.Proxy.Metrics.{inc_active_calls, increment}
use minimal_sip_proxy_sip_cl.Proxy.Call.{
  CallState, trying, ringing, terminated, create_call, with_session, on_request, apply_event,
  handle_event,
}
use minimal_sip_proxy_sip_cl.Proxy.Registration
use minimal_sip_proxy_sip_cl.Proxy.Registration.{get_contact}
use minimal_sip_proxy_sip_cl.Proxy.Router.Helpers.{
  SipRouter, RoutingResult, no_result, new_router, has_required_register_headers, respond,
  forward_request, strip_in, strip_proxy_via, has_required_invite_headers, extract_sip_identity,
  build_proxy_via,
}
use minimal_sip_proxy_sip_cl.Proxy.Router.Context.{
  handle_ack, bad_request, forward_within, store_call_context, address_of, new_context,
  store_headers,
}
use minimal_sip_proxy_sip_cl.Proxy.Router.Response.{handle_response, answers}
use minimal_sip_proxy_sip_cl.Proxy.Router.Route.{
  route, handle_register, handle_invite, invite_contact, start_call, forward_invite,
}
use minimal_sip_proxy_sip_cl.Proxy.Router.Headers.{strip-forward}
use minimal_sip_proxy_sip_cl.Proxy.Router.Invite.{call_id_of, Refused, Placed, invite_cases}
use minimal_sip_proxy_sip_cl.Proxy.Router.Cases.{started, routed}
use minimal_sip_proxy_sip_cl.Proxy.Router.SyncSteps.{InSync}
use minimal_sip_proxy_sip_cl.Proxy.Router.Sync.{Reaches-InSync}
use minimal_sip_proxy_sip_cl.Proxy.Router.Frame.{SameCall, route-SameCall}
use minimal_sip_proxy_sip_cl.Proxy.Router.Calls.{decline_keeps_call, late_ack_loses_answer}
use minimal_sip_proxy_sip_cl.Proxy.Router.Direction.{GoesToCallee, full_response_to_callee}
use minimal_sip_proxy_sip_cl.Tests.Data.{
  bob, bob_contact, bob_entry, caller_ip, caller_via, proxy_via, message, invite_message,
  ack_message, answer, registered, context, in_call, session_in,
}

-- What the router makes of the INVITE of alice, and the state after it.
abbrev placed_result : RoutingResult
placed_result = record no_result {
  action = forward_request;
  message = record invite_message { headers = proxy_via ∷ invite_message.headers };
  contact = some bob_contact;
  user = bob;
}

abbrev placed_state : SipRouter
placed_state = record registered {
  registry = (codes "c1", session_in trying) ∷ [];
  call_contexts =
      (
        codes "c1",
        record context {
          caller_stored_headers =
              (codes "Via", codes "SIP/2.0/UDP 10.0.0.1:5070")
              ∷ (codes "From", codes "<sip:alice@a.com>")
              ∷ (codes "To", codes "<sip:bob@b.com>")
              ∷ (codes "Call-ID", codes "c1")
              ∷ (codes "CSeq", codes "1 INVITE")
              ∷ (codes "Content-Length", codes "0")
              ∷ [];
          callee_stored_headers = (codes "Contact", bob_contact) ∷ [];
        },
      )
      ∷ [];
  metrics = record registered.metrics { active_calls = 1 };
}

invite_runs :
    handle_invite registered invite_message caller_ip 5070 udp ≡ ok (placed_result, placed_state)
unfolding handle_invite has_required_invite_headers has_in get_in str_eq extract_sip_identity find
    find_from starts_with lookup insert erase invite_contact start_call create_call
    store_call_context address_of stoi to_u16 new_context store_headers get_contact with_session
    on_request apply_event handle_event get_method is_request is_response forward_invite
    build_proxy_via to_string increment
invite_runs = refl

route_runs : route registered invite_message caller_ip 5070 udp ≡ ok (placed_result, placed_state)
unfolding route str_eq get_method is_request is_response starts_with find
route_runs = invite_runs

invite_cases_example :
    Refused registered placed_result placed_state
    ⊎ Placed registered invite_message caller_ip 5070 udp placed_result placed_state
invite_cases_example =
    invite_cases registered invite_message caller_ip 5070 udp placed_result placed_state invite_runs

route-SameCall_example : SameCall (codes "c2") registered placed_state
unfolding get_in str_eq
route-SameCall_example =
    route-SameCall registered placed_state invite_message caller_ip 5070 udp placed_result
      (codes "c2") (λ e. false≢true ((str_eq_iff (codes "c2") (codes "c1")).1 e)) route_runs

abbrev register_message : SipMessage
register_message = record {
  start_line = codes "REGISTER sip:b.com SIP/2.0";
  headers =
      caller_via
      ∷ header (codes "From") (codes "<sip:bob@b.com>")
      ∷ header (codes "To") (codes "<sip:bob@b.com>")
      ∷ header (codes "Call-ID") (codes "r1")
      ∷ header (codes "CSeq") (codes "1 REGISTER")
      ∷ header (codes "Contact") bob_contact
      ∷ header (codes "Content-Length") (codes "0")
      ∷ [];
  body = [];
}

-- What the router answers to the REGISTER of bob.
abbrev register_result : RoutingResult
register_result = (handle_register new_router register_message udp).0

abbrev after_register : SipRouter
after_register = (handle_register new_router register_message udp).1

register_runs :
    route new_router register_message (codes "10.0.0.2") 5080 udp
    ≡ ok (register_result, after_register)
unfolding route str_eq get_method is_request is_response starts_with find
register_runs = refl

register_test : after_register.table ≡ (bob, bob_entry) ∷ []
unfolding handle_register has_required_register_headers has_in get_in str_eq
    Registration.extract_sip_identity Registration.handle Registration.register_user find find_from
    starts_with insert increment
register_test = refl

call_runs :
    route after_register invite_message caller_ip 5070 udp
    ≡ ok
        ((placed_result, record placed_state { metrics = inc_active_calls after_register.metrics }))
unfolding handle_register has_required_register_headers has_required_invite_headers has_in get_in
    str_eq Registration.extract_sip_identity Registration.handle Registration.register_user find
    find_from starts_with insert increment route handle_invite extract_sip_identity lookup erase
    invite_contact start_call create_call store_call_context address_of stoi to_u16 new_context
    store_headers get_contact with_session on_request apply_event handle_event get_method is_request
    is_response forward_invite build_proxy_via to_string
call_runs = refl

Reaches-InSync_example :
    InSync (record placed_state { metrics = inc_active_calls after_register.metrics })
Reaches-InSync_example = Reaches-InSync (
    routed invite_message caller_ip 5070 udp
      (routed register_message (codes "10.0.0.2") 5080 udp (started 5060 5060) register_runs)
      call_runs)

strip-forward_example :
    (strip_proxy_via (forward_within registered ack_message context).message ≡ ack_message)
    × (strip_proxy_via (forward_invite registered ack_message bob bob_entry).message ≡ ack_message)
strip-forward_example = strip-forward registered ack_message context bob bob_entry

abbrev bye_answer : SipMessage
bye_answer = answer (codes "SIP/2.0 200 OK") (codes "2 BYE")

-- The context of the call is found for every message of the tests.
context_found :
    (state : CallState) → lookup (in_call state).call_contexts (codes "c1") ≡ some context
unfolding lookup str_eq
context_found state = refl

id_of_answer : (status cseq : Bytes) → call_id_of (answer status cseq) ≡ codes "c1"
unfolding get_in str_eq
id_of_answer status cseq = refl

session_found :
    (state : CallState) → lookup (in_call state).registry (codes "c1") ≡ some (session_in state)
unfolding lookup str_eq
session_found state = refl

bye-answers : answers (strip_proxy_via bye_answer) 200 (codes "BYE") ≡ true
unfolding strip_in get_status_code starts_with stoi get_in str_eq find
bye-answers = refl

abbrev decline : SipMessage
decline = answer (codes "SIP/2.0 603 Decline") (codes "1 INVITE")

decline-answers : answers (strip_proxy_via decline) 603 (codes "INVITE") ≡ true
unfolding strip_in get_status_code starts_with stoi get_in str_eq find
decline-answers = refl

decline_keeps_call_example :
    lookup (handle_response (in_call ringing) decline).1.call_contexts (codes "c1") ≡ some context
unfolding get_in str_eq
decline_keeps_call_example =
    (decline_keeps_call (in_call ringing) decline context (context_found ringing) decline-answers).1

late_ack_loses_answer_example :
    (handle_ack (in_call terminated) ack_message).1.metrics ≡ registered.metrics
unfolding get_in str_eq
late_ack_loses_answer_example =
    (late_ack_loses_answer (in_call terminated) ack_message bye_answer context
      (session_in terminated) refl (context_found terminated) (session_found terminated) refl).0

-- A second INVITE of the call is answered with 400.
again_runs :
    handle_invite (in_call trying) invite_message caller_ip 5070 udp
    ≡ ok (respond bad_request invite_message bob, in_call trying)
unfolding handle_invite has_required_invite_headers has_in get_in str_eq extract_sip_identity find
    find_from starts_with lookup invite_contact start_call create_call get_contact
again_runs = refl

-- The same answer with the Via of the caller left in place, as RFC 3261 asks.
abbrev full_answer : SipMessage
full_answer = message (codes "SIP/2.0 180 Ringing") (proxy_via ∷ caller_via ∷ []) (codes "1 INVITE")

full_response_to_callee_example :
    GoesToCallee context (handle_response (in_call trying) full_answer).0
unfolding get_in str_eq find to_string
full_response_to_callee_example =
    full_response_to_callee (in_call trying) full_answer context proxy_via.value caller_via.value _
      (context_found trying) refl refl refl refl refl
