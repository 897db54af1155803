-- ===== src/Proxy/Router/Response.antt =====
-- handle_response of proxy/src/sip_router.cpp.
use minimal_sip_proxy_sip_cl.Base.{
  ℕ, Bool, ◌&&◌, not, Option, none, some, [], ◌∷◌, ◌++◌, Bytes, codes, is_empty, str_eq, contains,
  if◌then◌else◌, Dict, lookup, insert, is_int, to_string, ◌||◌,
}
use minimal_sip_proxy_sip_cl.Sip.Message.{
  SipMessage, get_header, has_header, add_header, get_status_code,
}
use minimal_sip_proxy_sip_cl.Proxy.Metrics.{dec_active_calls}
use minimal_sip_proxy_sip_cl.Proxy.Call.{with_session, on_response}
use minimal_sip_proxy_sip_cl.Proxy.Router.Helpers.{
  RoutingResult, no_result, forward_response, CallContext, SipRouter, strip_proxy_via,
}
use minimal_sip_proxy_sip_cl.Proxy.Router.Context.{get_call_context, store_headers, drop_call}

-- STANDARD_HEADERS.count(name) != 0
unfoldable pub is_standard : Bytes → Bool
is_standard n =
    str_eq n (codes "Via")
    || str_eq n (codes "From")
    || str_eq n (codes "To")
    || str_eq n (codes "Call-ID")
    || str_eq n (codes "CSeq")
    || str_eq n (codes "Contact")
    || str_eq n (codes "Content-Length")
    || str_eq n (codes "Content-Type")

-- One round of the loop over the stored headers.
unfoldable pub restore_header : SipMessage → Bytes × Bytes → SipMessage
restore_header m (n, v) =
    if not (is_standard n) && not (has_header m n) then add_header m n v else m

unfoldable pub restore_headers : SipMessage → Dict Bytes → SipMessage
restore_headers m [] = m
restore_headers m (h ∷ hs) = restore_headers (restore_header m h) hs

-- status_code == code && cseq.find(method) != npos
abbrev pub answers : SipMessage → ℕ → Bytes → Bool
answers m code method =
    is_int (get_status_code m) code && contains method (get_header m (codes "CSeq"))

abbrev pub session_response : SipRouter → SipMessage → Bytes → SipRouter
session_response r m id = record r { registry = with_session r.registry id (on_response m) }

-- The context with the headers of the answer stored.
abbrev pub with_answer : SipMessage → CallContext → CallContext
with_answer m c = record c {
  callee_stored_headers = store_headers c.callee_stored_headers m.headers;
}

unfoldable pub store_answer : SipRouter → SipMessage → Bytes → Option CallContext → SipRouter
store_answer r m id none = r
store_answer r m id (some c) = record r {
  call_contexts = insert r.call_contexts id (with_answer m c);
}

-- 200 to INVITE: the headers of the answer are stored.
unfoldable pub on_answer : SipRouter → SipMessage → Bytes → SipRouter
on_answer r m id =
    if answers m 200 (codes "INVITE") then store_answer r m id (lookup r.call_contexts id) else r

-- 603 to INVITE
unfoldable pub on_decline : SipRouter → SipMessage → SipRouter
on_decline r m =
    if answers m 603 (codes "INVITE") then record r { metrics = dec_active_calls r.metrics } else r

-- 200 to BYE, and 486 to INVITE
unfoldable pub on_end : SipRouter → SipMessage → Bytes → ℕ → Bytes → SipRouter
on_end r m id code method =
    if answers m code method
    then record (drop_call r id) { metrics = dec_active_calls r.metrics }
    else r

-- The state after the response, in the order of the source.
unfoldable pub after_response : SipRouter → SipMessage → Bytes → SipRouter
after_response r m id =
    let r1 = session_response r m id in
    let r2 = on_answer r1 m id in
    let r3 = on_decline r2 m in
    let r4 = on_end r3 m id 200 (codes "BYE") in on_end r4 m id 486 (codes "INVITE")

-- The topmost Via names the address of the caller.
unfoldable pub response_from_caller : SipMessage → CallContext → Bool
response_from_caller m c =
    not (is_empty c.caller_ip)
    && contains (c.caller_ip ++ codes ":" ++ to_string c.caller_port) (get_header m (codes "Via"))

unfoldable pub forward_back : SipMessage → CallContext → RoutingResult
forward_back m c =
    let from_caller = response_from_caller m c in
    let to_callee = from_caller && not (is_empty c.callee_ip) in
    record no_result {
      action = forward_response;
      message =
          restore_headers m
            (if from_caller then c.callee_stored_headers else c.caller_stored_headers);
      ip = if to_callee then c.callee_ip else c.caller_ip;
      port = if to_callee then c.callee_port else c.caller_port;
      user = if to_callee then c.callee else c.caller;
    }

unfoldable pub response_in : SipRouter → SipMessage → Option CallContext → RoutingResult × SipRouter
response_in r m none = (no_result, r)
response_in r m (some c) =
    let stripped = strip_proxy_via m in
    (forward_back stripped c, after_response r stripped (get_header m (codes "Call-ID")))

unfoldable pub handle_response : SipRouter → SipMessage → RoutingResult × SipRouter
unfolding response_in
handle_response r m = response_in r m (get_call_context r (get_header m (codes "Call-ID")))
