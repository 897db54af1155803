-- ===== src/Proxy/Router/Context.antt =====
-- The contexts of calls, and the forwarding of a request inside a call:
-- store_call_context, get_call_context, handle_ack and handle_bye of proxy/src/sip_router.cpp.
use minimal_sip_proxy_sip_cl.Base.{
  ℕ, ◌+◌, ◌-◌, Bool, Option, none, some, List, [], ◌∷◌, Bytes, codes, find, find_from, drop, substr,
  str_eq, if◌then◌else◌, Dict, lookup, insert, erase, Result, ok, ◌>>=◌, to_u16, stoi,
}
use minimal_sip_proxy_sip_cl.Sip.Message.{
  TransportType, SipHeader, SipMessage, get_header, prepend_header,
}
use minimal_sip_proxy_sip_cl.Proxy.Registration.{RegistrationTable, get_contact}
use minimal_sip_proxy_sip_cl.Proxy.Call.{
  CallSession, with_session, on_request, is_terminated, find_call, remove_call,
}
use minimal_sip_proxy_sip_cl.Proxy.Router.Helpers.{
  RoutingResult, no_result, forward_request, CallContext, SipRouter, proxy_port,
  extract_sip_identity, build_proxy_via, respond,
}

abbrev pub get_call_context : SipRouter → Bytes → Option CallContext
get_call_context r id = lookup r.call_contexts id

-- `for (const auto& header : headers) stored[header.name] = header.value;`
unfoldable pub store_headers : Dict Bytes → List SipHeader → Dict Bytes
store_headers stored [] = stored
store_headers stored (h ∷ hs) = store_headers (insert stored h.name h.value) hs

-- The address in a contact "…@ip:port…", where there is one.
unfoldable pub contact_address : Bytes → Option ℕ → Option ℕ → Result (Bytes × ℕ)
contact_address c none pos_colon = ok ([], 0)
contact_address c (some at) none = ok ([], 0)
contact_address c (some at) (some colon) = do
  port ← stoi (drop (colon + 1) c)
  ok (substr c (at + 1) (colon - at - 1), to_u16 port)

-- The address that is stored for a contact.
unfoldable pub address_of : Bytes → Result (Bytes × ℕ)
unfolding contact_address
address_of c = let at = find (codes "@") c in contact_address c at (find_from (codes ":") c at)

registered_header : Option Bytes → Dict Bytes
registered_header none = []
registered_header (some c) = (codes "Contact", c) ∷ []

unfoldable pub new_context :
    RegistrationTable
    → SipMessage
    → Bytes
    → Bytes
    → Bytes
    → Bytes
    → ℕ
    → TransportType
    → TransportType
    → Bytes × ℕ
    → CallContext
unfolding registered_header
new_context table m from to callee_contact ip port from_transport to_transport address = record {
  caller = from;
  callee = to;
  caller_ip = ip;
  caller_port = port;
  callee_contact = callee_contact;
  callee_ip = address.0;
  callee_port = address.1;
  caller_stored_headers = store_headers [] m.headers;
  callee_stored_headers = registered_header (get_contact table to);
  caller_transport = from_transport;
  callee_transport = to_transport;
}

unfoldable pub store_call_context :
    SipRouter
    → SipMessage
    → Bytes
    → Bytes
    → Bytes
    → Bytes
    → ℕ
    → TransportType
    → TransportType
    → Result SipRouter
store_call_context r m from to callee_contact ip port from_transport to_transport = do
  address ← address_of callee_contact
  let c = new_context r.table m from to callee_contact ip port from_transport to_transport address
  ok (record r { call_contexts = insert r.call_contexts (get_header m (codes "Call-ID")) c })

-- Where a request inside a call goes: to the other party, with a Via of the proxy on top.
unfoldable pub forward_within : SipRouter → SipMessage → CallContext → RoutingResult
forward_within r m c =
    if str_eq (extract_sip_identity (get_header m (codes "From"))) c.caller
    then record no_result {
      action = forward_request;
      message =
          prepend_header m (codes "Via")
            (build_proxy_via c.callee_transport (proxy_port r c.callee_transport));
      user = c.callee;
      contact = some c.callee_contact;
      callee_transport = c.callee_transport;
    }
    else record no_result {
      action = forward_request;
      message =
          prepend_header m (codes "Via")
            (build_proxy_via c.caller_transport (proxy_port r c.caller_transport));
      user = c.caller;
      ip = c.caller_ip;
      port = c.caller_port;
      callee_transport = c.caller_transport;
    }

abbrev pub bad_request : Bytes
bad_request = codes "SIP/2.0 400 Bad Request"

-- The session and the context of a call are dropped.
abbrev pub drop_call : SipRouter → Bytes → SipRouter
drop_call r id = record r {
  registry = remove_call r.registry id;
  call_contexts = erase r.call_contexts id;
}

-- `session->on_request(message)` on the session of the call, if there is one
abbrev pub session_request : SipRouter → SipMessage → Bytes → SipRouter
session_request r m id = record r { registry = with_session r.registry id (on_request m) }

-- `session_check && session_check->is_terminated()`
abbrev pub is_over_session : Option CallSession → Bool
is_over_session none = Bool.false
is_over_session (some s) = is_terminated s

abbrev pub is_over : SipRouter → Bytes → Bool
is_over r id = is_over_session (find_call r.registry id)

unfoldable pub ack_in : SipRouter → SipMessage → Option CallContext → RoutingResult × SipRouter
ack_in r m none = (respond bad_request m [], r)
ack_in r m (some c) =
    let id = get_header m (codes "Call-ID") in
    let r' = session_request r m id in
    (forward_within r m c, if is_over r' id then drop_call r' id else r')

unfoldable pub handle_ack : SipRouter → SipMessage → RoutingResult × SipRouter
unfolding ack_in
handle_ack r m = ack_in r m (get_call_context r (get_header m (codes "Call-ID")))

unfoldable pub bye_in : SipRouter → SipMessage → Option CallContext → RoutingResult × SipRouter
bye_in r m none = (respond bad_request m [], r)
bye_in r m (some c) = (forward_within r m c, session_request r m (get_header m (codes "Call-ID")))

unfoldable pub handle_bye : SipRouter → SipMessage → RoutingResult × SipRouter
unfolding bye_in
handle_bye r m = bye_in r m (get_call_context r (get_header m (codes "Call-ID")))
