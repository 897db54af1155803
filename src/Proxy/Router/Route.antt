-- ===== src/Proxy/Router/Route.antt =====
-- route, handle_register and handle_invite of proxy/src/sip_router.cpp.
use minimal_sip_proxy_sip_cl.Base.{
  ℕ, not, ◌||◌, Option, none, some, [], Bytes, codes, is_empty, str_eq, if◌then◌else◌, Result, ok,
  ◌>>=◌,
}
use minimal_sip_proxy_sip_cl.Sip.Message.{
  TransportType, SipMessage, get_header, prepend_header, is_response, is_request, get_method,
}
use minimal_sip_proxy_sip_cl.Proxy.Metrics.{inc_active_calls}
use minimal_sip_proxy_sip_cl.Proxy.Registration.{ContactEntry, get_contact_entry, handle}
use minimal_sip_proxy_sip_cl.Proxy.Call.{CallRegistry, create_call}
use minimal_sip_proxy_sip_cl.Proxy.Router.Helpers.{
  RoutingResult, no_result, respond_locally, forward_request, SipRouter, transport_eq, proxy_port,
  has_required_register_headers, has_required_invite_headers, extract_sip_identity, build_proxy_via,
  respond,
}
use minimal_sip_proxy_sip_cl.Proxy.Router.Context.{
  store_call_context, session_request, handle_ack, handle_bye, bad_request,
}
use minimal_sip_proxy_sip_cl.Proxy.Router.Response.{handle_response}

unfoldable pub handle_register : SipRouter → SipMessage → TransportType → RoutingResult × SipRouter
handle_register r m t =
    let handled = handle r.table r.metrics m t in
    if has_required_register_headers m
    then (
      record no_result { action = respond_locally; response = handled.0 },
      record r { table = handled.1; metrics = handled.2 },
    )
    else (respond bad_request m [], r)

abbrev pub not_found : Bytes
not_found = codes "SIP/2.0 404 Not Found"

abbrev pub different_protocol : Bytes
different_protocol = codes "SIP/2.0 404 Different protocol"

-- The result that forwards an INVITE to the contact of the callee.
unfoldable pub forward_invite : SipRouter → SipMessage → Bytes → ContactEntry → RoutingResult
forward_invite r m callee entry = record no_result {
  action = forward_request;
  message =
      prepend_header m (codes "Via")
        (build_proxy_via entry.transport (proxy_port r entry.transport));
  contact = some entry.contact;
  user = callee;
  callee_transport = entry.transport;
}

-- From `create_call` on.
unfoldable pub start_call :
    SipRouter
    → SipMessage
    → Bytes
    → Bytes
    → ContactEntry
    → Bytes
    → ℕ
    → TransportType
    → Option CallRegistry
    → Result (RoutingResult × SipRouter)
start_call r m caller callee entry ip port t none = ok (respond bad_request m callee, r)
start_call r m caller callee entry ip port t (some calls) = do
  r' ←
      store_call_context (record r { registry = calls }) m caller callee entry.contact ip port t
        entry.transport
  let r'' = session_request r' m (get_header m (codes "Call-ID"))
  ok (forward_invite r m callee entry, record r'' { metrics = inc_active_calls r''.metrics })

-- From the look-up of the callee on.
unfoldable pub invite_contact :
    SipRouter
    → SipMessage
    → Bytes
    → Bytes
    → Bytes
    → ℕ
    → TransportType
    → Option ContactEntry
    → Result (RoutingResult × SipRouter)
invite_contact r m caller callee ip port t none = ok (respond not_found m callee, r)
invite_contact r m caller callee ip port t (some entry) =
    if transport_eq entry.transport t
    then start_call r m caller callee entry ip port t
        (create_call r.registry (get_header m (codes "Call-ID")) caller callee)
    else ok (respond different_protocol m callee, r)

unfoldable pub handle_invite :
    SipRouter → SipMessage → Bytes → ℕ → TransportType → Result (RoutingResult × SipRouter)
handle_invite r m ip port t =
    let caller = extract_sip_identity (get_header m (codes "From")) in
    let callee = extract_sip_identity (get_header m (codes "To")) in
    if not (has_required_invite_headers m)
    then ok (respond bad_request m [], r)
    else if is_empty caller || is_empty callee
    then ok (respond bad_request m [], r)
    else if str_eq caller callee
    then ok (respond bad_request m caller, r)
    else invite_contact r m caller callee ip port t (get_contact_entry r.table callee)

abbrev pub not_implemented : Bytes
not_implemented = codes "SIP/2.0 501 Not Implemented"

unfoldable pub route :
    SipRouter → SipMessage → Bytes → ℕ → TransportType → Result (RoutingResult × SipRouter)
route r m ip port t =
    let method = get_method m in
    if is_response m
    then ok (handle_response r m)
    else if not (is_request m)
    then ok (no_result, r)
    else if str_eq method (codes "REGISTER")
    then ok (handle_register r m t)
    else if str_eq method (codes "INVITE")
    then handle_invite r m ip port t
    else if str_eq method (codes "ACK")
    then ok (handle_ack r m)
    else if str_eq method (codes "BYE")
    then ok (handle_bye r m)
    else ok (respond not_implemented m [], r)
