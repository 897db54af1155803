-- ===== src/Proxy/Router/Helpers.antt =====
-- The types of proxy/include/proxy/sip_router.hpp and the static helpers of
-- proxy/src/sip_router.cpp. The metrics collector, one for the program, is a part of the state.
use minimal_sip_proxy_sip_cl.Base.{
  ℕ, ◌+◌, ◌-◌, Bool, ◌&&◌, Option, none, some, List, [], ◌∷◌, ◌++◌, Bytes, codes, is_empty, length,
  find, find_from, substr, contains, str_eq, to_string, if◌then◌else◌, Dict,
}
use minimal_sip_proxy_sip_cl.Sip.Message.{
  TransportType, udp, tcp, SipHeader, SipMessage, get_header, has_header, add_header, empty_message,
}
use minimal_sip_proxy_sip_cl.Proxy.Metrics.{MetricsCollector, no_metrics}
use minimal_sip_proxy_sip_cl.Proxy.Registration.{RegistrationTable}
use minimal_sip_proxy_sip_cl.Proxy.Call.{CallRegistry}

pub data RoutingAction : Type 0 where
  respond_locally forward_request forward_response ignore : RoutingAction

pub record RoutingResult : Type 0 where
  pub action : RoutingAction
  pub response : SipMessage
  pub message : SipMessage
  pub contact : Option Bytes
  pub ip : Bytes
  pub port : ℕ
  pub user : Bytes
  pub callee_transport : TransportType

-- The result that `return {}` gives.
abbrev pub no_result : RoutingResult
no_result = record {
  action = ignore;
  response = empty_message;
  message = empty_message;
  contact = none;
  ip = [];
  port = 0;
  user = [];
  callee_transport = udp;
}

pub record CallContext : Type 0 where
  pub caller : Bytes
  pub callee : Bytes
  pub caller_ip : Bytes
  pub caller_port : ℕ
  pub callee_contact : Bytes
  pub callee_ip : Bytes
  pub callee_port : ℕ
  pub caller_stored_headers : Dict Bytes
  pub callee_stored_headers : Dict Bytes
  pub caller_transport : TransportType
  pub callee_transport : TransportType

pub record SipRouter : Type 0 where
  pub table : RegistrationTable
  pub registry : CallRegistry
  pub call_contexts : Dict CallContext
  pub proxy_udp_port : ℕ
  pub proxy_tcp_port : ℕ
  pub metrics : MetricsCollector

abbrev pub new_router : SipRouter
new_router = record {
  table = [];
  registry = [];
  call_contexts = [];
  proxy_udp_port = 5060;
  proxy_tcp_port = 5060;
  metrics = no_metrics;
}

abbrev pub set_proxy_ports : SipRouter → ℕ → ℕ → SipRouter
set_proxy_ports r udp_port tcp_port = record r {
  proxy_udp_port = udp_port;
  proxy_tcp_port = tcp_port;
}

abbrev pub transport_eq : TransportType → TransportType → Bool
transport_eq udp udp = Bool.true
transport_eq udp tcp = Bool.false
transport_eq tcp udp = Bool.false
transport_eq tcp tcp = Bool.true

-- The port of the proxy for a transport.
abbrev pub proxy_port : SipRouter → TransportType → ℕ
proxy_port r tcp = r.proxy_tcp_port
proxy_port r udp = r.proxy_udp_port

unfoldable pub has_required_register_headers : SipMessage → Bool
has_required_register_headers m =
    has_header m (codes "Via")
    && has_header m (codes "From")
    && has_header m (codes "To")
    && has_header m (codes "Call-ID")
    && has_header m (codes "CSeq")
    && has_header m (codes "Contact")
    && has_header m (codes "Content-Length")

unfoldable pub has_required_invite_headers : SipMessage → Bool
has_required_invite_headers m =
    has_header m (codes "Via")
    && has_header m (codes "From")
    && has_header m (codes "To")
    && has_header m (codes "Call-ID")
    && has_header m (codes "CSeq")
    && has_header m (codes "Content-Length")

end_or_size : Bytes → Option ℕ → ℕ
end_or_size s none = length s
end_or_size s (some i) = i

identity_at : Bytes → Option ℕ → Bytes
unfolding end_or_size
identity_at s none = []
identity_at s (some sip_pos) =
    let start = sip_pos + 4 in
    substr s start (end_or_size s (find_from (codes ">") s (some start)) - start)

unfoldable pub extract_sip_identity : Bytes → Bytes
unfolding identity_at
extract_sip_identity s = identity_at s (find (codes "sip:") s)

abbrev pub protocol_name : TransportType → Bytes
protocol_name tcp = codes "TCP"
protocol_name udp = codes "UDP"

abbrev pub proxy_host : Bytes
proxy_host = codes "proxy.local"

unfoldable pub build_proxy_via : TransportType → ℕ → Bytes
build_proxy_via t port =
    codes "SIP/2.0/" ++ protocol_name t ++ codes " proxy.local:" ++ to_string port

-- A header that the request has with a value is copied.
copy_header : SipMessage → Bytes → SipMessage → SipMessage
copy_header request name response =
    if is_empty (get_header request name)
    then response
    else add_header response name (get_header request name)

unfoldable pub make_error_response : Bytes → SipMessage → SipMessage
unfolding copy_header
make_error_response status request =
    let r0 = record empty_message { start_line = status } in
    let r1 = copy_header request (codes "Via") r0 in
    let r2 = copy_header request (codes "From") r1 in
    let r3 = copy_header request (codes "To") r2 in
    let r4 = copy_header request (codes "Call-ID") r3 in
    let r5 = copy_header request (codes "CSeq") r4 in
    add_header r5 (codes "Content-Length") (codes "0")

-- Drops the first Via that names the proxy.
unfoldable pub strip_in : List SipHeader → List SipHeader
strip_in [] = []
strip_in (h ∷ hs) =
    if str_eq h.name (codes "Via") && contains proxy_host h.value then hs else h ∷ strip_in hs

abbrev pub strip_proxy_via : SipMessage → SipMessage
strip_proxy_via m = record m { headers = strip_in m.headers }

-- A local response with this status.
abbrev pub respond : Bytes → SipMessage → Bytes → RoutingResult
respond status m user = record no_result {
  action = respond_locally;
  response = make_error_response status m;
  user = user;
}
