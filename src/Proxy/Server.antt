-- ===== src/Proxy/Server.antt =====
-- proxy/src/sip_proxy.cpp: what the proxy does with one packet. What it sends, and what its log
-- says of the headers, are values; the sockets, the thread pool and the other log lines are left
-- out. `err` is an exception that nothing catches: it ends the process.
pub mod Total
use mathlib.Core.Option
use minimal_sip_proxy_sip_cl.Base.{
  ℕ, ◌+◌, ◌-◌, Bool, true, false, not, ◌&&◌, Option, none, some, List, [], ◌∷◌, ◌++◌, Bytes, codes,
  is_empty, length, take, drop, find, find_from, after_pos, substr, str_eq, contains, ltb,
  if◌then◌else◌, Dict, lookup, Result, ok, err, ◌>>=◌, stoi, to_u16,
}
use minimal_sip_proxy_sip_cl.Sip.Message.{
  TransportType, udp, tcp, SipHeader, SipMessage, get_header, get_method, is_request, serialize,
}
use minimal_sip_proxy_sip_cl.Proxy.Parser.{parse}
use minimal_sip_proxy_sip_cl.Proxy.Metrics.{inc_messages_received, inc_messages_sent}
use minimal_sip_proxy_sip_cl.Proxy.Registration.{get_contact}
use minimal_sip_proxy_sip_cl.Proxy.Router.Helpers.{
  RoutingAction, respond_locally, forward_request, forward_response, ignore, RoutingResult,
  CallContext, SipRouter, new_router, set_proxy_ports,
}
use minimal_sip_proxy_sip_cl.Proxy.Router.Context.{get_call_context}
use minimal_sip_proxy_sip_cl.Proxy.Router.Response.{is_standard}
use minimal_sip_proxy_sip_cl.Proxy.Router.Route.{route}

-- common/include/common/types.hpp
pub record RawPacket : Type 0 where
  pub payload : Bytes
  pub ip : Bytes
  pub port : ℕ
  pub transport : TransportType

pub record SipProxy : Type 0 where
  pub router : SipRouter
  pub running : Bool
  pub tcp_enabled : Bool

abbrev pub new_proxy : SipProxy
new_proxy = record { router = new_router; running = false; tcp_enabled = false }

-- The transports start with the proxy; their callbacks feed `handle_packet`.
abbrev pub start : SipProxy → ℕ → ℕ → SipProxy
start p udp_port tcp_port = record {
  router = set_proxy_ports p.router udp_port (if ltb 0 tcp_port then tcp_port else udp_port);
  running = true;
  tcp_enabled = if ltb 0 tcp_port then true else p.tcp_enabled;
}

abbrev pub stop : SipProxy → SipProxy
stop p = if p.running then record p { running = false } else p

-- A datagram, or a message on a TCP connection, that was handed to a transport.
pub record Sent : Type 0 where
  pub payload : Bytes
  pub ip : Bytes
  pub port : ℕ
  pub over : TransportType

-- The transport that a message goes out over.
abbrev pub carrier : SipProxy → TransportType → TransportType
carrier p tcp = if p.tcp_enabled then tcp else udp
carrier p udp = udp

unfoldable pub send_response : SipProxy → Bytes → Bytes → ℕ → TransportType → List Sent × SipProxy
send_response p payload ip port t = (
  record { payload = payload; ip = ip; port = port; over = carrier p t } ∷ [],
  record p { router = record p.router { metrics = inc_messages_sent p.router.metrics } },
)

unfoldable pub log_custom_headers : List SipHeader → List Bytes
log_custom_headers [] = []
log_custom_headers (h ∷ hs) =
    (if is_standard h.name then [] else (h.name ++ codes ": " ++ h.value) ∷ [])
    ++ log_custom_headers hs

modified_line : SipHeader → Option Bytes → List Bytes
modified_line h none = []
modified_line h (some old) =
    if str_eq old h.value
    then []
    else (h.name ++ codes ": " ++ h.value ++ codes " (was: " ++ old ++ codes ")") ∷ []

unfoldable pub modified_headers : Dict Bytes → List SipHeader → List Bytes
unfolding modified_line
modified_headers stored [] = []
modified_headers stored (h ∷ hs) =
    (if not (is_standard h.name)
      then []
      else if str_eq h.name (codes "Via")
      then []
      else if str_eq h.name (codes "CSeq")
      then []
      else modified_line h (lookup stored h.name))
    ++ modified_headers stored hs

unfoldable pub log_modified_headers : SipMessage → CallContext → List Bytes
log_modified_headers m c =
    let is_caller = contains c.caller (get_header m (codes "From")) in
    let stored = if is_caller then c.caller_stored_headers else c.callee_stored_headers in
    if not is_caller && is_empty stored then [] else modified_headers stored m.headers

log_call_headers : SipMessage → Option CallContext → List Bytes
log_call_headers m none = []
log_call_headers m (some c) = log_modified_headers m c

-- The identity behind `sip_pos`, up to `gt_pos` or the end.
invite_identity : Bytes → ℕ → Option ℕ → Bytes
invite_identity from sip_pos none = drop (sip_pos + 4) from
invite_identity from sip_pos (some gt_pos) = substr from (sip_pos + 4) (gt_pos - sip_pos - 4)

changed_contact : Bytes → Option Bytes → List Bytes
changed_contact contact none = []
changed_contact contact (some old) =
    if str_eq old contact
    then []
    else (codes "Contact: " ++ contact ++ codes " (was: " ++ old ++ codes ")") ∷ []

-- The check of the Contact of an INVITE against the registered one.
unfoldable pub log_invite_contact : SipRouter → SipMessage → List Bytes
unfolding invite_identity changed_contact
log_invite_contact r m =
    let from = get_header m (codes "From") in
    let contact = get_header m (codes "Contact") in
    let sip_pos = find (codes "sip:") from in
    if is_request m && str_eq (get_method m) (codes "INVITE")
    then elim sip_pos [
      | none ↦ []
      | some i ↦
          if is_empty contact
          then []
          else changed_contact contact
              (get_contact r.table (invite_identity from i (find_from (codes ">") from (some i))))
    ]
    else []

-- contact.substr(pos_at + 1, pos_colon - pos_at - 1), where npos + 1 is 0 and a count of npos or
-- about that is the rest
unfoldable pub contact_ip : Bytes → Option ℕ → Option ℕ → Bytes
contact_ip c at none = drop (after_pos at) c
contact_ip c at (some colon) = substr c (after_pos at) (colon - after_pos at)

-- Sends to the address inside a contact.
unfoldable pub send_to_contact :
    SipProxy → Bytes → Bytes → TransportType → Result (List Sent × SipProxy)
send_to_contact p payload contact t = do
  let at = find (codes "@") contact
  let colon = find_from (codes ":") contact at
  port ← stoi (drop (after_pos colon) contact)
  ok (send_response p payload (contact_ip contact at colon) (to_u16 port) t)

unfoldable pub send_request :
    SipProxy → RoutingResult → Option Bytes → Result (List Sent × SipProxy)
send_request p result (some contact) =
    send_to_contact p (serialize result.message) contact result.callee_transport
send_request p result none =
    ok (send_response p (serialize result.message) result.ip result.port result.callee_transport)

-- The switch on the action.
unfoldable pub deliver :
    SipProxy → RawPacket → RoutingResult → RoutingAction → Result (List Sent × SipProxy)
deliver p pkt result respond_locally =
    ok (send_response p (serialize result.response) pkt.ip pkt.port pkt.transport)
deliver p pkt result forward_request = send_request p result result.contact
deliver p pkt result forward_response =
    ok (send_response p (serialize result.message) result.ip result.port pkt.transport)
deliver p pkt result ignore = ok ([], p)

-- What the log says of the headers of a message.
unfoldable pub header_log : SipRouter → SipMessage → List Bytes
unfolding log_call_headers
header_log r m =
    log_custom_headers m.headers
    ++ log_call_headers m (get_call_context r (get_header m (codes "Call-ID")))
    ++ log_invite_contact r m

unfoldable pub handle_packet : SipProxy → RawPacket → Result (List Sent × SipProxy)
handle_packet p pkt = do
  let m = parse pkt.payload
  let received = record p.router { metrics = inc_messages_received p.router.metrics }
  routed ← route received m pkt.ip pkt.port pkt.transport
  deliver (record p { router = routed.1 }) pkt routed.0 routed.0.action
