-- ===== src/Tests/Packets.antt =====
-- Tests of the proxy on packets, from the text that comes in to the messages that go out.
use minimal_sip_proxy_sip_cl.Base.{
  ◌≡◌, refl, some, List, [], ◌∷◌, Bytes, codes, ok, err, invalid_argument, find, find_from, insert,
  erase, to_u16, starts_with, str_eq, stoi, to_string, lookup, Result,
}
use minimal_sip_proxy_sip_cl.Sip.Message.{
  udp, is_request, is_response, has_in, get_in, get_method, get_header,
}
use minimal_sip_proxy_sip_cl.Proxy.Parser.{
  parse, lines, trim, trim_start, trim_end, chop_cr, parse_line, parse_lines, parse_start_line,
  parse_header_line, parse_body, get_content_length,
}
use minimal_sip_proxy_sip_cl.Proxy.Metrics.{increment}
use minimal_sip_proxy_sip_cl.Proxy.Call.{
  create_call, with_session, on_request, apply_event, handle_event,
}
use minimal_sip_proxy_sip_cl.Proxy.Registration.{get_contact}
use minimal_sip_proxy_sip_cl.Proxy.Router.Helpers.{
  SipRouter, RoutingResult, no_result, forward_request, has_required_invite_headers,
  extract_sip_identity, build_proxy_via,
}
use minimal_sip_proxy_sip_cl.Proxy.Router.Context.{
  store_call_context, address_of, new_context, store_headers,
}
use minimal_sip_proxy_sip_cl.Proxy.Router.Route.{
  route, handle_invite, invite_contact, start_call, forward_invite,
}
use minimal_sip_proxy_sip_cl.Proxy.Router.Sound.{HasAddress, IsSound}
use minimal_sip_proxy_sip_cl.Proxy.Server.{
  RawPacket, SipProxy, Sent, new_proxy, start, handle_packet, send_response, send_to_contact,
}
use minimal_sip_proxy_sip_cl.Proxy.Server.Total.{
  Delivered, handle_packet_total, send_to_contact_lem, portless_contact_throws, received,
}
use minimal_sip_proxy_sip_cl.Tests.Data.{bob, bob_contact, bob-Addresses, caller_ip}

abbrev register_text : Bytes
register_text =
    codes
      "REGISTER sip:b.com SIP/2.0\r\nVia: SIP/2.0/UDP 10.0.0.2:5080\r\nFrom: <sip:bob@b.com>\r\nTo: <sip:bob@b.com>\r\nCall-ID: r1\r\nCSeq: 1 REGISTER\r\nContact: <sip:bob@10.0.0.2:5080>\r\nContent-Length: 0\r\n\r\n"

abbrev register_packet : RawPacket
register_packet = record {
  payload = register_text;
  ip = codes "10.0.0.2";
  port = 5080;
  transport = udp;
}

abbrev proxy : SipProxy
proxy = start new_proxy 5060 0

proxy-IsSound : IsSound proxy.router
unfolding lookup
proxy-IsSound = record { registered = λ u e h. absurd (cc); called = λ k c h. absurd (cc) }

register_addressed : HasAddress (get_header (parse register_text) (codes "Contact"))
unfolding parse lines trim trim_start trim_end chop_cr parse_line parse_lines parse_start_line
    parse_header_line parse_body get_content_length find starts_with get_in str_eq stoi
register_addressed = record { ip = codes "10.0.0.2"; port = 5080; at = bob-Addresses }

handle_packet_total_example :
    (after : List Sent × SipProxy) × (result : RoutingResult) × (r' : SipRouter) × (handle_packet
        proxy register_packet
      ≡ ok after)
    × (route (received proxy) (parse register_text) (codes "10.0.0.2") 5080 udp ≡ ok (result, r'))
    × Delivered (record proxy { router = r' }) register_packet result after
    × IsSound after.1.router
handle_packet_total_example =
    handle_packet_total proxy register_packet proxy-IsSound (λ _. register_addressed)

send_to_contact_example :
    send_to_contact proxy (codes "x") bob_contact udp
    ≡ ok (send_response proxy (codes "x") (codes "10.0.0.2") 5080 udp)
send_to_contact_example =
    send_to_contact_lem proxy (codes "x") bob_contact (codes "10.0.0.2") 5080 udp bob-Addresses

-- The proxy with bob registered at a contact without a port.
abbrev portless_contact : Bytes
portless_contact = codes "<sip:bob@10.0.0.2>"

abbrev portless_proxy : SipProxy
portless_proxy = record proxy {
  router = record proxy.router {
    table = (bob, record { contact = portless_contact; transport = udp }) ∷ [];
  };
}

abbrev invite_packet : RawPacket
invite_packet = record {
  payload =
      codes
        "INVITE sip:bob@b.com SIP/2.0\r\nVia: SIP/2.0/UDP 10.0.0.1:5070\r\nFrom: <sip:alice@a.com>\r\nTo: <sip:bob@b.com>\r\nCall-ID: c1\r\nCSeq: 1 INVITE\r\nContent-Length: 0\r\n\r\n";
  ip = caller_ip;
  port = 5070;
  transport = udp;
}

-- What was routed, and `ignore` if the router threw.
abbrev decision : SipRouter → Result (RoutingResult × SipRouter) → RoutingResult × SipRouter
decision r (ok x) = x
decision r (err e) = (no_result, r)

abbrev portless_decision : RoutingResult × SipRouter
portless_decision =
    decision portless_proxy.router
      (route (received portless_proxy) (parse invite_packet.payload) caller_ip 5070 udp)

portless_runs :
    (route (received portless_proxy) (parse invite_packet.payload) caller_ip 5070 udp
      ≡ ok (portless_decision.0, portless_decision.1))
    × (portless_decision.0.action ≡ forward_request)
    × (portless_decision.0.contact ≡ some portless_contact)
unfolding parse lines trim trim_start trim_end chop_cr parse_line parse_lines parse_start_line
    parse_header_line parse_body get_content_length find find_from starts_with get_in str_eq stoi
    route get_method is_request is_response handle_invite has_required_invite_headers has_in
    extract_sip_identity lookup insert erase invite_contact start_call create_call
    store_call_context address_of to_u16 new_context store_headers get_contact with_session
    on_request apply_event handle_event forward_invite build_proxy_via to_string increment
portless_runs = (refl, refl, refl)

portless_contact_throws_example : handle_packet portless_proxy invite_packet ≡ err invalid_argument
unfolding find find_from
portless_contact_throws_example =
    portless_contact_throws portless_proxy invite_packet portless_decision.0 portless_decision.1
      (codes "sip:bob@10.0.0.2>") portless_runs.0 portless_runs.1 portless_runs.2 refl
