-- ===== src/System/Registered.antt =====
-- A REGISTER that the client builds (client/src/sip_message_factory.cpp), at the proxy
-- (proxy/src/sip_parser.cpp, sip_router.cpp, register_handler.cpp, sip_proxy.cpp).
use minimal_sip_proxy_sip_cl.Base.{
  ◌+◌, ◌^◌, ◌<◌, ◌≡◌, refl, ap, ◌∙◌, some, true, [], ◌∷◌, ◌++◌, arith, Bytes, codes, str_eq,
  starts_with, find, if◌then◌else◌, ok, lookup, ℕ,
}
use minimal_sip_proxy_sip_cl.Base.Search.{Lacks, Lacks-append}
use minimal_sip_proxy_sip_cl.Sip.Message.{
  TransportType, SipMessage, get_in, has_in, get_header, get_method, is_request, is_response,
  serialize,
}
use minimal_sip_proxy_sip_cl.Proxy.Parser.{parse, lines}
use minimal_sip_proxy_sip_cl.Proxy.Registration
use minimal_sip_proxy_sip_cl.Proxy.Registration.{handle, ok_status}
use minimal_sip_proxy_sip_cl.Proxy.Registration.Laws.{handle_lem, accepts}
use minimal_sip_proxy_sip_cl.Proxy.Router.Helpers.{SipRouter, has_required_register_headers}
use minimal_sip_proxy_sip_cl.Proxy.Router.Route.{route, handle_register}
use minimal_sip_proxy_sip_cl.Proxy.Address.{Addresses, extract_sip_identity-named, named}
use minimal_sip_proxy_sip_cl.Proxy.Server.{
  RawPacket, SipProxy, send_to_contact, send_response, deliver, handle_packet,
}
use minimal_sip_proxy_sip_cl.Proxy.Server.Total.{received, send_to_contact_lem}
use minimal_sip_proxy_sip_cl.Client.Factory.{
  SipMessageFactory, build_register, message_for, base_headers, add_extra_headers, contact_of, uri,
  bracketed,
}
use minimal_sip_proxy_sip_cl.Client.Factory.Words.{Fits, NonEmpty-append}
use minimal_sip_proxy_sip_cl.Client.Factory.RoundTrip.{parse-build}

module _ (f : SipMessageFactory) (user domain : Bytes) where
  abbrev register_message : SipMessage
  register_message = message_for f (codes "REGISTER") user domain user domain [] [] []

  register_from : get_header register_message (codes "From") ≡ bracketed (uri user domain)
  unfolding message_for base_headers add_extra_headers lines get_in str_eq
  register_from = refl

  register_contact : get_header register_message (codes "Contact") ≡ contact_of f user
  unfolding message_for base_headers add_extra_headers lines get_in str_eq
  register_contact = refl

  register_start : starts_with (codes "REGISTER") register_message.start_line ≡ true
  unfolding message_for starts_with
  register_start = refl

  register_complete : has_required_register_headers register_message ≡ true
  unfolding has_required_register_headers message_for base_headers add_extra_headers lines has_in
      str_eq
  register_complete = refl

  routed_as_register :
      (r : SipRouter) (ip : Bytes) (port : ℕ) (t : TransportType)
      → route r register_message ip port t ≡ ok (handle_register r register_message t)
  unfolding route get_method is_request is_response message_for find starts_with str_eq
  routed_as_register r ip port t = refl

  register_user_at :
      Lacks b'>' user
      → Lacks b'>' domain
      → Registration.extract_sip_identity (bracketed (uri user domain)) ≡ user ++ (b'@' ∷ domain)
  register_user_at h k =
      let same_text : bracketed (uri user domain) ≡ named (codes "<") (user ++ (b'@' ∷ domain)) [] =
        refl in
      ap Registration.extract_sip_identity (same_text)
      ∙ (extract_sip_identity-named (codes "<") (user ++ (b'@' ∷ domain)) [] (omega arith)
          (Lacks-append b'>' user _ h (omega arith, k))).1

contact-Addresses :
    (f : SipMessageFactory) (user : Bytes)
    → Lacks b'@' user
    → Lacks b':' f.local_ip
    → f.local_port < 2 ^ 16
    → Addresses (contact_of f user) f.local_ip f.local_port
contact-Addresses f user h k l = record {
  before = codes "<sip:" ++ user;
  after = codes ">";
  shape = refl;
  first_at = (omega arith, (omega arith, (omega arith, (omega arith, (omega arith, h)))));
  plain_ip = k;
  port_ends = refl;
  port_fits = l;
}

-- The result of the router for a REGISTER with all its headers, and its state.
register_delivered :
    (p : SipProxy) (pkt : RawPacket) (m : SipMessage)
    → parse pkt.payload ≡ m
    → route (received p) m pkt.ip pkt.port pkt.transport
      ≡ ok (handle_register (received p) m pkt.transport)
    → has_required_register_headers m ≡ true
    → let handled = handle p.router.table (received p).metrics m pkt.transport in
      let r = record (received p) { table = handled.1; metrics = handled.2 } in
      handle_packet p pkt
      ≡ ok (
          send_response
            (record p { router = r })
            (serialize handled.0)
            pkt.ip
            pkt.port
            pkt.transport)
unfolding handle_packet deliver handle_register
register_delivered p pkt m e routed complete = rw (e, routed, complete) refl

-- A user that a client registers through the proxy, without extra headers. The packet is handled:
-- the proxy sends a 200 to where it came from, and nothing else; it stores the contact and the
-- transport under user@domain and leaves every other user as it was; and it sends a request for
-- this contact to the address and port that the factory of the client has. No part has a line
-- break, the user no '@', user and domain no '>', the address no ':', and the port is below 2 ^ 16.
pub register-reaches :
    (f : SipMessageFactory) (user domain : Bytes) (p : SipProxy) (from_ip : Bytes) (from_port : ℕ)
    (t : TransportType)
    → Fits f (codes "REGISTER") user domain user domain []
    → Lacks b'>' user
    → Lacks b'@' user
    → Lacks b'>' domain
    → Lacks b':' f.local_ip
    → f.local_port < 2 ^ 16
    → (text : Bytes) × (q : SipProxy) × (response : SipMessage) × (build_register f user domain []
        ≡ ok (text, record f { cseq = f.cseq + 1 }))
      × (handle_packet p (record { payload = text; ip = from_ip; port = from_port; transport = t })
          ≡ ok (send_response q (serialize response) from_ip from_port t))
      × (response.start_line ≡ ok_status)
      × ((k : Bytes)
          → lookup q.router.table k ≡ (
              if str_eq (user ++ (b'@' ∷ domain)) k
              then some (record { contact = contact_of f user; transport = t })
              else lookup p.router.table k))
      × ((payload : Bytes)
          → send_to_contact q payload (contact_of f user) t
            ≡ ok (send_response q payload f.local_ip f.local_port t))
register-reaches f user domain p from_ip from_port t fits u a d ip port =
    let m = register_message f user domain in
    let (text, built, parsed) =
      parse-build f (codes "REGISTER") user domain user domain [] [] [] fits (unfold lines in tt)
        (omega arith) in
    let user_at = register_user_at f user domain u d in
    let accepted : accepts m ≡ true =
      rw
        (
          register_start f user domain,
          register_from f user domain,
          register_contact f user domain,
          user_at,
        )
        (rw (NonEmpty-append user (b'@' ∷ domain) refl) refl) in
    let metrics = (received p).metrics in
    let handled = handle p.router.table metrics m t in
    let q : SipProxy = record p {
      router = record (received p) { table = handled.1; metrics = handled.2 };
    } in
    let pkt : RawPacket = record {
      payload = text;
      ip = from_ip;
      port = from_port;
      transport = t;
    } in
    (
      text,
      q,
      handled.0,
      built,
      register_delivered p pkt m parsed
          (routed_as_register f user domain (received p) from_ip from_port t)
          (register_complete f user domain),
      (handle_lem p.router.table metrics m t []).1 ∙ rw accepted refl,
      λ k.
          (handle_lem p.router.table metrics m t k).0
          ∙ rw (accepted, register_from f user domain, register_contact f user domain, user_at)
              refl,
      λ payload.
          send_to_contact_lem q payload (contact_of f user) f.local_ip f.local_port t
            (contact-Addresses f user a ip port),
    )
