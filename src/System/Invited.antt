-- ===== src/System/Invited.antt =====
-- An INVITE that the client builds (client/src/sip_message_factory.cpp), at the proxy
-- (proxy/src/sip_parser.cpp, proxy/src/sip_router.cpp, proxy/src/sip_proxy.cpp).
use minimal_sip_proxy_sip_cl.Base.{
  ℕ, ◌+◌, ◌≡◌, ◌≢◌, refl, sym, ap, ◌∙◌, none, some, true, [], ◌∷◌, ◌++◌, arith, Bytes, codes,
  str_eq, starts_with, ok, lookup, find,
}
use mathlib.Core.Path.{subst}
use minimal_sip_proxy_sip_cl.Base.Search.{Lacks, Lacks-append}
use minimal_sip_proxy_sip_cl.Sip.Message.{
  TransportType, SipMessage, get_in, has_in, get_header, get_method, is_request, is_response,
  prepend_header, serialize,
}
use minimal_sip_proxy_sip_cl.Proxy.Parser.{parse, lines}
use minimal_sip_proxy_sip_cl.Proxy.Address.{
  Addresses, address_of_lem, extract_sip_identity-named, named,
}
use minimal_sip_proxy_sip_cl.Proxy.Registration.{ContactEntry}
use minimal_sip_proxy_sip_cl.Proxy.Router.Helpers.{
  SipRouter, has_required_invite_headers, extract_sip_identity, build_proxy_via, proxy_port,
}
use minimal_sip_proxy_sip_cl.Proxy.Router.Route.{route, handle_invite, forward_invite}
use minimal_sip_proxy_sip_cl.Proxy.Router.Invite.{call_id_of, caller_of, callee_of, Placed}
use minimal_sip_proxy_sip_cl.Proxy.Router.Placing.{CanPlace, invite_goes_out}
use minimal_sip_proxy_sip_cl.Proxy.Server.{
  RawPacket, SipProxy, send_response, send_request, deliver, handle_packet,
}
use minimal_sip_proxy_sip_cl.Proxy.Server.Total.{received, send_to_contact_lem}
use minimal_sip_proxy_sip_cl.Client.Factory.{
  SipMessageFactory, build_invite, message_for, base_headers, add_extra_headers, uri, bracketed,
}
use minimal_sip_proxy_sip_cl.Client.Factory.Words.{Fits, NonEmpty-append}
use minimal_sip_proxy_sip_cl.Client.Factory.RoundTrip.{parse-build}

-- user@domain
abbrev pub at : Bytes → Bytes → Bytes
at user domain = user ++ (b'@' ∷ domain)

identity_read :
    (user domain : Bytes)
    → Lacks b'>' user
    → Lacks b'>' domain
    → extract_sip_identity (bracketed (uri user domain)) ≡ at user domain
identity_read user domain h k =
    let same_text : bracketed (uri user domain) ≡ named (codes "<") (at user domain) [] = refl in
    ap extract_sip_identity same_text
    ∙ (extract_sip_identity-named (codes "<") (at user domain) [] (omega arith)
        (Lacks-append b'>' user _ h (omega arith, k))).0

module _ (f : SipMessageFactory) (from_user from_domain to_user to_domain call_id : Bytes) where
  -- The message of the INVITE.
  abbrev pub invite_of : SipMessage
  invite_of = message_for f (codes "INVITE") from_user from_domain to_user to_domain call_id [] []

  invite_complete : has_required_invite_headers invite_of ≡ true
  unfolding has_required_invite_headers message_for base_headers add_extra_headers lines has_in
      str_eq
  invite_complete = refl

  invite_from : get_header invite_of (codes "From") ≡ bracketed (uri from_user from_domain)
  unfolding message_for base_headers add_extra_headers lines get_in str_eq
  invite_from = refl

  invite_to : get_header invite_of (codes "To") ≡ bracketed (uri to_user to_domain)
  unfolding message_for base_headers add_extra_headers lines get_in str_eq
  invite_to = refl

  invite_call_id : call_id_of invite_of ≡ call_id
  unfolding message_for base_headers add_extra_headers lines get_in str_eq
  invite_call_id = refl

  routed_as_invite :
      (r : SipRouter) (ip : Bytes) (port : ℕ) (t : TransportType)
      → route r invite_of ip port t ≡ handle_invite r invite_of ip port t
  unfolding route get_method is_request is_response message_for find starts_with str_eq
  routed_as_invite r ip port t = refl

-- The message that goes to the callee.
abbrev pub forwarded : SipProxy → SipMessage → ContactEntry → SipMessage
forwarded p m entry =
    prepend_header m (codes "Via")
      (build_proxy_via entry.transport (proxy_port (received p) entry.transport))

invite_delivered :
    (p : SipProxy) (pkt : RawPacket) (m : SipMessage) (callee : Bytes) (entry : ContactEntry)
    (r' : SipRouter) (ip : Bytes) (port : ℕ)
    → parse pkt.payload ≡ m
    → route (received p) m pkt.ip pkt.port pkt.transport
      ≡ ok (forward_invite (received p) m callee entry, r')
    → Addresses entry.contact ip port
    → handle_packet p pkt
      ≡ ok (
          send_response
            (record p { router = r' })
            (serialize (forwarded p m entry))
            ip
            port
            entry.transport)
unfolding handle_packet deliver send_request forward_invite
invite_delivered p pkt m callee entry r' ip port e routed a =
    rw (e, routed)
      (send_to_contact_lem (record p { router = r' }) (serialize (forwarded p m entry))
        entry.contact ip port entry.transport a)

-- A call that a client places through the proxy, without extra headers, to another user who is
-- registered over the transport of the INVITE with a contact "…@ip:port…", under a Call-ID that no
-- call has: the proxy keeps a session and a context for it, and sends the INVITE of the client, with
-- the Via of the proxy on top, to the address and port of that contact, and nothing else. No part
-- of the INVITE has a line break, and no user or domain a '>'.
pub invite-reaches :
    (f : SipMessageFactory) (from_user from_domain to_user to_domain call_id : Bytes) (p : SipProxy)
    (from_ip : Bytes) (from_port : ℕ) (entry : ContactEntry) (ip : Bytes) (port : ℕ)
    → Fits f (codes "INVITE") from_user from_domain to_user to_domain call_id
    → Lacks b'>' from_user × Lacks b'>' from_domain
    → Lacks b'>' to_user × Lacks b'>' to_domain
    → at from_user from_domain ≢ at to_user to_domain
    → lookup p.router.table (at to_user to_domain) ≡ some entry
    → Addresses entry.contact ip port
    → lookup p.router.registry call_id ≡ none
    → let m = invite_of f from_user from_domain to_user to_domain call_id in
      let callee = at to_user to_domain in
      let result = forward_invite (received p) m callee entry in
      (text : Bytes) × (r' : SipRouter) × (build_invite f from_user from_domain to_user to_domain
          call_id []
        ≡ ok (text, record f { cseq = f.cseq + 1 }))
      × Placed (received p) m from_ip from_port entry.transport result r'
      × (handle_packet p
            (record { payload = text; ip = from_ip; port = from_port; transport = entry.transport })
          ≡ ok (
              send_response
                (record p { router = r' })
                (serialize (forwarded p m entry))
                ip
                port
                entry.transport))
invite-reaches f from_user from_domain to_user to_domain call_id p from_ip from_port entry ip port
      fits from to differ found addresses fresh =
    let m = invite_of f from_user from_domain to_user to_domain call_id in
    let t = entry.transport in
    let (text, built, parsed) =
      parse-build f (codes "INVITE") from_user from_domain to_user to_domain call_id [] [] fits
        (unfold lines in tt) (omega arith) in
    let caller : caller_of m ≡ at from_user from_domain =
      ap extract_sip_identity (invite_from f from_user from_domain to_user to_domain call_id)
      ∙ identity_read from_user from_domain from.0 from.1 in
    let callee : callee_of m ≡ at to_user to_domain =
      ap extract_sip_identity (invite_to f from_user from_domain to_user to_domain call_id)
      ∙ identity_read to_user to_domain to.0 to.1 in
    let can : CanPlace (received p) m t entry (ip, port) = record {
      complete = invite_complete f from_user from_domain to_user to_domain call_id;
      caller_given = rw caller (NonEmpty-append from_user (b'@' ∷ from_domain) refl);
      callee_given = rw callee (NonEmpty-append to_user (b'@' ∷ to_domain) refl);
      distinct = λ e. differ (sym caller ∙ e ∙ callee);
      registered = rw callee found;
      same_transport = refl;
      fresh = rw (invite_call_id f from_user from_domain to_user to_domain call_id) fresh;
      addressed = address_of_lem addresses;
    } in
    let (r', handled, placed) =
      invite_goes_out (received p) m from_ip from_port t entry (ip, port) can in
    let routed =
      routed_as_invite f from_user from_domain to_user to_domain call_id (received p) from_ip
        from_port t
      ∙ handled in
    let pkt : RawPacket = record {
      payload = text;
      ip = from_ip;
      port = from_port;
      transport = t;
    } in
    (
      text,
      r',
      built,
      subst
          (λ c.
            Placed (received p) m from_ip from_port t (forward_invite (received p) m c entry) r')
          callee placed,
      invite_delivered p pkt m (callee_of m) entry r' ip port parsed routed addresses,
    )
