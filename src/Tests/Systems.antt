-- ===== src/Tests/Systems.antt =====
-- Tests of what the client builds, and of the client and the proxy together.
use minimal_sip_proxy_sip_cl.Base.{
  ap, ◌≡◌, refl, some, [], Bytes, codes, ok, arith, find, starts_with, str_eq, lookup, to_string,
  if◌then◌else◌,
}
use minimal_sip_proxy_sip_cl.Sip.Message.{SipMessage, serialize, udp}
use minimal_sip_proxy_sip_cl.Proxy.Parser.{parse, lines, chop_cr}
use minimal_sip_proxy_sip_cl.Proxy.Registration.{ok_status}
use minimal_sip_proxy_sip_cl.Proxy.Server.{SipProxy, send_to_contact, send_response}
use minimal_sip_proxy_sip_cl.Client.Factory.{
  SipMessageFactory, new_factory, new_call_id, unpadded, build, build_register, message_for,
  contact_of,
}
use minimal_sip_proxy_sip_cl.Client.Factory.Words.{Fits}
use minimal_sip_proxy_sip_cl.Client.Factory.RoundTrip.{AllExtraFit, parse-build}
use minimal_sip_proxy_sip_cl.Proxy.Router.Helpers.{SipRouter}
use minimal_sip_proxy_sip_cl.Proxy.Router.Route.{forward_invite}
use minimal_sip_proxy_sip_cl.Proxy.Router.Invite.{Placed}
use minimal_sip_proxy_sip_cl.Proxy.Server.{new_proxy, handle_packet}
use minimal_sip_proxy_sip_cl.Proxy.Server.Total.{received}
use minimal_sip_proxy_sip_cl.Client.Factory.{build_invite}
use minimal_sip_proxy_sip_cl.System.Invited.{invite_of, forwarded, invite-reaches}
use minimal_sip_proxy_sip_cl.Tests.Data
use minimal_sip_proxy_sip_cl.System.Registered.{register-reaches}

abbrev factory : SipMessageFactory
factory = new_factory (codes "10.0.0.9") 40000 77

register_Fits :
    Fits factory
      (codes "REGISTER")
      (codes "alice")
      (codes "a.com")
      (codes "alice")
      (codes "a.com")
      []
unfolding new_call_id to_string str_eq
register_Fits = record {
  protocol = omega arith;
  ip = omega arith;
  a_method = record { given = refl; line = omega arith; ends = refl };
  from = omega arith;
  to = omega arith;
  id = (record { given = refl; line = omega arith; ends = refl }, refl);
}

invite_Fits :
    Fits factory
      (codes "INVITE")
      (codes "alice")
      (codes "a.com")
      (codes "bob")
      (codes "b.com")
      (codes "c1")
unfolding new_call_id to_string str_eq
invite_Fits = record {
  protocol = omega arith;
  ip = omega arith;
  a_method = record { given = refl; line = omega arith; ends = refl };
  from = omega arith;
  to = omega arith;
  id = (record { given = refl; line = omega arith; ends = refl }, refl);
}

room_fits : AllExtraFit (lines (codes "X-Room: 7\r\n"))
unfolding lines chop_cr find starts_with unpadded str_eq
room_fits = (
  (
    record {
      name_given = refl;
      name_plain = omega arith;
      name_line = omega arith;
      name_starts = refl;
      name_ends = refl;
      value_line = omega arith;
      value_starts = refl;
      value_ends = refl;
    },
    refl,
  ),
  tt,
)

parse-build_example :
    (text : Bytes) × (build factory
        (codes "INVITE")
        (codes "alice")
        (codes "a.com")
        (codes "bob")
        (codes "b.com")
        (codes "c1")
        (codes "v=0")
        (codes "X-Room: 7\r\n")
      ≡ ok (text, record factory { cseq = 2 }))
    × (parse text
        ≡ message_for factory
            (codes "INVITE")
            (codes "alice")
            (codes "a.com")
            (codes "bob")
            (codes "b.com")
            (codes "c1")
            (codes "v=0")
            (codes "X-Room: 7\r\n"))
parse-build_example =
    parse-build factory (codes "INVITE") (codes "alice") (codes "a.com") (codes "bob")
      (codes "b.com") (codes "c1") (codes "v=0") (codes "X-Room: 7\r\n") invite_Fits room_fits
      (omega arith)

register-reaches_example :
    (text : Bytes) × (q : SipProxy) × (response : SipMessage) × (build_register factory
        (codes "alice")
        (codes "a.com")
        []
      ≡ ok (text, record factory { cseq = 2 }))
    × (handle_packet new_proxy
          (record { payload = text; ip = codes "10.0.0.9"; port = 40000; transport = udp })
        ≡ ok (send_response q (serialize response) (codes "10.0.0.9") 40000 udp))
    × (response.start_line ≡ ok_status)
    × ((k : Bytes)
        → lookup q.router.table k ≡ (
            if str_eq (codes "alice@a.com") k
            then some (record { contact = contact_of factory (codes "alice"); transport = udp })
            else lookup new_proxy.router.table k))
    × ((payload : Bytes)
        → send_to_contact q payload (contact_of factory (codes "alice")) udp
          ≡ ok (send_response q payload (codes "10.0.0.9") 40000 udp))
register-reaches_example =
    register-reaches factory (codes "alice") (codes "a.com") new_proxy (codes "10.0.0.9") 40000 udp
      register_Fits (omega arith) (omega arith) (omega arith) (omega arith) (omega arith)

abbrev bob_known : SipProxy
bob_known = record new_proxy { router = Data.registered }

invite-reaches_example :
    let m =
      invite_of factory
        (codes "alice")
        (codes "a.com")
        (codes "bob")
        (codes "b.com")
        (codes "c1") in
    let result = forward_invite (received bob_known) m Data.bob Data.bob_entry in
    (text : Bytes) × (r' : SipRouter) × (build_invite factory
        (codes "alice")
        (codes "a.com")
        (codes "bob")
        (codes "b.com")
        (codes "c1")
        []
      ≡ ok (text, record factory { cseq = 2 }))
    × Placed (received bob_known) m Data.caller_ip 5070 udp result r'
    × (handle_packet bob_known
          (record { payload = text; ip = Data.caller_ip; port = 5070; transport = udp })
        ≡ ok (
            send_response
              (record bob_known { router = r' })
              (serialize (forwarded bob_known m Data.bob_entry))
              (codes "10.0.0.2")
              5080
              udp))
unfolding lookup str_eq
invite-reaches_example =
    invite-reaches factory (codes "alice") (codes "a.com") (codes "bob") (codes "b.com")
      (codes "c1") bob_known Data.caller_ip 5070 Data.bob_entry (codes "10.0.0.2") 5080 invite_Fits
      (omega arith, omega arith) (omega arith, omega arith)
      (λ e. absurd (cc (ap (str_eq Data.alice) e))) refl Data.bob-Addresses refl
