-- ===== src/Tests/WholeCalls.antt =====
-- A whole call between alice and bob through the router.
use minimal_sip_proxy_sip_cl.Base.{
  refl, false≢true, inl, inr, [], ◌∷◌, arith, Bytes, codes, str_eq, str_eq_iff, starts_with, find,
  find_from, stoi, to_u16, lookup, insert, erase, to_string, List, Result, ok, err, ◌≡◌,
}
use minimal_sip_proxy_sip_cl.Sip.Message.{
  udp, header, SipMessage, get_in, has_in, get_method, get_status_code, is_request, is_response,
}
use minimal_sip_proxy_sip_cl.Proxy.Router.Helpers.{
  SipRouter, RoutingResult, build_proxy_via, has_required_invite_headers, extract_sip_identity,
  strip_in,
}
use minimal_sip_proxy_sip_cl.Proxy.Metrics.{increment}
use minimal_sip_proxy_sip_cl.Proxy.Call.{
  create_call, with_session, on_request, apply_event, handle_event,
}
use minimal_sip_proxy_sip_cl.Proxy.Registration.{get_contact}
use minimal_sip_proxy_sip_cl.Proxy.Router.Route.{
  route, handle_invite, invite_contact, start_call, forward_invite,
}
use minimal_sip_proxy_sip_cl.Proxy.Router.Frame.{SameCall}
use minimal_sip_proxy_sip_cl.Proxy.Router.Interleaving.{results_of, calls_apart}
use minimal_sip_proxy_sip_cl.Proxy.Router.Context.{
  address_of, store_call_context, new_context, store_headers,
}
use minimal_sip_proxy_sip_cl.Proxy.Router.Placing.{CanPlace}
use minimal_sip_proxy_sip_cl.Proxy.Router.Conversation.{Arrival, serve, IsQuiet, IsRequest}
use minimal_sip_proxy_sip_cl.Proxy.Router.WholeCall.{NoTrace, placed_context, whole_call}
use minimal_sip_proxy_sip_cl.Tests.Data.{
  bob_entry, caller_ip, caller_via, message, invite_message, ack_message, answer, registered,
}

abbrev from_alice : SipMessage → Arrival
from_alice m = record { message = m; ip = caller_ip; port = 5070; transport = udp }

abbrev from_bob : Bytes → Bytes → Arrival
from_bob status cseq = record {
  message = answer status cseq;
  ip = codes "10.0.0.2";
  port = 5080;
  transport = udp;
}

abbrev bye_message : SipMessage
bye_message = message (codes "BYE sip:bob@b.com SIP/2.0") (caller_via ∷ []) (codes "2 BYE")

-- Alice may call bob.
alice_can_call : CanPlace registered invite_message udp bob_entry (codes "10.0.0.2", 5080)
unfolding has_required_invite_headers has_in get_in str_eq extract_sip_identity find find_from
    starts_with lookup address_of stoi to_u16
alice_can_call = record {
  complete = refl;
  caller_given = refl;
  callee_given = refl;
  distinct = λ e. false≢true ((str_eq_iff (codes "alice@a.com") (codes "bob@b.com")).1 e);
  registered = refl;
  same_transport = refl;
  fresh = refl;
  addressed = refl;
}

invite-IsRequest : IsRequest (codes "INVITE") (codes "c1") invite_message
unfolding get_in str_eq get_method is_request is_response starts_with find
invite-IsRequest = record { same_call = refl; no_response = refl; request = refl; named = refl }

ack-IsRequest : IsRequest (codes "ACK") (codes "c1") ack_message
unfolding get_in str_eq get_method is_request is_response starts_with find
ack-IsRequest = record { same_call = refl; no_response = refl; request = refl; named = refl }

bye-IsRequest : IsRequest (codes "BYE") (codes "c1") bye_message
unfolding get_in str_eq get_method is_request is_response starts_with find
bye-IsRequest = record { same_call = refl; no_response = refl; request = refl; named = refl }

ringing-IsQuiet : IsQuiet (codes "c1") (answer (codes "SIP/2.0 180 Ringing") (codes "1 INVITE"))
unfolding get_in str_eq is_response starts_with find strip_in get_status_code stoi
ringing-IsQuiet = record {
  same_call = refl;
  response = refl;
  no_decline = refl;
  no_goodbye = refl;
  no_busy = refl;
}

ok-IsQuiet : IsQuiet (codes "c1") (answer (codes "SIP/2.0 200 OK") (codes "1 INVITE"))
unfolding get_in str_eq is_response starts_with find strip_in get_status_code stoi
ok-IsQuiet = record {
  same_call = refl;
  response = refl;
  no_decline = refl;
  no_goodbye = refl;
  no_busy = refl;
}

whole_call_example :
    NoTrace
      (placed_context registered (from_alice invite_message) bob_entry (codes "10.0.0.2", 5080))
      (from_alice invite_message
        ∷ from_bob (codes "SIP/2.0 180 Ringing") (codes "1 INVITE")
        ∷ from_bob (codes "SIP/2.0 200 OK") (codes "1 INVITE")
        ∷ from_alice ack_message
        ∷ from_alice bye_message
        ∷ from_bob (codes "SIP/2.0 200 OK") (codes "2 BYE")
        ∷ [])
      registered
unfolding get_in str_eq is_response starts_with find strip_in get_status_code stoi lookup
whole_call_example =
    whole_call registered (from_alice invite_message) bob_entry (codes "10.0.0.2", 5080)
      alice_can_call invite-IsRequest
      (from_bob (codes "SIP/2.0 180 Ringing") (codes "1 INVITE")
        ∷ from_bob (codes "SIP/2.0 200 OK") (codes "1 INVITE")
        ∷ from_alice ack_message
        ∷ [])
      (from_alice bye_message ∷ []) (from_bob (codes "SIP/2.0 200 OK") (codes "2 BYE")) refl
      (omega arith) (inl ringing-IsQuiet, (inl ok-IsQuiet, (inr ack-IsRequest, tt)))
      (inr bye-IsRequest, tt) refl refl (inl refl)

-- Carol calls bob too.
abbrev other_invite : SipMessage
other_invite = record {
  start_line = codes "INVITE sip:bob@b.com SIP/2.0";
  headers =
      caller_via
      ∷ header (codes "From") (codes "<sip:carol@c.com>")
      ∷ header (codes "To") (codes "<sip:bob@b.com>")
      ∷ header (codes "Call-ID") (codes "c2")
      ∷ header (codes "CSeq") (codes "1 INVITE")
      ∷ header (codes "Content-Length") (codes "0")
      ∷ [];
  body = [];
}

abbrev mixed : List Arrival
mixed =
    from_alice invite_message
    ∷ record { message = other_invite; ip = codes "10.0.0.3"; port = 5090; transport = udp }
    ∷ from_bob (codes "SIP/2.0 180 Ringing") (codes "1 INVITE")
    ∷ []

abbrev or_none : Result (List RoutingResult × SipRouter) → List RoutingResult × SipRouter
or_none (ok x) = x
or_none (err e) = ([], registered)

abbrev mixed_run : List RoutingResult × SipRouter
mixed_run = or_none (serve mixed registered)

calls_apart_example :
    (q' : SipRouter) × (serve
        (from_alice invite_message ∷ from_bob (codes "SIP/2.0 180 Ringing") (codes "1 INVITE") ∷ [])
        registered
      ≡ ok (results_of (codes "c1") mixed mixed_run.0, q'))
    × SameCall (codes "c1") q' mixed_run.1
unfolding serve route handle_invite has_required_invite_headers has_in get_in str_eq
    extract_sip_identity find find_from starts_with lookup insert erase invite_contact start_call
    create_call store_call_context address_of stoi to_u16 new_context store_headers get_contact
    with_session on_request apply_event handle_event get_method is_request is_response
    forward_invite build_proxy_via to_string increment
calls_apart_example =
    calls_apart mixed registered mixed_run.1 mixed_run.0 (codes "c1") (refl, (refl, (refl, tt)))
      refl
