-- ===== src/Tests/Data.antt =====
-- Messages and states that the tests share: alice at 10.0.0.1:5070 calls bob at 10.0.0.2:5080.
use minimal_sip_proxy_sip_cl.Base.{refl, List, [], ◌∷◌, ◌++◌, Bytes, codes, arith, to_string}
use minimal_sip_proxy_sip_cl.Sip.Message.{udp, header, SipHeader, SipMessage}
use minimal_sip_proxy_sip_cl.Proxy.Address.{Addresses}
use minimal_sip_proxy_sip_cl.Proxy.Call.{CallSession, CallState}
use minimal_sip_proxy_sip_cl.Proxy.Registration.{ContactEntry}
use minimal_sip_proxy_sip_cl.Proxy.Router.Helpers.{SipRouter, new_router, CallContext}

abbrev pub alice : Bytes
alice = codes "alice@a.com"

abbrev pub bob : Bytes
bob = codes "bob@b.com"

abbrev pub bob_contact : Bytes
bob_contact = codes "<sip:bob@10.0.0.2:5080>"

abbrev pub bob_entry : ContactEntry
bob_entry = record { contact = bob_contact; transport = udp }

abbrev pub caller_ip : Bytes
caller_ip = codes "10.0.0.1"

-- A message of the call with these first lines.
abbrev pub message : Bytes → List SipHeader → Bytes → SipMessage
message start vias cseq = record {
  start_line = start;
  headers =
      vias
      ++ header (codes "From") (codes "<sip:alice@a.com>")
        ∷ header (codes "To") (codes "<sip:bob@b.com>")
        ∷ header (codes "Call-ID") (codes "c1")
        ∷ header (codes "CSeq") cseq
        ∷ header (codes "Content-Length") (codes "0")
        ∷ [];
  body = [];
}

abbrev pub caller_via : SipHeader
caller_via = header (codes "Via") (codes "SIP/2.0/UDP 10.0.0.1:5070")

abbrev pub proxy_via : SipHeader
proxy_via = header (codes "Via") (codes "SIP/2.0/UDP proxy.local:5060")

abbrev pub invite_message : SipMessage
invite_message = message (codes "INVITE sip:bob@b.com SIP/2.0") (caller_via ∷ []) (codes "1 INVITE")

abbrev pub ack_message : SipMessage
ack_message = message (codes "ACK sip:bob@b.com SIP/2.0") (caller_via ∷ []) (codes "1 ACK")

-- A response as the client of this repository builds it: with the first Via of the request.
abbrev pub answer : Bytes → Bytes → SipMessage
answer status cseq = message status (proxy_via ∷ []) cseq

-- The router that bob has registered with.
abbrev pub registered : SipRouter
registered = record new_router { table = (bob, bob_entry) ∷ [] }

abbrev pub session_in : CallState → CallSession
session_in state = record { call_id = codes "c1"; caller = alice; callee = bob; state = state }

abbrev pub context : CallContext
context = record {
  caller = alice;
  callee = bob;
  caller_ip = caller_ip;
  caller_port = 5070;
  callee_contact = bob_contact;
  callee_ip = codes "10.0.0.2";
  callee_port = 5080;
  caller_stored_headers = (codes "X-Room", codes "7") ∷ [];
  callee_stored_headers = [];
  caller_transport = udp;
  callee_transport = udp;
}

-- The router in a call whose session is in this state.
abbrev pub in_call : CallState → SipRouter
in_call state = record registered {
  registry = (codes "c1", session_in state) ∷ [];
  call_contexts = (codes "c1", context) ∷ [];
}

pub bob-Addresses : Addresses bob_contact (codes "10.0.0.2") 5080
unfolding to_string
bob-Addresses = record {
  before = codes "<sip:bob";
  after = codes ">";
  shape = refl;
  first_at = omega arith;
  plain_ip = omega arith;
  port_ends = refl;
  port_fits = omega arith;
}
