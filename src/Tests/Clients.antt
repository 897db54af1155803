-- ===== src/Tests/Clients.antt =====
-- Tests of the client.
use minimal_sip_proxy_sip_cl.Base.{◌≡◌, refl, [], ◌∷◌, List, false, Bytes, codes}
use minimal_sip_proxy_sip_cl.Client.State.{
  in_call, new_manager, transition_to, Event, registering_event, register_success, calling_event,
  ringing_event, call_established, apply, apply_all,
}
use minimal_sip_proxy_sip_cl.Client.Register.{ReceiveHandler}

abbrev call_events : List Event
call_events =
    registering_event
    ∷ register_success (codes "alice") (codes "a.com")
    ∷ calling_event (codes "c1") (codes "bob@b.com")
    ∷ ringing_event
    ∷ ringing_event
    ∷ call_established
    ∷ []

in_call_test : (apply_all call_events new_manager).state ≡ in_call
unfolding apply_all apply transition_to
in_call_test = refl

abbrev no_answer : ReceiveHandler
no_answer = record { register_response_received = false; register_response = [] }

abbrev register_answer : Bytes
register_answer = codes "SIP/2.0 200 OK\r\nCSeq: 1 REGISTER\r\n\r\n"
