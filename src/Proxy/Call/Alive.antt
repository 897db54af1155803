-- ===== src/Proxy/Call/Alive.antt =====
-- Which events and messages leave a call alive.
use minimal_sip_proxy_sip_cl.Base.{◌≡◌, refl, false, arith, codes, str_eq}
use minimal_sip_proxy_sip_cl.Sip.Message.{SipMessage, get_method}
use minimal_sip_proxy_sip_cl.Proxy.Call.{
  CallState, CallSession, CallEvent, ack, trying_100, ringing_180, ok_200, bye, handle_event,
  apply_event, is_terminated, is_terminated_state, on_request, on_response,
}
use minimal_sip_proxy_sip_cl.Proxy.Call.Machine.{event_eq, state-apply_event}

-- No event but BYE ends a call.
handle_event_alive :
    (st : CallState) (e : CallEvent)
    → event_eq e bye ≡ false
    → is_terminated_state st ≡ false
    → is_terminated_state (handle_event st e) ≡ false
unfolding handle_event
handle_event_alive st e gentle h = ground arith

apply_event_alive :
    (s : CallSession) (e : CallEvent)
    → event_eq e bye ≡ false
    → is_terminated s ≡ false
    → is_terminated (apply_event s e) ≡ false
apply_event_alive s e gentle h = rw (state-apply_event s e) (handle_event_alive s.state e gentle h)

pub on_response_alive :
    (m : SipMessage) (s : CallSession)
    → is_terminated s ≡ false
    → is_terminated (on_response m s) ≡ false
unfolding on_response
on_response_alive m s h = ground (
  arith,
  apply_event_alive s trying_100 refl h,
  apply_event_alive s ringing_180 refl h,
  apply_event_alive s ok_200 refl h,
)

pub ack_alive :
    (m : SipMessage) (s : CallSession)
    → get_method m ≡ codes "ACK"
    → is_terminated s ≡ false
    → is_terminated (on_request m s) ≡ false
unfolding on_request str_eq
ack_alive m s e h = rw e (apply_event_alive s ack refl h)
