-- ===== src/Proxy/Call.antt =====
-- The call state machine, the session of a call and the registry of sessions:
-- proxy/src/call_state.cpp, call_state_machine.cpp, call_session.cpp and call_registry.cpp.
-- A session is shared through a pointer that the registry holds; here the registry holds the
-- session itself, and a change to a session is a change of its entry.
pub mod Machine
pub mod Alive
use minimal_sip_proxy_sip_cl.Base.{
  Bool, Option, none, some, Bytes, codes, str_eq, contains, ◌&&◌, is_int, if◌then◌else◌, Dict,
  lookup, insert, erase, has_key,
}
use minimal_sip_proxy_sip_cl.Sip.Message.{SipMessage, get_header, get_method, get_status_code}

pub data CallState : Type 0 where
  init trying ringing established terminated : CallState

pub data CallEvent : Type 0 where
  invite trying_100 ringing_180 ok_200 ack bye : CallEvent

-- to_string(CallState)
unfoldable pub state_name : CallState → Bytes
state_name init = codes "INIT"
state_name trying = codes "TRYING"
state_name ringing = codes "RINGING"
state_name established = codes "ESTABLISHED"
state_name terminated = codes "TERMINATED"

unfoldable pub handle_event : CallState → CallEvent → CallState
handle_event init invite = trying
handle_event trying trying_100 = trying
handle_event trying ringing_180 = ringing
handle_event ringing ok_200 = established
handle_event established ack = established
handle_event established bye = terminated
handle_event s e = s

pub record CallSession : Type 0 where
  pub call_id : Bytes
  pub caller : Bytes
  pub callee : Bytes
  pub state : CallState

abbrev pub state_eq : CallState → CallState → Bool
state_eq init init = Bool.true
state_eq trying trying = Bool.true
state_eq ringing ringing = Bool.true
state_eq established established = Bool.true
state_eq terminated terminated = Bool.true
state_eq _ _ = Bool.false

-- The state is written only where it changes.
unfoldable pub apply_event : CallSession → CallEvent → CallSession
apply_event s e =
    let new_state = handle_event s.state e in
    if state_eq s.state new_state then s else record s { state = new_state }

unfoldable pub on_request : SipMessage → CallSession → CallSession
on_request m s =
    let method = get_method m in
    if str_eq method (codes "INVITE")
    then apply_event s invite
    else if str_eq method (codes "ACK")
    then apply_event s ack
    else if str_eq method (codes "BYE")
    then apply_event s bye
    else s

unfoldable pub on_response : SipMessage → CallSession → CallSession
on_response m s =
    let code = get_status_code m in
    if is_int code 100
    then apply_event s trying_100
    else if is_int code 180
    then apply_event s ringing_180
    else if is_int code 200 && contains (codes "INVITE") (get_header m (codes "CSeq"))
    then apply_event s ok_200
    else s

abbrev pub is_terminated_state : CallState → Bool
is_terminated_state terminated = Bool.true
is_terminated_state _ = Bool.false

abbrev pub is_terminated : CallSession → Bool
is_terminated s = is_terminated_state s.state

abbrev pub CallRegistry : Type 0
CallRegistry = Dict CallSession

-- `none` is the null pointer: a call with this Call-ID exists.
unfoldable pub create_call : CallRegistry → Bytes → Bytes → Bytes → Option CallRegistry
create_call calls id from to =
    if has_key calls id
    then none
    else some (insert calls id (record { call_id = id; caller = from; callee = to; state = init }))

abbrev pub find_call : CallRegistry → Bytes → Option CallSession
find_call calls id = lookup calls id

abbrev pub remove_call : CallRegistry → Bytes → CallRegistry
remove_call calls id = erase calls id

-- `auto session = find_call(id); if (session) session->f();`
unfoldable pub with_session : CallRegistry → Bytes → (CallSession → CallSession) → CallRegistry
with_session calls id f = elim (lookup calls id) [ none ↦ calls | some s ↦ insert calls id (f s) ]
