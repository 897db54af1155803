-- ===== src/Client/App.antt =====
-- The operations of client/src/sip_client.cpp, and handle_register of
-- client/src/sip_register_handler.cpp with the packets that come in while it waits, each handled as
-- it comes. The packets are given, as one list for each attempt.
pub mod Packets
pub mod States
pub mod StatusLine
pub mod Registers
use minimal_sip_proxy_sip_cl.Base.{
  ℕ, zero, suc, ◌+◌, Bool, true, false, ◌&&◌, Option, none, some, List, [], ◌∷◌, ◌++◌, Bytes, codes,
  contains, length, leb, take, drop, find, starts_with, stoi, if◌then◌else◌, Result, ok, err, ◌>>=◌,
  out_of_range, runtime_error,
}
use minimal_sip_proxy_sip_cl.Sip.Message.{crlf}
use minimal_sip_proxy_sip_cl.Client.State.{ClientStateManager, on_registering}
use minimal_sip_proxy_sip_cl.Client.Register.{
  ReceiveHandler, handle_receive, reset, conclude, max_attempts, first_round, later_rounds,
}
use minimal_sip_proxy_sip_cl.Client.Factory.{build_register, set_local_port, set_transport_protocol}
use minimal_sip_proxy_sip_cl.Client.Session.{
  SipClient, call_error, register_response, send_to_server, set_pending_headers, pending_headers,
  notify_call_state_changed,
}
use minimal_sip_proxy_sip_cl.Client.Invite.{
  on_message, handle_invite, handle_bye, handle_answer, handle_reject, with_state,
}

-- s.substr(0, i)
line_before : Bytes → Option ℕ → Bytes
line_before s none = s
line_before s (some i) = take i s

unfoldable pub first_line : Bytes → Bytes
unfolding line_before
first_line text = line_before text (find crlf text)

-- s.substr(start), which throws where start is past the end
unfoldable pub tail_at : Bytes → ℕ → Result Bytes
tail_at s start = if leb start (length s) then ok (drop start s) else err out_of_range

-- The call of the error callback, for a response 4xx.
unfoldable pub tell_error : Bytes → SipClient → Result SipClient
tell_error text c =
    let told = do
      digits ← tail_at (first_line text) 8
      code ← stoi (take 3 digits)
      reason ← tail_at (first_line text) 12
      ok (record c { notices = c.notices ++ call_error code reason ∷ [] })
    in if c.call_error_cb && starts_with (codes "SIP/2.0 4") text then told else ok c

-- The call of the callback for the reply to a REGISTER.
unfoldable pub tell_register : SipClient → SipClient
tell_register c =
    let response = c.receiver.register_response in
    if c.register_response_cb && c.receiver.register_response_received
    then record c {
      notices =
          c.notices ++ register_response (contains (codes "SIP/2.0 200 OK") response) response ∷ [];
    }
    else c

abbrev pub receive : Bytes → SipClient → SipClient
receive text c = record c { receiver = handle_receive text c.receiver }

unfoldable pub on_packet_received : Bytes → SipClient → Result SipClient
on_packet_received text c = do
  c1 ← on_message text (receive text c)
  c2 ← tell_error text c1
  ok (tell_register (notify_call_state_changed c2))

unfoldable pub on_packets : List Bytes → SipClient → Result SipClient
on_packets [] c = ok c
on_packets (text ∷ arrived) c = on_packet_received text c >>= on_packets arrived

-- The loop of `handle_register`, with the attempts that are left.
unfoldable pub register_attempts : ℕ → Bytes → List (List Bytes) → SipClient → Result SipClient
register_attempts zero message rounds c = ok c
register_attempts (suc n) message rounds c =
    on_packets (first_round rounds) (send_to_server message c) >>= λ (c' : SipClient).
    if c'.receiver.register_response_received
    then ok c'
    else register_attempts n message (later_rounds rounds) c'

-- `handle_register` up to its loop.
abbrev pub begin_register : SipClient → SipClient
begin_register c = record (with_state c on_registering) { receiver = reset c.receiver }

unfoldable pub do_register :
    Bytes → Bytes → Bytes → List (List Bytes) → SipClient → Result SipClient
do_register username domain extra rounds c = do
  let c1 = begin_register (set_pending_headers (codes "REGISTER") extra c)
  built ← build_register c1.factory username domain (pending_headers c1 (codes "REGISTER"))
  c2 ← register_attempts max_attempts built.0 rounds (record c1 { factory = built.1 })
  ok (with_state c2 (conclude username domain c2.receiver))

abbrev pub do_invite : Bytes → Bytes → Bytes → Bytes → ℕ → SipClient → Result SipClient
do_invite from_user from_domain to_user to_domain random c =
    handle_invite from_user from_domain to_user to_domain random c

abbrev pub do_bye : Bytes → SipClient → Result SipClient
do_bye extra c = handle_bye (set_pending_headers (codes "BYE") extra c)

abbrev pub do_answer : SipClient → SipClient
do_answer c = handle_answer c

abbrev pub do_reject : SipClient → SipClient
do_reject c = handle_reject c

-- The port that the transport has got is given, and none if it cannot start.
unfoldable pub start_transport : Bool → Option ℕ → SipClient → Result SipClient
start_transport use_tcp none c = err runtime_error
start_transport true (some port) c =
    ok (record c { factory = set_local_port (set_transport_protocol c.factory (codes "TCP")) port })
start_transport false (some port) c = ok (record c { factory = set_local_port c.factory port })

abbrev pub set_register_response_callback : SipClient → SipClient
set_register_response_callback c = record c { register_response_cb = true }

abbrev pub set_call_state_callback : SipClient → SipClient
set_call_state_callback c = record c { call_state_cb = true }

abbrev pub set_call_error_callback : SipClient → SipClient
set_call_error_callback c = record c { call_error_cb = true }

-- Nothing calls this callback.
abbrev pub set_incoming_call_callback : SipClient → SipClient
set_incoming_call_callback c = record c { incoming_call_cb = true }
