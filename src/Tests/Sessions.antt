-- ===== src/Tests/Sessions.antt =====
-- Tests of the packets and registrations of the client.
use minimal_sip_proxy_sip_cl.Base.{
  arith, ◌≡◌, ◌<◌, ◌≤◌, ◌++◌, refl, Option, none, some, true, [], ◌∷◌, List, Bytes, codes, length,
  Result, ok, err, out_of_range, find, starts_with, str_eq, ℕ, lookup, insert,
}
use minimal_sip_proxy_sip_cl.Base.Regex.{regex_search, to_upper}
use minimal_sip_proxy_sip_cl.Client.State.{registered, transition_to}
use minimal_sip_proxy_sip_cl.Client.Register.{handle_receive, is_register_reply, conclude}
use minimal_sip_proxy_sip_cl.Client.Register.Outcome.{holds}
use minimal_sip_proxy_sip_cl.Client.Factory.{build}
use minimal_sip_proxy_sip_cl.Client.Session.{
  SipClient, Notice, register_response, new_client, pending_headers, notify_call_state_changed,
}
use minimal_sip_proxy_sip_cl.Client.Invite.{extract_call_id, on_message, handle_incoming_invite}
use minimal_sip_proxy_sip_cl.Base.Decimal.{skip_space}
use minimal_sip_proxy_sip_cl.Client.Console.{
  Given, first_word, prompt, two_prompts, read_command, execute, one_round, run,
}
use minimal_sip_proxy_sip_cl.Client.Console.Ends.{run_ends}
use minimal_sip_proxy_sip_cl.Client.Invite.{handle_invite, split_local}
use minimal_sip_proxy_sip_cl.Client.App.{
  first_line, tell_error, tell_register, receive, on_packet_received, on_packets, register_attempts,
  do_register,
}
use minimal_sip_proxy_sip_cl.Client.App.Packets.{HasReply, replies_again}
use minimal_sip_proxy_sip_cl.Client.App.StatusLine.{error_callback, told_of}
use minimal_sip_proxy_sip_cl.Client.App.Registers.{do_register_lem}

abbrev fresh : SipClient
fresh = new_client (codes "10.0.0.9") 5060 7

abbrev register_ok : Bytes
register_ok = codes "SIP/2.0 200 OK\r\nCSeq: 1 REGISTER\r\n\r\n"

-- An INVITE comes in while the client waits for the answer to its REGISTER.
abbrev rounds : List (List Bytes)
rounds = [] ∷ (codes "INVITE sip:a SIP/2.0\r\nCall-ID: c2\r\n\r\n" ∷ register_ok ∷ []) ∷ []

abbrev or_fresh : Result SipClient → SipClient
or_fresh (ok c) = c
or_fresh (err e) = fresh

abbrev registered_client : SipClient
registered_client = or_fresh (do_register (codes "alice") (codes "a.com") [] rounds fresh)

do_register_example :
    (registered_client.state.state ≡ registered)
    × (registered_client.receiver ≡ holds (some register_ok))
unfolding do_register register_attempts on_packets on_packet_received on_message handle_receive
    is_register_reply tell_error tell_register notify_call_state_changed build
    handle_incoming_invite extract_call_id regex_search to_upper find starts_with transition_to
    conclude pending_headers lookup insert str_eq
do_register_example =
    do_register_lem (codes "alice") (codes "a.com") [] rounds fresh registered_client refl

abbrev watched : SipClient
watched = record fresh {
  register_response_cb = true;
  call_error_cb = true;
  receiver = holds (some register_ok);
}

abbrev ping : Bytes
ping = codes "OPTIONS sip:a SIP/2.0\r\n\r\n"

abbrev pinged : SipClient
pinged = or_fresh (on_packets (ping ∷ ping ∷ []) watched)

replies_again_example :
    let c' = or_fresh (on_packet_received ping pinged) in
    ((before : List Notice) × (c'.notices ≡ before ++ register_response true register_ok ∷ []))
    × (c'.receiver.register_response ≡ register_ok)
    × HasReply c'
unfolding on_packets on_packet_received on_message handle_receive is_register_reply tell_error
    tell_register notify_call_state_changed extract_call_id regex_search to_upper find starts_with
replies_again_example =
    replies_again (ping ∷ ping ∷ []) ping watched pinged (or_fresh (on_packet_received ping pinged))
      (record { callback = refl; received = refl }) refl refl

abbrev bare_line : Bytes
bare_line = codes "SIP/2.0 404\r\n\r\n"

error_callback_example :
    (length (first_line bare_line) < 12 → on_packet_received bare_line watched ≡ err out_of_range)
    × (12 ≤ length (first_line bare_line)
        → (code : ℕ) × (code < 1000)
          × (on_packet_received bare_line watched
              ≡ ok (
                  tell_register (
                    notify_call_state_changed
                      (told_of bare_line code (receive bare_line watched))))))
unfolding on_message extract_call_id regex_search to_upper find starts_with
error_callback_example = error_callback bare_line refl watched (receive bare_line watched) refl refl

-- The input of a session, with a blank line and an answer with a second word.
abbrev typed : List Bytes
typed =
    codes "register"
    ∷ codes "alice"
    ∷ codes " "
    ∷ codes "a.com or so"
    ∷ []
    ∷ codes "call"
    ∷ codes "bob"
    ∷ codes "b.com"
    ∷ codes "exit"
    ∷ codes "hangup"
    ∷ []

abbrev given : ℕ → Given
given i = record { arrived = []; random = 5; rounds = (register_ok ∷ []) ∷ [] }

abbrev or_out : Option (Result SipClient) → Result SipClient
or_out none = err out_of_range
or_out (some r) = r

console_test :
    (or_fresh (or_out (run 20 0 given typed fresh))).state.active_remote_uri ≡ codes "sip:bob@b.com"
unfolding run one_round first_word prompt two_prompts read_command execute handle_invite split_local
    skip_space do_register register_attempts on_packets on_packet_received on_message handle_receive
    is_register_reply tell_error tell_register notify_call_state_changed build extract_call_id
    regex_search to_upper find starts_with transition_to conclude pending_headers lookup insert
    str_eq
console_test = refl

run_ends_example :
    (result : Result SipClient) × (run 12 0 given typed fresh ≡ some result)
    × (run 20 0 given typed fresh ≡ some result)
run_ends_example = run_ends 12 20 0 given typed fresh (omega arith) (omega arith)
