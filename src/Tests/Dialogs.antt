-- ===== src/Tests/Dialogs.antt =====
-- Tests of the calls of the client.
use minimal_sip_proxy_sip_cl.Base.{
  ◌≡◌, ◌⊎◌, ◌<◌, ◌>>=◌, refl, false, [], ◌∷◌, Bytes, codes, Result, ok, err, pos, arith,
  out_of_range, ◌++◌, ◌^◌, ◌≤◌, to_string, find, starts_with, str_eq, stoi, ℕ, lookup,
}
use minimal_sip_proxy_sip_cl.Base.Decimal.{read_digits}
use minimal_sip_proxy_sip_cl.Base.Regex.{regex_search, to_upper}
use minimal_sip_proxy_sip_cl.Client.State.{
  ClientStateManager, calling, ringing, in_call, registered, new_manager, transition_to,
}
use minimal_sip_proxy_sip_cl.Client.Factory.{build, build_response}
use minimal_sip_proxy_sip_cl.Client.Session.{
  SipClient, new_client, pending_headers, notify_call_state_changed,
}
use minimal_sip_proxy_sip_cl.Client.Invite.{
  extract_call_id, extract_status_code, extract_cseq_method, on_message, handle_status,
  handle_200_ok_invite, handle_answer, handle_bye,
}
use minimal_sip_proxy_sip_cl.Client.Invite.Status.{extract_status_code_bounds}
use minimal_sip_proxy_sip_cl.Client.Invite.Reactions.{IsOwn}
use minimal_sip_proxy_sip_cl.Client.Invite.Calls.{on_message-in_call}
use minimal_sip_proxy_sip_cl.Client.Invite.Dispatch.{IsResponse}
use minimal_sip_proxy_sip_cl.Client.Invite.Dialogs.{invite_repeated, late_ringing, answer_after_bye}
use minimal_sip_proxy_sip_cl.Client.Factory.Cseq.{cseq_field}
use minimal_sip_proxy_sip_cl.Client.Invite.Errors.{handle_error_throws}

abbrev ringing_response : Bytes
ringing_response = codes "SIP/2.0 180 Ringing\r\nCall-ID: c1\r\nCSeq: 2 INVITE\r\n\r\n"

-- alice, in the call c1 with bob.
abbrev alice_in : ClientStateManager → SipClient
alice_in m = record (new_client (codes "10.0.0.9") 5060 7) { state = m }

abbrev up : ClientStateManager
up = record new_manager {
  state = in_call;
  registered_user = codes "alice@a.com";
  active_call_id = codes "c1";
  active_remote_uri = codes "sip:bob@b.com";
}

ringing_IsResponse : IsResponse ringing_response (alice_in up) 180
unfolding extract_call_id extract_status_code regex_search stoi read_digits to_upper starts_with
ringing_IsResponse = record {
  start = refl;
  own = record { same = refl; given = refl };
  status = refl;
}

extract_status_code_bounds_example :
    (n : ℕ) × (extract_status_code ringing_response ≡ ok (pos n)) × (n < 1000)
extract_status_code_bounds_example = extract_status_code_bounds ringing_response

late_ringing_example :
    (c' : SipClient) × (on_message ringing_response (alice_in up) ≡ ok c')
    × (c'.state.state ≡ ringing)
    × (c'.state.active_call_id ≡ codes "c1")
    × (handle_bye c' ≡ ok c')
late_ringing_example = late_ringing ringing_response (alice_in up) refl ringing_IsResponse

-- alice, who has no call.
abbrev free : ClientStateManager
free = record new_manager { state = registered; registered_user = codes "alice@a.com" }

abbrev invite_text : Bytes
invite_text =
    codes
      "INVITE sip:alice@a.com SIP/2.0\r\nVia: SIP/2.0/UDP h:5060\r\nFrom: <sip:bob@b.com>\r\nTo: <sip:alice@a.com>\r\nCall-ID: c2\r\nCSeq: 1 INVITE\r\n\r\n"

invite_repeated_example :
    (c' : SipClient) × ((on_message invite_text (alice_in free) >>= on_message invite_text) ≡ ok c')
    × (c'.sent
        ≡ build_response 100 (codes "Trying") invite_text []
          ∷ build_response 180 (codes "Ringing") invite_text []
          ∷ build_response 486 (codes "Busy Here") invite_text []
          ∷ [])
    × (c'.state.state ≡ ringing)
    × (c'.pending_invite ≡ invite_text)
unfolding extract_call_id regex_search to_upper starts_with pending_headers lookup
invite_repeated_example = invite_repeated invite_text (alice_in free) refl refl refl

-- alice rings for the call c2.
abbrev rung : SipClient
rung =
    record (alice_in (record free {
      state = ringing;
      active_call_id = codes "c2";
      active_remote_uri = codes "sip:bob@b.com";
    })) { pending_invite = invite_text }

abbrev bye_text : Bytes
bye_text = codes "BYE sip:alice@a.com SIP/2.0\r\nCall-ID: c2\r\nCSeq: 2 BYE\r\n\r\n"

answer_after_bye_example :
    (c' : SipClient) × (on_message bye_text rung ≡ ok c')
    × (c'.state.state ≡ registered)
    × ((handle_answer c').state.state ≡ in_call)
    × ((handle_answer c').state.active_call_id ≡ [])
unfolding extract_call_id regex_search to_upper starts_with
answer_after_bye_example = answer_after_bye bye_text rung refl refl refl refl

-- A busy response up to its CSeq, with the largest numbers that an unsigned int has.
abbrev busy_start : Bytes
busy_start = codes "SIP/2.0 486 Busy Here\r\nCall-ID: c1\r\n"

abbrev huge_cseq : Bytes
huge_cseq = busy_start ++ cseq_field (to_string 4294967295) (codes "\r\n\r\n")

huge_IsResponse : IsResponse huge_cseq (alice_in up) 486
unfolding extract_call_id extract_status_code regex_search stoi read_digits to_upper starts_with
    to_string
huge_IsResponse = record { start = refl; own = record { same = refl; given = refl }; status = refl }

handle_error_throws_example :
    ((2 ^ 31 ≤ 4294967295) × (on_message huge_cseq (alice_in up) ≡ err out_of_range))
    ⊎ ((4294967295 < 2 ^ 31) × (c' : SipClient) × (on_message huge_cseq (alice_in up) ≡ ok c'))
handle_error_throws_example =
    handle_error_throws busy_start (codes "\r\n\r\n") 4294967295 (alice_in up) 486
      (omega arith, omega arith) huge_IsResponse (omega arith)

-- alice calls, and bob answers.
abbrev calls : SipClient
calls = alice_in (record up { state = calling })

abbrev answer_text : Bytes
answer_text = codes "SIP/2.0 200 OK\r\nCall-ID: c1\r\nCSeq: 2 INVITE\r\n\r\n"

abbrev or_same : Result SipClient → SipClient
or_same (ok c) = c
or_same (err e) = calls

on_message-in_call_example :
    (calls.state.state ≡ in_call)
    ⊎ (IsOwn answer_text calls
        × (extract_status_code answer_text ≡ ok (pos 200))
        × (str_eq (extract_cseq_method answer_text) (codes "BYE") ≡ false))
unfolding on_message handle_status handle_200_ok_invite build transition_to extract_call_id
    extract_status_code extract_cseq_method regex_search stoi read_digits to_upper starts_with find
    notify_call_state_changed str_eq
on_message-in_call_example =
    on_message-in_call answer_text calls (or_same (on_message answer_text calls)) refl refl
