-- ===== src/Tests/Windows.antt =====
-- Tests of the window, with strings that are their bytes, of the logger and of the sockets.
use minimal_sip_proxy_sip_cl.Base.{
  List, ◌≡◌, refl, true, [], ◌∷◌, ◌++◌, Bytes, codes, is_empty, length, take, drop, find,
  starts_with, str_eq, Result, ok, err, lookup,
}
use minimal_sip_proxy_sip_cl.Base.Regex.{regex_search, to_upper}
use minimal_sip_proxy_sip_cl.Client.State.{
  ClientStateManager, new_manager, ringing, registered, transition_to,
}
use minimal_sip_proxy_sip_cl.Client.Register.{handle_receive, is_register_reply}
use minimal_sip_proxy_sip_cl.Client.Session.{
  SipClient, register_response, new_client, pending_headers, notify_call_state_changed,
}
use minimal_sip_proxy_sip_cl.Client.Invite.{extract_call_id, on_message, handle_incoming_invite}
use minimal_sip_proxy_sip_cl.Client.App.{tell_error, tell_register, on_packet_received}
use minimal_sip_proxy_sip_cl.Ui.Qt.{Qt}
use minimal_sip_proxy_sip_cl.Ui.Window.{MainWindow, new_window, update_button_states}
use minimal_sip_proxy_sip_cl.Ui.Window.Slots.{on_register_response, on_call_state_changed}
use minimal_sip_proxy_sip_cl.Ui.App.{deliver, deliver_all}
use minimal_sip_proxy_sip_cl.Ui.Events.{
  Running, UiEvent, packet_in, queued_signal, call_click, answer_click, callee_edit, headers_toggle,
  next_signal, ui_step, ui_exec,
}
use minimal_sip_proxy_sip_cl.Ui.Consistent.{IsExclusive, ui_exec-IsExclusive}
use minimal_sip_proxy_sip_cl.Ui.Buttons.{IsFresh, packet-IsFresh}

-- Strings that are their bytes and have no spaces at their ends.
abbrev plain : Qt
plain = record {
  QString = Bytes;
  text = λ s. s;
  from_std_string = λ s. s;
  to_std_string = λ s. s;
  trimmed = λ s. s;
  is_empty = is_empty;
  size = length;
  index_of = λ s c. find (c ∷ []) s;
  left = λ s n. take n s;
  mid = λ s n. drop n s;
  append = λ s t. s ++ t;
  equal = str_eq;
  starts_with_icase = λ s t. starts_with t s;
  arg_int = λ s n. s;
  arg = λ s t. s ++ t;
}

abbrev client_in : ClientStateManager → SipClient
client_in m = record (new_client (codes "10.0.0.9") 5060 7) { state = m; call_state_cb = true }

abbrev idle : ClientStateManager
idle = record new_manager { state = registered; registered_user = codes "alice@a.com" }

-- The window of a registered client, with a callee.
abbrev window_in : ClientStateManager → MainWindow plain
window_in m =
    update_button_states plain m
      (record (new_window plain) { registered = true; callee = codes "bob@b.com" })

abbrev invite_text : Bytes
invite_text =
    codes
      "INVITE sip:alice@a.com SIP/2.0\r\nFrom: <sip:bob@b.com>\r\nCall-ID: c2\r\nCSeq: 1 INVITE\r\n\r\n"

abbrev or_idle : Result SipClient → SipClient
or_idle (ok c) = c
or_idle (err e) = client_in idle

-- The client that rings for the INVITE.
abbrev rung : SipClient
rung = or_idle (on_packet_received invite_text (client_in idle))

packet-IsFresh_example :
    IsFresh plain (deliver_all plain rung.notices rung (window_in idle)) rung.state
unfolding on_packet_received on_message handle_receive is_register_reply tell_error tell_register
    notify_call_state_changed handle_incoming_invite extract_call_id regex_search to_upper find
    starts_with transition_to pending_headers lookup str_eq
packet-IsFresh_example =
    packet-IsFresh plain invite_text (client_in idle) rung (window_in idle) refl refl

abbrev ringing_call : ClientStateManager
ringing_call = record idle {
  state = ringing;
  active_call_id = codes "c2";
  active_remote_uri = codes "sip:bob@b.com";
  is_incoming_call = true;
}

-- Opened after a registration whose reply is still on its way to the window, called and answered.
abbrev opened : SipClient
opened = record (client_in idle) { notices = register_response true [] ∷ [] }

abbrev uses : List (UiEvent plain)
uses =
    call_click 5
    ∷ queued_signal
    ∷ callee_edit (codes "bob@b.com")
    ∷ packet_in invite_text
    ∷ queued_signal
    ∷ answer_click
    ∷ headers_toggle
    ∷ []

abbrev or_new : Result (Running plain) → Running plain
or_new (ok s) = s
or_new (err e) = record { client = opened; window = new_window plain }

abbrev used : Running plain
used = or_new (ui_exec plain (record { client = opened; window = new_window plain }) uses)

used_test : used.window.answer_enabled ≡ true
unfolding ui_exec ui_step next_signal deliver on_register_response on_call_state_changed
    update_button_states on_packet_received on_message handle_receive is_register_reply tell_error
    tell_register notify_call_state_changed handle_incoming_invite extract_call_id regex_search
    to_upper find starts_with transition_to pending_headers lookup str_eq
used_test = refl

ui_exec-IsExclusive_example : IsExclusive plain used.window
unfolding ui_exec ui_step next_signal deliver on_register_response on_call_state_changed
    update_button_states on_packet_received on_message handle_receive is_register_reply tell_error
    tell_register notify_call_state_changed handle_incoming_invite extract_call_id regex_search
    to_upper find starts_with transition_to pending_headers lookup str_eq
ui_exec-IsExclusive_example = ui_exec-IsExclusive plain opened uses used refl
