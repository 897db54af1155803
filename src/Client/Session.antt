-- ===== src/Client/Session.antt =====
-- The state of client/include/client/sip_client.hpp. What is sent to the server, and what the
-- callbacks are called with, are lists; the sockets, the console and the log are left out.
use minimal_sip_proxy_sip_cl.Base.{
  ℕ, Bool, false, Option, none, some, List, [], ◌∷◌, ◌++◌, ℤ, Bytes, if◌then◌else◌, Dict, lookup,
  insert,
}
use minimal_sip_proxy_sip_cl.Client.State.{ClientStateManager, new_manager, state_name}
use minimal_sip_proxy_sip_cl.Client.Factory.{SipMessageFactory, new_factory}
use minimal_sip_proxy_sip_cl.Client.Register.{ReceiveHandler}

-- A call of one of the callbacks.
pub data Notice : Type 0 where
  call_state : Bytes → Bytes → Bytes → Notice
  call_error : ℤ → Bytes → Notice
  register_response : Bool → Bytes → Notice

pub record SipClient : Type 0 where
  pub factory : SipMessageFactory
  pub receiver : ReceiveHandler
  pub state : ClientStateManager
  pub pending_invite : Bytes
  pub pending_headers_map : Dict Bytes
  -- Which callbacks are set.
  pub call_state_cb : Bool
  pub call_error_cb : Bool
  pub register_response_cb : Bool
  pub incoming_call_cb : Bool
  pub sent : List Bytes
  pub notices : List Notice

-- The factory gets the address of the server.
abbrev pub new_client : Bytes → ℕ → ℕ → SipClient
new_client server_ip server_port random = record {
  factory = new_factory server_ip server_port random;
  receiver = record { register_response_received = false; register_response = [] };
  state = new_manager;
  pending_invite = [];
  pending_headers_map = [];
  call_state_cb = false;
  call_error_cb = false;
  register_response_cb = false;
  incoming_call_cb = false;
  sent = [];
  notices = [];
}

abbrev pub send_to_server : Bytes → SipClient → SipClient
send_to_server message c = record c { sent = c.sent ++ message ∷ [] }

abbrev pub set_pending_headers : Bytes → Bytes → SipClient → SipClient
set_pending_headers method headers c = record c {
  pending_headers_map = insert c.pending_headers_map method headers;
}

value_or_empty : Option Bytes → Bytes
value_or_empty none = []
value_or_empty (some v) = v

unfoldable pub pending_headers : SipClient → Bytes → Bytes
unfolding value_or_empty
pending_headers c method = value_or_empty (lookup c.pending_headers_map method)

unfoldable pub notify_call_state_changed : SipClient → SipClient
notify_call_state_changed c =
    if c.call_state_cb
    then record c {
      notices =
          c.notices
          ++ call_state (state_name c.state.state) c.state.active_call_id c.state.active_remote_uri
            ∷ [];
    }
    else c
