-- ===== src/Client/State.antt =====
-- client/src/sip_client_state_manager.cpp. What the manager logs is a part of its state.
pub mod Log
pub mod Outcomes
use minimal_sip_proxy_sip_cl.Base.{
  Bool, true, false, ◌||◌, List, [], ◌∷◌, ◌++◌, Bytes, codes, is_empty, if◌then◌else◌,
}

pub data State : Type 0 where
  idle registering registered calling ringing in_call failed : State

unfoldable pub state_name : State → Bytes
state_name idle = codes "Idle"
state_name registering = codes "Registering"
state_name registered = codes "Registered"
state_name calling = codes "Calling"
state_name ringing = codes "Ringing"
state_name in_call = codes "InCall"
state_name failed = codes "Failed"

abbrev pub state_eq : State → State → Bool
state_eq idle idle = true
state_eq registering registering = true
state_eq registered registered = true
state_eq calling calling = true
state_eq ringing ringing = true
state_eq in_call in_call = true
state_eq failed failed = true
state_eq _ _ = false

-- A line "TRANSITION from -> to" of the log, for a Call-ID.
pub record Transition : Type 0 where
  pub call_id : Bytes
  pub from : State
  pub to : State

pub record ClientStateManager : Type 0 where
  pub state : State
  pub registered_user : Bytes
  pub active_call_id : Bytes
  pub active_remote_uri : Bytes
  pub is_incoming_call : Bool
  pub logged : List Transition

abbrev pub new_manager : ClientStateManager
new_manager = record {
  state = idle;
  registered_user = [];
  active_call_id = [];
  active_remote_uri = [];
  is_incoming_call = false;
  logged = [];
}

abbrev pub is_registered : ClientStateManager → Bool
is_registered m = state_eq m.state registered

abbrev pub is_calling : ClientStateManager → Bool
is_calling m = state_eq m.state calling

abbrev pub is_ringing : ClientStateManager → Bool
is_ringing m = state_eq m.state ringing

abbrev pub is_in_call : ClientStateManager → Bool
is_in_call m = state_eq m.state in_call

abbrev pub is_busy : ClientStateManager → Bool
is_busy m = state_eq m.state calling || state_eq m.state ringing || state_eq m.state in_call

-- transition_to_unlocked; transition_to is the same behind the mutex
unfoldable pub transition_to : State → ClientStateManager → ClientStateManager
transition_to s m =
    let line : Transition = record {
      call_id = if is_empty m.active_call_id then codes "-" else m.active_call_id;
      from = m.state;
      to = s;
    } in
    if state_eq s m.state then m else record m { state = s; logged = m.logged ++ line ∷ [] }

abbrev pub on_registering : ClientStateManager → ClientStateManager
on_registering m = transition_to registering m

abbrev pub on_register_success : Bytes → Bytes → ClientStateManager → ClientStateManager
on_register_success username domain m =
    transition_to registered (record m { registered_user = username ++ codes "@" ++ domain })

abbrev pub on_register_failed : ClientStateManager → ClientStateManager
on_register_failed m = transition_to failed m

abbrev pub on_calling : Bytes → Bytes → ClientStateManager → ClientStateManager
on_calling call_id remote_uri m = transition_to calling (record m {
  active_call_id = call_id;
  active_remote_uri = remote_uri;
  is_incoming_call = false;
})

abbrev pub on_incoming_call : Bytes → Bytes → ClientStateManager → ClientStateManager
on_incoming_call call_id remote_uri m =
    transition_to ringing (record m {
      active_call_id = call_id;
      active_remote_uri = remote_uri;
      is_incoming_call = true;
    })

abbrev pub on_ringing : ClientStateManager → ClientStateManager
on_ringing m = transition_to ringing m

abbrev pub on_call_established : ClientStateManager → ClientStateManager
on_call_established m = transition_to in_call m

abbrev pub on_call_terminated : ClientStateManager → ClientStateManager
on_call_terminated m =
    transition_to registered
      (record m { active_call_id = []; active_remote_uri = []; is_incoming_call = false })

-- The calls of the manager, and one of them carried out.
pub data Event : Type 0 where
  registering_event register_failed ringing_event call_established call_terminated : Event
  register_success calling_event incoming_call : Bytes → Bytes → Event

unfoldable pub apply : Event → ClientStateManager → ClientStateManager
apply registering_event m = on_registering m
apply register_failed m = on_register_failed m
apply ringing_event m = on_ringing m
apply call_established m = on_call_established m
apply call_terminated m = on_call_terminated m
apply (register_success username domain) m = on_register_success username domain m
apply (calling_event call_id remote_uri) m = on_calling call_id remote_uri m
apply (incoming_call call_id remote_uri) m = on_incoming_call call_id remote_uri m

unfoldable pub apply_all : List Event → ClientStateManager → ClientStateManager
apply_all [] m = m
apply_all (e ∷ es) m = apply_all es (apply e m)
