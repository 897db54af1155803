-- ===== src/Client/State/Outcomes.antt =====
-- What a transition of the client state leaves.
use minimal_sip_proxy_sip_cl.Base.{◌≡◌, arith}
use minimal_sip_proxy_sip_cl.Client.State.{State, ClientStateManager, transition_to}

pub state-transition_to : (t : State) (m : ClientStateManager) → (transition_to t m).state ≡ t
unfolding transition_to
state-transition_to t m = ground arith

pub user-transition_to :
    (t : State) (m : ClientStateManager) → (transition_to t m).registered_user ≡ m.registered_user
unfolding transition_to
user-transition_to t m = ground arith

pub call_id-transition_to :
    (t : State) (m : ClientStateManager) → (transition_to t m).active_call_id ≡ m.active_call_id
unfolding transition_to
call_id-transition_to t m = ground arith
