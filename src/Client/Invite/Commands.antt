-- ===== src/Client/Invite/Commands.antt =====
-- What the commands of the user do where the state of the client allows them.
use minimal_sip_proxy_sip_cl.Base.{
  ℕ, ◌≡◌, refl, ap, ◌∙◌, ◌||◌, true, false, [], ◌∷◌, ◌++◌, arith, Bytes, codes, is_empty, ok,
}
use minimal_sip_proxy_sip_cl.Client.State.{
  State, registered, calling, in_call, state_eq, is_registered, is_in_call, ClientStateManager,
  ringing,
}
use minimal_sip_proxy_sip_cl.Client.Invite.Safety.{notify-fields}
use minimal_sip_proxy_sip_cl.Client.State.Outcomes.{state-transition_to}
use minimal_sip_proxy_sip_cl.Client.Factory.{
  SipMessageFactory, build, build_invite, build_bye, new_call_id,
}
use minimal_sip_proxy_sip_cl.Client.Session.{SipClient, pending_headers, notify_call_state_changed}
use minimal_sip_proxy_sip_cl.Client.Invite.{
  handle_invite, handle_bye, handle_answer, split_local, split_sip_uri,
}

registered_idle :
    (s : State)
    → state_eq s registered ≡ true
    → (state_eq s calling || state_eq s ringing || state_eq s in_call) ≡ false
registered_idle s h = ground arith

-- A command has sent one message, and the client is in this state.
pub record Sends (message : Bytes) (state : State) (c c' : SipClient) : Type 0 where
  pub sent : c'.sent ≡ c.sent ++ message ∷ []
  pub reached : c'.state.state ≡ state

notify-Sends :
    (message : Bytes) (state : State) (c c' : SipClient)
    → Sends message state c c'
    → Sends message state c (notify_call_state_changed c')
notify-Sends message state c c' s =
    let fields = notify-fields c' in
    record {
      sent = fields.2 ∙ s.sent;
      reached = ap (λ (m : ClientStateManager). m.state) fields.0 ∙ s.reached;
    }

-- A registered client that calls sends one INVITE and is calling.
pub invite-Sends :
    (from_user from_domain to_user to_domain : Bytes) (random : ℕ) (c : SipClient)
    → is_registered c.state ≡ true
    → (c' : SipClient) × (message : Bytes) × (handle_invite from_user from_domain to_user to_domain
          random c
        ≡ ok c')
      × (f : SipMessageFactory) × (build_invite c.factory from_user from_domain to_user to_domain
            (new_call_id c.factory.local_ip random)
            (pending_headers c (codes "INVITE"))
          ≡ ok (message, f))
      × Sends message calling c c'
unfolding handle_invite build pending_headers
invite-Sends from_user from_domain to_user to_domain random c h =
    rw (h, registered_idle c.state.state h)
      (
        _,
        _,
        refl,
        _,
        refl,
        notify-Sends _ calling c _
            (record { sent = refl; reached = state-transition_to calling _ }),
      )

pub bye-Sends :
    (c : SipClient)
    → is_in_call c.state ≡ true
    → (c' : SipClient) × (message : Bytes) × (handle_bye c ≡ ok c')
      × (f : SipMessageFactory) × (let own = split_local c.state.registered_user in
          let peer = split_sip_uri c.state.active_remote_uri in
          build_bye c.factory own.0 own.1 peer.0 peer.1 c.state.active_call_id
            (pending_headers c (codes "BYE"))
          ≡ ok (message, f))
      × Sends message registered c c'
unfolding handle_bye build
bye-Sends c h = rw h (
  _,
  _,
  refl,
  _,
  refl,
  notify-Sends _ registered c _
      (record { sent = refl; reached = state-transition_to registered _ }),
)

-- An answer to the pending INVITE sends one message, is told to no callback, and leaves nothing to
-- answer.
pub answer_silent :
    (c : SipClient)
    → is_empty c.pending_invite ≡ false
    → let c' = handle_answer c in
      (c'.state.state ≡ in_call) × (c'.notices ≡ c.notices) × (handle_answer c' ≡ c')
unfolding handle_answer
answer_silent c h = rw h (state-transition_to in_call _, refl, refl)
