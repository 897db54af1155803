-- ===== src/Client/App/States.antt =====
-- Every packet makes the client tell its callback the state of the call.
use minimal_sip_proxy_sip_cl.Base.{
  ◌≡◌, refl, ap, ◌∙◌, true, ◌&&◌, List, [], ◌∷◌, ◌++◌, Bytes, sym, append-nil, append_assoc, ok,
  Bool-cases, inl, inr,
}
use minimal_sip_proxy_sip_cl.Client.Session.{
  SipClient, Notice, call_state, notify_call_state_changed,
}
use minimal_sip_proxy_sip_cl.Client.State.{state_name}
use minimal_sip_proxy_sip_cl.Client.Invite.Safety.{on_message-Keeps}
use minimal_sip_proxy_sip_cl.Client.App.{tell_register, receive, on_packet_received}
use minimal_sip_proxy_sip_cl.Client.App.Packets.{
  Handled, tell_error-cases, on_packet_received-Handled,
}

told-state_callback :
    (text : Bytes) (c c' : SipClient) (h : Handled text c c')
    → h.told.call_state_cb ≡ c.call_state_cb
told-state_callback text c c' h =
    let kept = (on_message-Keeps text (receive text c) h.called h.call).callbacks.2 in
    elim (tell_error-cases text h.called h.told h.error) [
      | inl e ↦ ap (λ (x : SipClient). x.call_state_cb) e ∙ kept
      | inr (code, reason, e) ↦ ap (λ (x : SipClient). x.call_state_cb) e ∙ kept
    ]

tell_register-more :
    (c : SipClient) → (later : List Notice) × ((tell_register c).notices ≡ c.notices ++ later)
unfolding tell_register
tell_register-more c =
    elim (Bool-cases (c.register_response_cb && c.receiver.register_response_received)) [
      | inl e ↦ rw e (_, refl)
      | inr e ↦ rw e ([], sym (append-nil c.notices))
    ]

notified :
    (c : SipClient)
    → c.call_state_cb ≡ true
    → (notify_call_state_changed c).notices
      ≡ c.notices
        ++ call_state (state_name c.state.state) c.state.active_call_id c.state.active_remote_uri
          ∷ []
unfolding notify_call_state_changed
notified c h = rw h refl

-- A packet that is handled calls the callback for the state of the call.
pub tells_state :
    (text : Bytes) (c c' : SipClient)
    → on_packet_received text c ≡ ok c'
    → c.call_state_cb ≡ true
    → (before later : List Notice) × (state id uri : Bytes) × (c'.notices
        ≡ before ++ call_state state id uri ∷ later)
tells_state text c c' h cb =
    let k = on_packet_received-Handled text c c' h in
    let (later, e) = tell_register-more (notify_call_state_changed k.told) in
    (
      k.told.notices,
      later,
      state_name k.told.state.state,
      k.told.state.active_call_id,
      k.told.state.active_remote_uri,
      ap (λ (x : SipClient). x.notices) k.done
          ∙ e
          ∙ ap (λ (told : List Notice). told ++ later)
              (notified k.told (told-state_callback text c c' k ∙ cb))
          ∙ append_assoc k.told.notices (call_state _ _ _ ∷ []) later,
    )
