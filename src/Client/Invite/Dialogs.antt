-- ===== src/Client/Invite/Dialogs.antt =====
-- Orders of messages that a call of the client can meet.
use minimal_sip_proxy_sip_cl.Base.{
  ◌≡◌, refl, ap, ◌∙◌, true, false, [], ◌∷◌, ◌++◌, append_assoc, Bytes, codes, is_empty, str_eq_iff,
  ok, Bool-cases, inl, inr, ◌>>=◌,
}
use minimal_sip_proxy_sip_cl.Client.State.{
  ringing, in_call, registered, ClientStateManager, is_busy, on_ringing,
}
use minimal_sip_proxy_sip_cl.Client.State.Outcomes.{state-transition_to, call_id-transition_to}
use minimal_sip_proxy_sip_cl.Client.Factory.{build_response}
use minimal_sip_proxy_sip_cl.Client.Session.{
  SipClient, notify_call_state_changed, send_to_server, pending_headers,
}
use minimal_sip_proxy_sip_cl.Client.Invite.{
  extract_call_id, on_message, handle_status, handle_incoming_invite, handle_incoming_bye,
  handle_180, handle_answer, handle_bye,
}
use minimal_sip_proxy_sip_cl.Client.Invite.Safety.{notify-fields}
use minimal_sip_proxy_sip_cl.Client.Invite.Dispatch.{
  Starts, IsResponse, on_message_invite, on_message_bye, on_message_response,
}

-- A client that is not busy rings for an INVITE.
record Rings (raw : Bytes) (c c' : SipClient) : Type 0 where
  sent :
      c'.sent
      ≡ c.sent
        ++ build_response 100 (codes "Trying") raw (pending_headers c (codes "100"))
          ∷ build_response 180 (codes "Ringing") raw (pending_headers c (codes "180"))
          ∷ []
  state : c'.state.state ≡ ringing
  pending : c'.pending_invite ≡ raw

invite-Rings :
    (raw : Bytes) (c : SipClient)
    → is_empty (extract_call_id raw) ≡ false
    → is_busy c.state ≡ false
    → Rings raw c (handle_incoming_invite raw c)
unfolding handle_incoming_invite notify_call_state_changed pending_headers
invite-Rings raw c g b = elim (Bool-cases c.call_state_cb) [
  | inl z ↦
      rw (g, b, z)
        (record {
          sent = append_assoc c.sent _ _;
          state = state-transition_to ringing _;
          pending = refl;
        })
  | inr z ↦
      rw (g, b, z)
        (record {
          sent = append_assoc c.sent _ _;
          state = state-transition_to ringing _;
          pending = refl;
        })
]

busy_refuses :
    (raw : Bytes) (c : SipClient)
    → is_empty (extract_call_id raw) ≡ false
    → is_busy c.state ≡ true
    → handle_incoming_invite raw c
      ≡ send_to_server (build_response 486 (codes "Busy Here") raw []) c
unfolding handle_incoming_invite
busy_refuses raw c g b = rw (g, b) refl

-- The same INVITE with a Call-ID twice, as UDP may deliver it, at a client that is not busy: the
-- client rings for it, and then answers it with 486, though it still rings for it.
pub invite_repeated :
    (raw : Bytes) (c : SipClient)
    → Starts (codes "INVITE") raw
    → is_empty (extract_call_id raw) ≡ false
    → is_busy c.state ≡ false
    → (c' : SipClient) × ((on_message raw c >>= on_message raw) ≡ ok c')
      × (c'.sent
          ≡ c.sent
            ++ build_response 100 (codes "Trying") raw (pending_headers c (codes "100"))
              ∷ build_response 180 (codes "Ringing") raw (pending_headers c (codes "180"))
              ∷ build_response 486 (codes "Busy Here") raw []
              ∷ [])
      × (c'.state.state ≡ ringing)
      × (c'.pending_invite ≡ raw)
invite_repeated raw c h g b =
    let c1 = handle_incoming_invite raw c in
    let r = invite-Rings raw c g b in
    let busy : is_busy c1.state ≡ true = rw (r.state) refl in
    (
      send_to_server (build_response 486 (codes "Busy Here") raw []) c1,
      rw (on_message_invite raw c h)
          (on_message_invite raw c1 h ∙ ap (λ (x : SipClient). ok x) (busy_refuses raw c1 g busy)),
      ap (λ l. l ++ build_response 486 (codes "Busy Here") raw [] ∷ []) (r.sent)
          ∙ append_assoc c.sent _ _,
      r.state,
      r.pending,
    )

-- A 180 of the own call that comes after the call is up: the client rings again, with the same
-- Call-ID, and a hang-up does nothing.
pub late_ringing :
    (raw : Bytes) (c : SipClient)
    → c.state.state ≡ in_call
    → IsResponse raw c 180
    → (c' : SipClient) × (on_message raw c ≡ ok c')
      × (c'.state.state ≡ ringing)
      × (c'.state.active_call_id ≡ c.state.active_call_id)
      × (handle_bye c' ≡ ok c')
unfolding handle_180 handle_status handle_bye
late_ringing raw c up r =
    let c1 = handle_180 c in
    let state : c1.state ≡ on_ringing c.state =
      (notify-fields (record c { state = on_ringing c.state })).0 in
    let rings =
      ap (λ (m : ClientStateManager). m.state) state ∙ state-transition_to ringing c.state in
    (
      c1,
      on_message_response raw c 180 r ∙ refl,
      rings,
      ap (λ (m : ClientStateManager). m.active_call_id) state
          ∙ call_id-transition_to ringing c.state,
      rw rings refl,
    )

-- A BYE of the call that the client is in ends it.
record HungUp (c c' : SipClient) : Type 0 where
  state : c'.state.state ≡ registered
  call_id : c'.state.active_call_id ≡ []
  pending : c'.pending_invite ≡ c.pending_invite

notify-HungUp : (c c' : SipClient) → HungUp c c' → HungUp c (notify_call_state_changed c')
notify-HungUp c c' h =
    let (a, b, d, e) = notify-fields c' in
    record {
      state = ap (λ (m : ClientStateManager). m.state) a ∙ h.state;
      call_id = ap (λ (m : ClientStateManager). m.active_call_id) a ∙ h.call_id;
      pending = e ∙ h.pending;
    }

bye-HungUp :
    (raw : Bytes) (c : SipClient)
    → is_empty (extract_call_id raw) ≡ false
    → extract_call_id raw ≡ c.state.active_call_id
    → HungUp c (handle_incoming_bye raw c)
unfolding handle_incoming_bye
bye-HungUp raw c g e =
    let same = (str_eq_iff (extract_call_id raw) c.state.active_call_id).1 e in
    rw (g, same)
      (notify-HungUp c _ (record {
        state = state-transition_to registered _;
        call_id = call_id-transition_to registered _;
        pending = refl;
      }))

-- A BYE of the own call, at a client that has kept an INVITE to answer, ends the call; an answer
-- after that puts the client in a call without a Call-ID.
pub answer_after_bye :
    (raw : Bytes) (c : SipClient)
    → Starts (codes "BYE") raw
    → is_empty (extract_call_id raw) ≡ false
    → extract_call_id raw ≡ c.state.active_call_id
    → is_empty c.pending_invite ≡ false
    → (c' : SipClient) × (on_message raw c ≡ ok c')
      × (c'.state.state ≡ registered)
      × ((handle_answer c').state.state ≡ in_call)
      × ((handle_answer c').state.active_call_id ≡ [])
unfolding handle_answer
answer_after_bye raw c h g e p =
    let b = bye-HungUp raw c g e in
    let p' : is_empty (handle_incoming_bye raw c).pending_invite ≡ false = rw (b.pending) p in
    (
      handle_incoming_bye raw c,
      on_message_bye raw c h,
      b.state,
      rw p' (state-transition_to in_call _),
      rw p' (call_id-transition_to in_call _ ∙ b.call_id),
    )
