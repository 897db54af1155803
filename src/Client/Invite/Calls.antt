-- ===== src/Client/Invite/Calls.antt =====
-- When a message to the client changes its call.
use minimal_sip_proxy_sip_cl.Base.{
  ◌⊎◌, ◌≡◌, ◌≢◌, refl, sym, ap, ◌∙◌, Bool, true, false, pos, Bytes, codes, map, contains, is_empty,
  starts_with, str_eq, str_eq_iff, ok, Result-cases, Bool-cases, inl, inr,
}
use mathlib.Core.Path.{subst}
use minimal_sip_proxy_sip_cl.Base.Regex.{to_upper}
use minimal_sip_proxy_sip_cl.Client.State.{
  State, state_eq, calling, ringing, in_call, registered, ClientStateManager, is_busy,
  transition_to, on_call_terminated,
}
use minimal_sip_proxy_sip_cl.Client.State.Outcomes.{state-transition_to}
use minimal_sip_proxy_sip_cl.Client.Factory.{build_ack_for_error}
use minimal_sip_proxy_sip_cl.Client.Session.{SipClient, notify_call_state_changed, send_to_server}
use minimal_sip_proxy_sip_cl.Client.Invite.{
  split_local, split_sip_uri, extract_call_id, extract_status_code, extract_cseq_method, on_message,
  handle_incoming_invite, handle_incoming_bye, handle_100, handle_180, handle_200_ok_bye,
  handle_error,
}
use minimal_sip_proxy_sip_cl.Client.Invite.Reactions.{
  IsOwn, incoming_invite, incoming_bye, ignored, trying, rings, ended, established, failed,
  on_message-Reaction,
}
use minimal_sip_proxy_sip_cl.Client.Invite.Safety.{notify-fields}

-- The states that the client is in, the call left out.
abbrev is_up : State → Bool
is_up s = state_eq s in_call

moved :
    (t : State) (m : ClientStateManager) (c : SipClient)
    → c.state ≡ transition_to t m
    → (notify_call_state_changed c).state.state ≡ t
moved t m c e = rw ((notify-fields c).0, e) (state-transition_to t m)

not_up : (t : State) → is_up t ≡ false → t ≢ in_call
not_up t e up = absurd (cc (ap is_up up, e))

invite_up :
    (raw : Bytes) (c : SipClient)
    → (handle_incoming_invite raw c).state.state ≡ in_call
    → c.state.state ≡ in_call
unfolding handle_incoming_invite
invite_up raw c up = elim (Bool-cases (is_empty (extract_call_id raw))) [
  | inl x ↦ rw x at up
  | inr x ↦ elim (Bool-cases (is_busy c.state)) [
    | inl y ↦ rw (x, y) at up
    | inr y ↦ absurd (not_up ringing refl (sym (moved ringing _ _ refl) ∙ (rw (x, y) at up)))
  ]
]

bye_up :
    (raw : Bytes) (c : SipClient)
    → (handle_incoming_bye raw c).state.state ≡ in_call
    → c.state.state ≡ in_call
unfolding handle_incoming_bye
bye_up raw c up = elim (Bool-cases (is_empty (extract_call_id raw))) [
  | inl x ↦ rw x at up
  | inr x ↦ elim (Bool-cases (str_eq (extract_call_id raw) c.state.active_call_id)) [
    | inr y ↦ rw (x, y) at up
    | inl y ↦ absurd (not_up registered refl (sym (moved registered _ _ refl) ∙ (rw (x, y) at up)))
  ]
]

by_state : (t : State) {x c' : SipClient} → ok x ≡ ok c' → x.state.state ≡ t → c'.state.state ≡ t
by_state t {x} {c'} e h =
    let same : x ≡ c' = cc e in subst (λ (y : SipClient). y.state.state ≡ t) same h

error_down :
    (raw : Bytes) (c c' : SipClient) → handle_error raw c ≡ ok c' → c'.state.state ≡ registered
unfolding handle_error
error_down raw c c' h =
    let own = split_local c.state.registered_user in
    let peer = split_sip_uri c.state.active_remote_uri in
    let ack = build_ack_for_error c.factory own.0 own.1 peer.0 peer.1 c.state.active_call_id raw in
    elim (Result-cases ack) [
      | inr (x, e) ↦ absurd (cc (rw e at h))
      | inl (message, e) ↦ after message (rw e at h)
    ]
  where
    after :
        (message : Bytes)
        → ok (
            notify_call_state_changed
              (record (send_to_server message c) { state = on_call_terminated c.state }))
          ≡ ok c'
        → c'.state.state ≡ registered
    after message e = by_state registered e (moved registered _ _ refl)

-- After a message that is handled without an exception, the call is up only if it was before, or
-- the message is a 200 of the call that the client is in, and no answer to a BYE.
pub on_message-in_call :
    (raw : Bytes) (c c' : SipClient)
    → on_message raw c ≡ ok c'
    → c'.state.state ≡ in_call
    → (c.state.state ≡ in_call)
      ⊎ (IsOwn raw c
          × (extract_status_code raw ≡ ok (pos 200))
          × (str_eq (extract_cseq_method raw) (codes "BYE") ≡ false))
unfolding handle_100 handle_180 handle_200_ok_bye
on_message-in_call raw c c' h up = elim (on_message-Reaction raw c c' h) [
  | incoming_invite e ↦ inl (invite_up raw c (rw e at up))
  | incoming_bye e ↦ inl (bye_up raw c (rw e at up))
  | ignored e ↦ inl (rw e at up)
  | trying own e ↦ absurd (not_up calling refl (sym (moved calling _ _ refl) ∙ (rw e at up)))
  | rings own e ↦ absurd (not_up ringing refl (sym (moved ringing _ _ refl) ∙ (rw e at up)))
  | ended own e ↦
      absurd (not_up registered refl (sym (state-transition_to registered _) ∙ (rw e at up)))
  | established own code method e ↦ inr (own, code, method)
  | failed n own code least e ↦ absurd (not_up registered refl (sym (error_down raw c c' e) ∙ up))
]

-- A response of another call than the one that the client is in changes nothing.
pub on_message_foreign :
    (raw : Bytes) (c : SipClient)
    → starts_with (codes "SIP/2.0") (map to_upper raw) ≡ true
    → extract_call_id raw ≢ c.state.active_call_id
    → on_message raw c ≡ ok c
unfolding on_message
on_message_foreign raw c r other =
    elim (Bool-cases (contains (codes "SIP/2.0") (map to_upper raw))) [
      | inr x ↦ rw (r, x) refl
      | inl x ↦ elim (Bool-cases (is_empty (extract_call_id raw))) [
        | inl y ↦ rw (r, x, y) refl
        | inr y ↦ elim (Bool-cases (str_eq (extract_call_id raw) c.state.active_call_id)) [
          | inl z ↦ absurd (other ((str_eq_iff _ _).0 z))
          | inr z ↦ rw (r, x, y, z) refl
        ]
      ]
    ]
