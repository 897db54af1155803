-- ===== src/Client/State/Log.antt =====
-- What the log of the client tells of its state.
use minimal_sip_proxy_sip_cl.Base.{
  ◌≡◌, refl, sym, ap, ◌∙◌, Bool, Bool-cases, inl, inr, true, false, List, [], ◌∷◌, ◌++◌, Bytes,
  arith,
}
use minimal_sip_proxy_sip_cl.Client.State.{
  State, registering, registered, calling, ringing, in_call, failed, state_eq, Transition,
  ClientStateManager, transition_to, Event, registering_event, register_failed, ringing_event,
  call_established, call_terminated, register_success, calling_event, incoming_call, apply,
  apply_all,
}

-- A log that leads from one state to another: each line takes up where the line before ended, and
-- each changes the state.
abbrev pub Chain : State → List Transition → State → Type 0
Chain s [] s' = s ≡ s'
Chain s (l ∷ ls) s' = (s ≡ l.from) × (state_eq l.to l.from ≡ false) × Chain l.to ls s'

Chain-append :
    (s : State) (ls : List Transition) (l : Transition)
    → Chain s ls l.from
    → state_eq l.to l.from ≡ false
    → Chain s (ls ++ l ∷ []) l.to
Chain-append s [] l c h = (c, h, refl)
Chain-append s (x ∷ ls) l c h = (c.0, c.1, Chain-append x.to ls l c.2 h)

-- The state of the call that the events tell: what the last `calling` or `incoming_call` since the
-- last `call_terminated` brought.
pub record ActiveCall : Type 0 where
  pub call_id : Bytes
  pub remote_uri : Bytes
  pub incoming : Bool

abbrev pub told : ActiveCall → List Event → ActiveCall
told c [] = c
told c (calling_event id uri ∷ es) =
    told (record { call_id = id; remote_uri = uri; incoming = false }) es
told c (incoming_call id uri ∷ es) =
    told (record { call_id = id; remote_uri = uri; incoming = true }) es
told c (call_terminated ∷ es) = told (record { call_id = []; remote_uri = []; incoming = false }) es
told c (e ∷ es) = told c es

abbrev pub active_call : ClientStateManager → ActiveCall
active_call m = record {
  call_id = m.active_call_id;
  remote_uri = m.active_remote_uri;
  incoming = m.is_incoming_call;
}

transition_to-Chain :
    (s t : State) (m : ClientStateManager)
    → Chain s m.logged m.state
    → Chain s (transition_to t m).logged (transition_to t m).state
unfolding transition_to
transition_to-Chain s t m c = elim (Bool-cases (state_eq t m.state)) [
  | inl same ↦ rw same c
  | inr other ↦ rw other (Chain-append s m.logged _ c other)
]

active_call-transition_to :
    (t : State) (m : ClientStateManager) → active_call (transition_to t m) ≡ active_call m
unfolding transition_to
active_call-transition_to t m = ground arith

apply-Chain :
    (s : State) (e : Event) (m : ClientStateManager)
    → Chain s m.logged m.state
    → Chain s (apply e m).logged (apply e m).state
unfolding apply
apply-Chain s registering_event m c = transition_to-Chain s _ _ c
apply-Chain s register_failed m c = transition_to-Chain s _ _ c
apply-Chain s ringing_event m c = transition_to-Chain s _ _ c
apply-Chain s call_established m c = transition_to-Chain s _ _ c
apply-Chain s call_terminated m c = transition_to-Chain s _ _ c
apply-Chain s (register_success username domain) m c = transition_to-Chain s _ _ c
apply-Chain s (calling_event call_id remote_uri) m c = transition_to-Chain s _ _ c
apply-Chain s (incoming_call call_id remote_uri) m c = transition_to-Chain s _ _ c

told-apply :
    (e : Event) (es : List Event) (m : ClientStateManager)
    → told (active_call m) (e ∷ es) ≡ told (active_call (apply e m)) es
unfolding apply
told-apply registering_event es m = rw (active_call-transition_to registering m)
told-apply register_failed es m = rw (active_call-transition_to failed m)
told-apply ringing_event es m = rw (active_call-transition_to ringing m)
told-apply call_established es m = rw (active_call-transition_to in_call m)
told-apply call_terminated es m = ap (λ c. told c es) (sym (active_call-transition_to registered _))
told-apply (register_success username domain) es m =
    ap (λ c. told c es) (sym (active_call-transition_to registered _))
told-apply (calling_event call_id remote_uri) es m =
    ap (λ c. told c es) (sym (active_call-transition_to calling _))
told-apply (incoming_call call_id remote_uri) es m =
    ap (λ c. told c es) (sym (active_call-transition_to ringing _))

-- After any events, from any state whose log leads to it: the log leads from where it began to the
-- state there is, without a gap and without a line that changes nothing, and the active call is
-- the one that the events tell.
pub apply_all-Chain :
    (s : State) (es : List Event) (m : ClientStateManager)
    → Chain s m.logged m.state
    → Chain s (apply_all es m).logged (apply_all es m).state
      × (active_call (apply_all es m) ≡ told (active_call m) es)
unfolding apply_all
apply_all-Chain s [] m c = (c, refl)
apply_all-Chain s (e ∷ es) m c =
    let (chain, call) = apply_all-Chain s es (apply e m) (apply-Chain s e m c) in
    (chain, call ∙ sym (told-apply e es m))
