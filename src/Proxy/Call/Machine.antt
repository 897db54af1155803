-- ===== src/Proxy/Call/Machine.antt =====
-- The call state machine over a sequence of events, against an independent description: how much
-- of INVITE, 180, 200, BYE the events hold, in this order.
use minimal_sip_proxy_sip_cl.Base.{
  ℕ, suc, ◌+◌, ◌≡◌, refl, ap, ◌∙◌, Bool, true, false, List, [], ◌∷◌, arith, if◌then◌else◌,
}
use minimal_sip_proxy_sip_cl.Proxy.Call.{
  CallState, init, trying, ringing, established, terminated, CallEvent, invite, trying_100,
  ringing_180, ok_200, ack, bye, handle_event, CallSession, apply_event,
}

-- The session after a sequence of events.
unfoldable pub apply_events : CallSession → List CallEvent → CallSession
apply_events s [] = s
apply_events s (e ∷ es) = apply_events (apply_event s e) es

abbrev pub event_eq : CallEvent → CallEvent → Bool
event_eq invite invite = true
event_eq trying_100 trying_100 = true
event_eq ringing_180 ringing_180 = true
event_eq ok_200 ok_200 = true
event_eq ack ack = true
event_eq bye bye = true
event_eq _ _ = false

-- How many steps of the plan the events take, each step as early as it can be.
abbrev pub progress : List CallEvent → List CallEvent → ℕ
progress plan [] = 0
progress [] (e ∷ es) = 0
progress (p ∷ plan) (e ∷ es) =
    let taken = suc (progress plan es) in
    let kept = progress (p ∷ plan) es in if event_eq p e then taken else kept

abbrev pub plan_from : CallState → List CallEvent
plan_from init = invite ∷ ringing_180 ∷ ok_200 ∷ bye ∷ []
plan_from trying = ringing_180 ∷ ok_200 ∷ bye ∷ []
plan_from ringing = ok_200 ∷ bye ∷ []
plan_from established = bye ∷ []
plan_from terminated = []

-- How far a call has come.
abbrev pub rank : CallState → ℕ
rank init = 0
rank trying = 1
rank ringing = 2
rank established = 3
rank terminated = 4

pub state-apply_event :
    (s : CallSession) (e : CallEvent) → (apply_event s e).state ≡ handle_event s.state e
unfolding apply_event
state-apply_event s e = ground arith

progress-nil : (es : List CallEvent) → progress [] es ≡ 0
progress-nil [] = refl
progress-nil (e ∷ es) = refl

step_progress :
    (st : CallState) (e : CallEvent) (es : List CallEvent)
    → rank (handle_event st e) + progress (plan_from (handle_event st e)) es
      ≡ rank st + progress (plan_from st) (e ∷ es)
unfolding handle_event
step_progress init invite es = omega arith
step_progress trying ringing_180 es = omega arith
step_progress ringing ok_200 es = omega arith
step_progress established bye es = omega (arith, progress-nil es)
step_progress terminated e es = omega (arith, progress-nil es)
step_progress st e es = refl

-- After any events the state of a session has moved on by exactly the steps of its plan that the
-- events hold in order; all other events are passed over.
pub rank-apply_events :
    (s : CallSession) (es : List CallEvent)
    → rank (apply_events s es).state ≡ rank s.state + progress (plan_from s.state) es
unfolding apply_events
rank-apply_events s [] = omega arith
rank-apply_events s (e ∷ es) =
    rank-apply_events (apply_event s e) es
    ∙ ap (λ st. rank st + progress (plan_from st) es) (state-apply_event s e)
    ∙ step_progress s.state e es
