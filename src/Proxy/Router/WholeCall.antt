-- ===== src/Proxy/Router/WholeCall.antt =====
-- A call from its INVITE to its end.
use minimal_sip_proxy_sip_cl.Base.{
  ℕ, ◌+◌, ◌^◌, ◌<◌, ◌≡◌, refl, ◌∙◌, true, false, none, List, [], ◌∷◌, ◌++◌, map, arith, Bytes,
  codes, str_eq, str_eq_iff, str_eq_refl, lookup, lookup-insert, ok, Bool-cases, inl, inr, ◌⊎◌,
}
use minimal_sip_proxy_sip_cl.Sip.Message.{SipMessage, is_response, get_method}
use minimal_sip_proxy_sip_cl.Proxy.Metrics.{
  MetricsCollector, inc_active_calls, dec_active_calls, increment, decrement,
}
use minimal_sip_proxy_sip_cl.Proxy.Registration.{ContactEntry}
use minimal_sip_proxy_sip_cl.Proxy.Call.{is_terminated, on_request, apply_event, handle_event}
use minimal_sip_proxy_sip_cl.Proxy.Router.Helpers.{
  SipRouter, CallContext, RoutingResult, strip_proxy_via,
}
use minimal_sip_proxy_sip_cl.Proxy.Router.Context.{new_context}
use minimal_sip_proxy_sip_cl.Proxy.Router.Response.{handle_response}
use minimal_sip_proxy_sip_cl.Proxy.Router.Route.{route, forward_invite}
use minimal_sip_proxy_sip_cl.Proxy.Router.Invite.{call_id_of, caller_of, callee_of, new_session}
use minimal_sip_proxy_sip_cl.Proxy.Router.Placing.{CanPlace, invite_forwarded, after_invite}
use minimal_sip_proxy_sip_cl.Proxy.Router.Frame.{
  SameCall, lookup-with_session, invite-SameCall, response-SameCall,
}
use minimal_sip_proxy_sip_cl.Proxy.Router.Calls.{Ends, after_end}
use minimal_sip_proxy_sip_cl.Proxy.Router.Conversation.{
  Arrival, serve, Served, Served-nil, Served-cons, destination, where_to, Held, Talking, IsQuiet,
  IsRequest,
}
use minimal_sip_proxy_sip_cl.Proxy.Router.InCall.{
  quiet-Served, ack-Served, bye-Served, quiet-Held, quiet-Talking, bye_within, ack_within,
  response_within,
}

abbrev pub All : (SipMessage → Type 0) → List Arrival → Type 0
All P [] = Unit {0}
All P (a ∷ arrived) = P a.message × All P arrived

-- A message while the call goes on, and one while it ends.
abbrev pub Talks : Bytes → SipMessage → Type 0
Talks id m = IsQuiet id m ⊎ IsRequest (codes "ACK") id m

abbrev pub Leaves : Bytes → SipMessage → Type 0
Leaves id m = IsQuiet id m ⊎ IsRequest (codes "BYE") id m

-- The context of the call that an INVITE places.
abbrev pub placed_context : SipRouter → Arrival → ContactEntry → Bytes × ℕ → CallContext
placed_context r a entry address =
    new_context r.table a.message (caller_of a.message) (callee_of a.message) entry.contact a.ip
      a.port a.transport entry.transport address

-- The messages of a call are forwarded to where they belong and leave no trace: every call has the
-- session and the context that it had before, and the counters are as they were.
pub record NoTrace (c : CallContext) (arrived : List Arrival) (r : SipRouter) : Type 0 where
  pub results : List RoutingResult
  pub after : SipRouter
  pub served : serve arrived r ≡ ok (results, after)
  pub routed : map where_to results ≡ map (λ (a : Arrival). destination c a.message) arrived
  pub untouched : (k : Bytes) → SameCall k r after
  pub counted : after.metrics ≡ r.metrics

module _ (c : CallContext) (id : Bytes) (n : MetricsCollector) where
  -- The state of the call is gone, and the call is counted off.
  abbrev Over : SipRouter → Type 0
  Over r =
      (lookup r.registry id ≡ none)
      × (lookup r.call_contexts id ≡ none)
      × (r.metrics ≡ dec_active_calls n)

  end-Served :
      (a : Arrival) (r : SipRouter)
      → call_id_of a.message ≡ id
      → is_response a.message ≡ true
      → Ends (strip_proxy_via a.message)
      → Held c id n r
      → Served c id Over (a ∷ []) r
  unfolding route
  end-Served a r same response ends h =
      let within = response_within c id n r a.message h same response in
      Served-cons c id Over a [] r _ (handle_response r a.message).0 (rw response refl) within.0
        (λ k other. response-SameCall k id other r a.message same)
        (Served-nil c id Over _
          (rw within.1 (rw (← h.metrics) (after_end r (strip_proxy_via a.message) id ends))))

  leaving-Served :
      (P : SipRouter → Type 0) (leaving rest : List Arrival) (r : SipRouter)
      → All (Leaves id) leaving
      → Held c id n r
      → ((q : SipRouter) → Held c id n q → Served c id P rest q)
      → Served c id P (leaving ++ rest) r
  leaving-Served P [] rest r l h next = next r h
  leaving-Served P (a ∷ leaving) rest r (inl quiet, l) h next =
      quiet-Served c id n P (leaving ++ rest) a r quiet h
        (leaving-Served P leaving rest _ l (quiet-Held c id n r a.message quiet h) next)
  leaving-Served P (a ∷ leaving) rest r (inr bye, l) h next =
      bye-Served c id n P (leaving ++ rest) a r bye h
        (leaving-Served P leaving rest _ l (bye_within c id n r a.message bye h).1 next)

  Talking-Served :
      (P : SipRouter → Type 0) (talking rest : List Arrival) (r : SipRouter)
      → All (Talks id) talking
      → Talking c id n r
      → ((q : SipRouter) → Talking c id n q → Served c id P rest q)
      → Served c id P (talking ++ rest) r
  Talking-Served P [] rest r l t next = next r t
  Talking-Served P (a ∷ talking) rest r (inl quiet, l) t next =
      quiet-Served c id n P (talking ++ rest) a r quiet t.held
        (Talking-Served P talking rest _ l (quiet-Talking c id n r a.message quiet t) next)
  Talking-Served P (a ∷ talking) rest r (inr ack, l) t next =
      ack-Served c id n P (talking ++ rest) a r ack t
        (Talking-Served P talking rest _ l (ack_within c id n r a.message ack t).1 next)

counted_off :
    (n : MetricsCollector) → n.active_calls + 1 < 2 ^ 63 → dec_active_calls (inc_active_calls n) ≡ n
unfolding increment decrement
counted_off n h = ground arith

new_session_alive :
    (m : SipMessage)
    → get_method m ≡ codes "INVITE"
    → is_terminated (on_request m (new_session m)) ≡ false
unfolding on_request str_eq apply_event handle_event
new_session_alive m e = rw e refl

module _ (r : SipRouter) (a : Arrival) (entry : ContactEntry) (address : Bytes × ℕ)
    (can : CanPlace r a.message a.transport entry address)
    (invite : IsRequest (codes "INVITE") (call_id_of a.message) a.message) where
  abbrev id : Bytes
  id = call_id_of a.message

  abbrev c : CallContext
  c = placed_context r a entry address

  placed-Talking :
      Talking c id
        (inc_active_calls r.metrics)
        (after_invite r a.message a.ip a.port a.transport entry address can)
  placed-Talking = record {
    held = record {
      stored = c.callee_stored_headers;
      context = lookup-insert r.call_contexts id id _ ∙ rw (str_eq_refl id);
      metrics = refl;
    };
    session = on_request a.message (new_session a.message);
    found =
        lookup-with_session _ id id (on_request a.message)
        ∙ rw (str_eq_refl id)
            (rw (lookup-insert r.registry id id (new_session a.message), str_eq_refl id));
    alive = new_session_alive a.message invite.named;
  }

  invite_goes :
      where_to (forward_invite r a.message (callee_of a.message) entry) ≡ destination c a.message
  unfolding forward_invite destination new_context
  invite_goes = rw (invite.no_response, str_eq_refl (caller_of a.message)) refl

  invite-Served :
      (P : SipRouter → Type 0) (rest : List Arrival)
      → Served c id P rest (after_invite r a.message a.ip a.port a.transport entry address can)
      → Served c id P (a ∷ rest) r
  unfolding route str_eq
  invite-Served P rest later =
      let placed = invite_forwarded r a.message a.ip a.port a.transport entry address can in
      Served-cons c id P a rest r _ (forward_invite r a.message (callee_of a.message) entry)
        (rw (invite.no_response, invite.request, invite.named) placed) invite_goes
        (λ k other. invite-SameCall k id other r _ a.message a.ip a.port a.transport _ refl placed)
        later

  -- An INVITE that can be placed, any responses of the call that do not end it and any ACKs, then
  -- any such responses and BYEs, and in the end a 200 to BYE or a 486 to INVITE, routed in this
  -- order: each message is forwarded to its destination. A request of the caller goes to the contact
  -- of the callee, and a BYE or ACK of anyone else to the caller; a response that names the caller
  -- in its topmost Via, once the proxy's is off, goes to the callee, where its address is known,
  -- and any other to the caller. After the last message the router has the sessions, the contexts
  -- and the counters that it had before the call. The Call-ID has no context before, and there are
  -- fewer than 2^63 - 1 active calls.
  pub whole_call :
      (talking leaving : List Arrival) (end : Arrival)
      → lookup r.call_contexts id ≡ none
      → r.metrics.active_calls + 1 < 2 ^ 63
      → All (Talks id) talking
      → All (Leaves id) leaving
      → call_id_of end.message ≡ id
      → is_response end.message ≡ true
      → Ends (strip_proxy_via end.message)
      → NoTrace c (a ∷ talking ++ (leaving ++ end ∷ [])) r
  whole_call talking leaving end unused few talks leaves same response ends =
      let n = inc_active_calls r.metrics in
      let s : Served c id (Over c id n) (a ∷ talking ++ (leaving ++ end ∷ [])) r =
        invite-Served (Over c id n) _ (
          Talking-Served c id n _ talking _ _ talks placed-Talking (λ q t.
            leaving-Served c id n _ leaving _ q leaves t.held
              (λ q h. end-Served c id n end q same response ends h))) in
      record {
        results = s.results;
        after = s.after;
        served = s.served;
        routed = s.routed;
        untouched = λ k. elim (Bool-cases (str_eq id k)) [
          | inr other ↦ s.others k other
          | inl this ↦
              let e = (str_eq_iff id k).0 this in
              rw (← e) (record {
                session = s.reached.0 ∙ rw can.fresh refl;
                context = s.reached.1 ∙ rw unused refl;
              })
        ];
        counted = s.reached.2 ∙ counted_off r.metrics few;
      }
