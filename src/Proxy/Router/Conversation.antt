-- ===== src/Proxy/Router/Conversation.antt =====
-- Sequences of messages through `route`, and the messages inside a call.
use minimal_sip_proxy_sip_cl.Base.{
  ℕ, ◌≡◌, refl, true, false, Option, none, some, List, [], ◌∷◌, map, Bytes, codes, str_eq,
  if◌then◌else◌, lookup, Result, ok, ◌>>=◌, Dict, not, ◌&&◌, is_empty,
}
use minimal_sip_proxy_sip_cl.Sip.Message.{
  TransportType, SipMessage, is_response, is_request, get_method,
}
use minimal_sip_proxy_sip_cl.Proxy.Metrics.{MetricsCollector}
use minimal_sip_proxy_sip_cl.Proxy.Call.{CallSession, is_terminated}
use minimal_sip_proxy_sip_cl.Proxy.Router.Helpers.{
  SipRouter, CallContext, RoutingResult, RoutingAction, forward_request, forward_response,
  strip_proxy_via,
}
use minimal_sip_proxy_sip_cl.Proxy.Router.Response.{response_from_caller, answers}
use minimal_sip_proxy_sip_cl.Proxy.Router.Route.{route}
use minimal_sip_proxy_sip_cl.Proxy.Router.Invite.{call_id_of, caller_of}
use minimal_sip_proxy_sip_cl.Proxy.Router.Frame.{SameCall, SameCall-trans}

-- A message with the address and the transport that it came over.
pub record Arrival : Type 0 where
  pub message : SipMessage
  pub ip : Bytes
  pub port : ℕ
  pub transport : TransportType

-- The messages are routed in the order in which they arrive.
unfoldable pub serve : List Arrival → SipRouter → Result (List RoutingResult × SipRouter)
serve [] r = ok ([], r)
serve (a ∷ arrived) r = do
  one ← route r a.message a.ip a.port a.transport
  later ← serve arrived one.1
  ok (one.0 ∷ later.0, later.1)

-- Where a message goes: what is done, the contact or the address, and the user.
pub record Destination : Type 0 where
  pub action : RoutingAction
  pub contact : Option Bytes
  pub ip : Bytes
  pub port : ℕ
  pub user : Bytes

module _ (c : CallContext) where
  abbrev pub to_caller : RoutingAction → Destination
  to_caller action = record {
    action = action;
    contact = none;
    ip = c.caller_ip;
    port = c.caller_port;
    user = c.caller;
  }

  -- To the contact that the callee has registered.
  abbrev pub to_contact : Destination
  to_contact = record {
    action = forward_request;
    contact = some c.callee_contact;
    ip = [];
    port = 0;
    user = c.callee;
  }

  abbrev pub to_callee : Destination
  to_callee = record {
    action = forward_response;
    contact = none;
    ip = c.callee_ip;
    port = c.callee_port;
    user = c.callee;
  }

  -- A request of the caller goes to the contact of the callee, and any other request to the
  -- caller. A response that names the caller in its topmost Via goes to the callee, where its
  -- address is known, and any other response to the caller.
  unfoldable pub destination : SipMessage → Destination
  destination m =
      if is_response m
      then if response_from_caller (strip_proxy_via m) c && not (is_empty c.callee_ip)
        then to_callee
        else to_caller forward_response
      else if str_eq (caller_of m) c.caller
      then to_contact
      else to_caller forward_request

abbrev pub where_to : RoutingResult → Destination
where_to x = record {
  action = x.action;
  contact = x.contact;
  ip = x.ip;
  port = x.port;
  user = x.user;
}

-- The messages of one call are served: each is forwarded to where it belongs, other calls are left
-- alone, and `P` holds in the end.
pub record Served (c : CallContext) (id : Bytes) (P : SipRouter → Type 0) (arrived : List Arrival)
    (r : SipRouter) : Type 0 where
  pub results : List RoutingResult
  pub after : SipRouter
  pub served : serve arrived r ≡ ok (results, after)
  pub routed : map where_to results ≡ map (λ (a : Arrival). destination c a.message) arrived
  pub others : (k : Bytes) → str_eq id k ≡ false → SameCall k r after
  pub reached : P after

module _ (c : CallContext) (id : Bytes) (P : SipRouter → Type 0) where
  pub Served-nil : (r : SipRouter) → P r → Served c id P [] r
  unfolding serve
  Served-nil r p = record {
    results = [];
    after = r;
    served = refl;
    routed = refl;
    others = λ k h. record { session = refl; context = refl };
    reached = p;
  }

  pub Served-cons :
      (a : Arrival) (arrived : List Arrival) (r r' : SipRouter) (x : RoutingResult)
      → route r a.message a.ip a.port a.transport ≡ ok (x, r')
      → where_to x ≡ destination c a.message
      → ((k : Bytes) → str_eq id k ≡ false → SameCall k r r')
      → Served c id P arrived r'
      → Served c id P (a ∷ arrived) r
  unfolding serve
  Served-cons a arrived r r' x e there same rest = record {
    results = x ∷ rest.results;
    after = rest.after;
    served = rw (e, ◌>>=◌) (rw (rest.served, ◌>>=◌));
    routed = cc (there, rest.routed);
    others = λ k h. SameCall-trans k (same k h) (rest.others k h);
    reached = rest.reached;
  }

-- The context of a call is there, with any headers of the callee, and the counters are these.
pub record Held (c : CallContext) (id : Bytes) (counters : MetricsCollector) (r : SipRouter)
    : Type 0 where
  pub stored : Dict Bytes
  pub context : lookup r.call_contexts id ≡ some (record c { callee_stored_headers = stored })
  pub metrics : r.metrics ≡ counters

-- Besides, the call has a session that is not over.
pub record Talking (c : CallContext) (id : Bytes) (counters : MetricsCollector) (r : SipRouter)
    : Type 0 where
  pub held : Held c id counters r
  pub session : CallSession
  pub found : lookup r.registry id ≡ some session
  pub alive : is_terminated session ≡ false

-- A response of the call that does not end it.
pub record IsQuiet (id : Bytes) (m : SipMessage) : Type 0 where
  pub same_call : call_id_of m ≡ id
  pub response : is_response m ≡ true
  pub no_decline : answers (strip_proxy_via m) 603 (codes "INVITE") ≡ false
  pub no_goodbye : answers (strip_proxy_via m) 200 (codes "BYE") ≡ false
  pub no_busy : answers (strip_proxy_via m) 486 (codes "INVITE") ≡ false

-- A request of the call with this method.
pub record IsRequest (method id : Bytes) (m : SipMessage) : Type 0 where
  pub same_call : call_id_of m ≡ id
  pub no_response : is_response m ≡ false
  pub request : is_request m ≡ true
  pub named : get_method m ≡ method
