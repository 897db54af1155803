-- ===== src/Proxy/Router/Direction.antt =====
-- Which party of a call a response is forwarded to.
use minimal_sip_proxy_sip_cl.Base.{
  ◌≡◌, refl, true, false, some, List, [], ◌∷◌, ◌++◌, Bytes, codes, contains, find, is_empty, lookup,
  str_eq, to_string, Bool-cases, inl, inr,
}
use minimal_sip_proxy_sip_cl.Sip.Message.{SipHeader, header, SipMessage, get_header, get_in}
use minimal_sip_proxy_sip_cl.Proxy.Router.Helpers.{
  SipRouter, CallContext, RoutingResult, proxy_host, strip_in, strip_proxy_via,
}
use minimal_sip_proxy_sip_cl.Proxy.Router.Response.{
  handle_response, forward_back, response_from_caller,
}
use minimal_sip_proxy_sip_cl.Proxy.Router.Invite.{call_id_of}

-- The text that the router looks for in the topmost Via.
abbrev pub caller_token : CallContext → Bytes
caller_token c = c.caller_ip ++ codes ":" ++ to_string c.caller_port

-- A routing decision that goes to the caller, or to the callee, of a call.
pub record GoesToCaller (c : CallContext) (result : RoutingResult) : Type 0 where
  pub ip : result.ip ≡ c.caller_ip
  pub port : result.port ≡ c.caller_port
  pub user : result.user ≡ c.caller

pub record GoesToCallee (c : CallContext) (result : RoutingResult) : Type 0 where
  pub ip : result.ip ≡ c.callee_ip
  pub port : result.port ≡ c.callee_port
  pub user : result.user ≡ c.callee

token_absent : (ip s : Bytes) → is_empty ip ≡ false → contains (ip ++ codes ":" ++ s) [] ≡ false
unfolding find
token_absent [] s h = cc
token_absent (c ∷ ip) s h = refl

response_forwarded :
    (r : SipRouter) (m : SipMessage) (c : CallContext)
    → lookup r.call_contexts (call_id_of m) ≡ some c
    → (handle_response r m).0 ≡ forward_back (strip_proxy_via m) c
unfolding handle_response
response_forwarded r m c e = rw e

back_to_caller :
    (m : SipMessage) (c : CallContext)
    → response_from_caller m c ≡ false
    → GoesToCaller c (forward_back m c)
unfolding forward_back
back_to_caller m c h = record { ip = rw h; port = rw h; user = rw h }

back_to_callee :
    (m : SipMessage) (c : CallContext)
    → response_from_caller m c ≡ true
    → is_empty c.callee_ip ≡ false
    → GoesToCallee c (forward_back m c)
unfolding forward_back
back_to_callee m c h k = record { ip = rw (h, k); port = rw (h, k); user = rw (h, k) }

from_caller_without_via :
    (m : SipMessage) (c : CallContext)
    → get_header m (codes "Via") ≡ []
    → response_from_caller m c ≡ false
unfolding response_from_caller
from_caller_without_via m c v = elim (Bool-cases (is_empty c.caller_ip)) [
  | inl e ↦ rw e
  | inr e ↦ rw (e, v, token_absent c.caller_ip (to_string c.caller_port) e)
]

second_via :
    (proxy_via caller_via : Bytes) (rest : List SipHeader)
    → contains proxy_host proxy_via ≡ true
    → get_in
        (strip_in (header (codes "Via") proxy_via ∷ header (codes "Via") caller_via ∷ rest))
        (codes "Via")
      ≡ caller_via
unfolding strip_in get_in str_eq
second_via proxy_via caller_via rest h = rw h

from_caller_with_via :
    (m : SipMessage) (c : CallContext)
    → contains (caller_token c) (get_header m (codes "Via")) ≡ true
    → is_empty c.caller_ip ≡ false
    → response_from_caller m c ≡ true
unfolding response_from_caller
from_caller_with_via m c h e = rw (e, h)

-- A response whose only Via was the proxy's goes to the caller of its call.
pub bare_response_to_caller :
    (r : SipRouter) (m : SipMessage) (c : CallContext)
    → lookup r.call_contexts (call_id_of m) ≡ some c
    → get_header (strip_proxy_via m) (codes "Via") ≡ []
    → GoesToCaller c (handle_response r m).0
bare_response_to_caller r m c e v =
    rw (response_forwarded r m c e)
      (back_to_caller (strip_proxy_via m) c (from_caller_without_via (strip_proxy_via m) c v))

-- A response that has kept the Via of the caller below the Via of the proxy goes back to the
-- callee, once the address of the callee is known.
pub full_response_to_callee :
    (r : SipRouter) (m : SipMessage) (c : CallContext) (proxy_via caller_via : Bytes)
    (rest : List SipHeader)
    → lookup r.call_contexts (call_id_of m) ≡ some c
    → m.headers ≡ header (codes "Via") proxy_via ∷ header (codes "Via") caller_via ∷ rest
    → contains proxy_host proxy_via ≡ true
    → contains (caller_token c) caller_via ≡ true
    → is_empty c.caller_ip ≡ false
    → is_empty c.callee_ip ≡ false
    → GoesToCallee c (handle_response r m).0
full_response_to_callee r m c proxy_via caller_via rest e h a b d f =
    rw (response_forwarded r m c e) (
      back_to_callee (strip_proxy_via m) c
        (from_caller_with_via (strip_proxy_via m) c
          (rw (h, second_via proxy_via caller_via rest a) b) d)
        f)
