-- ===== src/Proxy/Router/Headers.antt =====
-- What the router does to the headers of a message: the Via that it adds and strips, the headers
-- of a local response, and the stored headers that it restores.
use minimal_sip_proxy_sip_cl.Base.{
  ℕ, ◌≡◌, refl, ap, true, false, Option, none, some, List, [], ◌∷◌, arith, Bytes, codes, str_eq,
  str_eq_iff, find, contains, if◌then◌else◌, Dict, lookup, Bool-cases, inl, inr,
}
use minimal_sip_proxy_sip_cl.Sip.Message.{
  TransportType, udp, tcp, SipHeader, header, SipMessage, get_in, has_in, get_header, has_header,
  prepend_header,
}
use minimal_sip_proxy_sip_cl.Sip.Message.Laws.{get_in-append, has_in-append}
use minimal_sip_proxy_sip_cl.Proxy.Registration.{ContactEntry}
use minimal_sip_proxy_sip_cl.Proxy.Router.Helpers.{
  SipRouter, CallContext, proxy_host, build_proxy_via, strip_in, strip_proxy_via,
  make_error_response, extract_sip_identity,
}
use minimal_sip_proxy_sip_cl.Proxy.Router.Context.{forward_within}
use minimal_sip_proxy_sip_cl.Proxy.Router.Response.{is_standard, restore_header, restore_headers}
use minimal_sip_proxy_sip_cl.Proxy.Router.Route.{forward_invite}

proxy_via_found :
    (t : TransportType) (port : ℕ) → contains proxy_host (build_proxy_via t port) ≡ true
unfolding build_proxy_via find
proxy_via_found udp port = refl
proxy_via_found tcp port = refl

strip-proxy_via :
    (t : TransportType) (port : ℕ) (hs : List SipHeader)
    → strip_in (header (codes "Via") (build_proxy_via t port) ∷ hs) ≡ hs
unfolding strip_in str_eq
strip-proxy_via t port hs = rw (proxy_via_found t port)

strip-prepend :
    (t : TransportType) (port : ℕ) (m : SipMessage)
    → strip_proxy_via (prepend_header m (codes "Via") (build_proxy_via t port)) ≡ m
strip-prepend t port m = ap (λ hs. record m { headers = hs }) (strip-proxy_via t port m.headers)

-- Stripping the Via of the proxy from a request that the proxy forwards, an INVITE or a request
-- inside a call, gives back the request that came in.
pub strip-forward :
    (r : SipRouter) (m : SipMessage) (c : CallContext) (callee : Bytes) (entry : ContactEntry)
    → (strip_proxy_via (forward_within r m c).message ≡ m)
      × (strip_proxy_via (forward_invite r m callee entry).message ≡ m)
unfolding forward_within forward_invite
strip-forward r m c callee entry = (
  elim (Bool-cases (str_eq (extract_sip_identity (get_header m (codes "From"))) c.caller)) [
    | inl from_caller ↦ rw from_caller (strip-prepend _ _ m)
    | inr from_callee ↦ rw from_callee (strip-prepend _ _ m)
  ],
  strip-prepend _ _ m,
)

no_header : (hs : List SipHeader) (k : Bytes) → has_in hs k ≡ false → get_in hs k ≡ []
unfolding get_in has_in
no_header [] k h = refl
no_header (x ∷ hs) k h = ground (arith, no_header hs k)

-- A local response has the status as its start line, an empty body and, as in the request, the
-- values of Via, From, To, Call-ID and CSeq; its Content-Length is 0.
pub make_error_response_echoes :
    (status : Bytes) (m : SipMessage)
    → let response = make_error_response status m in
      (response.start_line ≡ status)
      × (response.body ≡ [])
      × (get_header response (codes "Via") ≡ get_header m (codes "Via"))
      × (get_header response (codes "From") ≡ get_header m (codes "From"))
      × (get_header response (codes "To") ≡ get_header m (codes "To"))
      × (get_header response (codes "Call-ID") ≡ get_header m (codes "Call-ID"))
      × (get_header response (codes "CSeq") ≡ get_header m (codes "CSeq"))
      × (get_header response (codes "Content-Length") ≡ codes "0")
unfolding make_error_response get_in str_eq
make_error_response_echoes status m = (
  ground arith,
  ground arith,
  ground arith,
  ground arith,
  ground arith,
  ground arith,
  ground arith,
  ground arith,
)

abbrev pub stored_value : Option Bytes → Bytes
stored_value none = []
stored_value (some v) = v

-- A response that is forwarded keeps the value of every header that it has; of the headers that
-- it lacks it takes each one that is stored for the call and is not a standard header.
pub get_header-restore_headers :
    (stored : Dict Bytes) (m : SipMessage) (k : Bytes)
    → get_header (restore_headers m stored) k ≡ (
        if has_header m k
        then get_header m k
        else if is_standard k
        then []
        else stored_value (lookup stored k))
unfolding restore_headers restore_header lookup get_in has_in
get_header-restore_headers [] m k = ground (arith, no_header m.headers k)
get_header-restore_headers ((n, v) ∷ stored) m k = ground (
  arith,
  str_eq_iff n k,
  no_header m.headers k,
  get_in-append m.headers (header n v ∷ []) k,
  has_in-append m.headers (header n v ∷ []) k,
  get_header-restore_headers stored (restore_header m (n, v)) k,
)
