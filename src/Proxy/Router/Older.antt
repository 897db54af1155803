-- ===== src/Proxy/Router/Older.antt =====
-- What a message other than REGISTER and INVITE leaves of the registrations and of the contacts
-- that calls are forwarded to.
use minimal_sip_proxy_sip_cl.Base.{
  ℕ, ◌≡◌, refl, ◌∙◌, Option, none, some, arith, Bytes, codes, str_eq, str_eq_iff, lookup,
  lookup-insert, lookup-erase, Bool-cases, inl, inr,
}
use minimal_sip_proxy_sip_cl.Sip.Message.{SipMessage, get_header}
use minimal_sip_proxy_sip_cl.Proxy.Router.Helpers.{SipRouter, CallContext, strip_proxy_via}
use minimal_sip_proxy_sip_cl.Proxy.Router.Context.{
  ack_in, bye_in, session_request, drop_call, is_over,
}
use minimal_sip_proxy_sip_cl.Proxy.Router.Response.{
  response_in, after_response, session_response, store_answer, on_answer, on_decline, on_end,
  answers, with_answer,
}

-- The registrations are the same, and a context that is there was there with its contact.
pub record Older (r r' : SipRouter) : Type 0 where
  pub table : r'.table ≡ r.table
  pub contexts :
      (k : Bytes) (c' : CallContext)
      → lookup r'.call_contexts k ≡ some c'
      → (c : CallContext) × (lookup r.call_contexts k ≡ some c)
        × (c'.callee_contact ≡ c.callee_contact)

pub Older-refl : (r : SipRouter) → Older r r
Older-refl r = record { table = refl; contexts = λ k c e. (c, e, refl) }

Older-trans : {r s t : SipRouter} → Older r s → Older s t → Older r t
Older-trans a b = record {
  table = b.table ∙ a.table;
  contexts = λ k c e.
      let (c1, e1, f1) = b.contexts k c e in
      let (c2, e2, f2) = a.contexts k c1 e1 in (c2, e2, f1 ∙ f2);
}

drop_call-Older : (r : SipRouter) (id : Bytes) → Older r (drop_call r id)
drop_call-Older r id = record {
  table = refl;
  contexts = λ k c e. elim (Bool-cases (str_eq id k)) [
    | inl same ↦ absurd (ground (arith, lookup-erase r.call_contexts id k))
    | inr other ↦ (c, ground (arith, lookup-erase r.call_contexts id k), refl)
  ];
}

session_request-Older :
    (r : SipRouter) (m : SipMessage) (id : Bytes) → Older r (session_request r m id)
session_request-Older r m id = record { table = refl; contexts = λ k c e. (c, e, refl) }

session_response-Older :
    (r : SipRouter) (m : SipMessage) (id : Bytes) → Older r (session_response r m id)
session_response-Older r m id = record { table = refl; contexts = λ k c e. (c, e, refl) }

store_answer-Older :
    (r : SipRouter) (m : SipMessage) (id : Bytes) (o : Option CallContext)
    → lookup r.call_contexts id ≡ o
    → Older r (store_answer r m id o)
unfolding store_answer
store_answer-Older r m id none f = Older-refl r
store_answer-Older r m id (some old) f = record {
  table = refl;
  contexts = λ k c e. elim (Bool-cases (str_eq id k)) [
    | inl same ↦
        let at = lookup-insert r.call_contexts id k (with_answer m old) in
        (old, ground (arith, str_eq_iff id k), ground (arith, at))
    | inr other ↦ (c, ground (arith, lookup-insert r.call_contexts id k (with_answer m old)), refl)
  ];
}

on_answer-Older : (r : SipRouter) (m : SipMessage) (id : Bytes) → Older r (on_answer r m id)
unfolding on_answer
on_answer-Older r m id = elim (Bool-cases (answers m 200 (codes "INVITE"))) [
  | inl e ↦ rw e (store_answer-Older r m id _ refl)
  | inr e ↦ rw e (Older-refl r)
]

on_decline-Older : (r : SipRouter) (m : SipMessage) → Older r (on_decline r m)
unfolding on_decline
on_decline-Older r m = elim (Bool-cases (answers m 603 (codes "INVITE"))) [
  | inl e ↦ rw e (record { table = refl; contexts = λ k c x. (c, x, refl) })
  | inr e ↦ rw e (Older-refl r)
]

on_end-Older :
    (r : SipRouter) (m : SipMessage) (id : Bytes) (code : ℕ) (method : Bytes)
    → Older r (on_end r m id code method)
unfolding on_end
on_end-Older r m id code method = elim (Bool-cases (answers m code method)) [
  | inl e ↦ let d = drop_call-Older r id in rw e (record { table = refl; contexts = d.contexts })
  | inr e ↦ rw e (Older-refl r)
]

after_response-Older :
    (r : SipRouter) (m : SipMessage) (id : Bytes) → Older r (after_response r m id)
unfolding after_response
after_response-Older r m id = Older-trans (session_response-Older r m id) (
    Older-trans (on_answer-Older _ m id) (
      Older-trans (on_decline-Older _ m) (
        Older-trans (on_end-Older _ m id 200 (codes "BYE"))
          (on_end-Older _ m id 486 (codes "INVITE")))))

pub response_in-Older :
    (r : SipRouter) (m : SipMessage) (o : Option CallContext) → Older r (response_in r m o).1
unfolding response_in
response_in-Older r m none = Older-refl r
response_in-Older r m (some c) = after_response-Older r (strip_proxy_via m) _

pub bye_in-Older :
    (r : SipRouter) (m : SipMessage) (o : Option CallContext) → Older r (bye_in r m o).1
unfolding bye_in
bye_in-Older r m none = Older-refl r
bye_in-Older r m (some c) = session_request-Older r m _

pub ack_in-Older :
    (r : SipRouter) (m : SipMessage) (o : Option CallContext) → Older r (ack_in r m o).1
unfolding ack_in
ack_in-Older r m none = Older-refl r
ack_in-Older r m (some c) =
    let id = get_header m (codes "Call-ID") in
    elim (Bool-cases (is_over (session_request r m id) id)) [
      | inl e ↦ rw e (Older-trans (session_request-Older r m id) (drop_call-Older _ id))
      | inr e ↦ rw e (session_request-Older r m id)
    ]
