-- ===== src/Proxy/Router/Sound.antt =====
-- When routing throws, for the contacts that are registered.
use mathlib.Core.Path.{subst}
use minimal_sip_proxy_sip_cl.Base.{
  ℕ, ◌≡◌, refl, sym, ap, ◌∙◌, ◌&&◌, Option, none, some, arith, Bytes, codes, str_eq, str_eq_iff,
  lookup, lookup-insert, ok, err, Bool-cases, Result-cases, inl, inr, Exception,
}
use minimal_sip_proxy_sip_cl.Sip.Message.{TransportType, SipMessage, get_header, get_method}
use minimal_sip_proxy_sip_cl.Proxy.Address.{Addresses, address_of_lem}
use minimal_sip_proxy_sip_cl.Proxy.Registration.{ContactEntry, handle}
use minimal_sip_proxy_sip_cl.Proxy.Registration.Laws.{accepts, handle_lem}
use minimal_sip_proxy_sip_cl.Proxy.Registration
use minimal_sip_proxy_sip_cl.Proxy.Call.{CallRegistry, create_call}
use minimal_sip_proxy_sip_cl.Proxy.Router.Helpers.{
  has_required_register_headers, extract_sip_identity, SipRouter, CallContext, RoutingResult,
}
use minimal_sip_proxy_sip_cl.Proxy.Router.Context.{
  store_call_context, handle_ack, handle_bye, ack_in, bye_in, forward_within, new_context,
}
use minimal_sip_proxy_sip_cl.Proxy.Router.Response.{handle_response, response_in, forward_back}
use minimal_sip_proxy_sip_cl.Proxy.Router.Route.{
  route, handle_invite, invite_contact, start_call, handle_register, forward_invite,
}
use minimal_sip_proxy_sip_cl.Proxy.Router.Invite.{
  Placed, invite_cases, call_id_of, callee_of, caller_of,
}
use minimal_sip_proxy_sip_cl.Proxy.Router.Cases.{route_cases}
use minimal_sip_proxy_sip_cl.Proxy.Router.Older.{
  Older, response_in-Older, ack_in-Older, bye_in-Older,
}

-- The contact is of the form "…@ip:port…" with a port below 2^16.
pub record HasAddress (contact : Bytes) : Type 0 where
  pub ip : Bytes
  pub port : ℕ
  pub at : Addresses contact ip port

-- Every contact that the router may forward to has an address.
pub record IsSound (r : SipRouter) : Type 0 where
  pub registered : (u : Bytes) (e : ContactEntry) → lookup r.table u ≡ some e → HasAddress e.contact
  pub called :
      (k : Bytes) (c : CallContext)
      → lookup r.call_contexts k ≡ some c
      → HasAddress c.callee_contact

-- A request is forwarded to an address, or to a contact that has one.
pub record IsDeliverable (result : RoutingResult) : Type 0 where
  pub contact : (c : Bytes) → result.contact ≡ some c → HasAddress c

Older-IsSound : {r r' : SipRouter} → Older r r' → IsSound r → IsSound r'
Older-IsSound o s = record {
  registered = λ u e h. s.registered u e (rw (← o.table) h);
  called = λ k c h. let (c', at, same) = o.contexts k c h in rw same (s.called k c' at);
}

module _ (r : SipRouter) (m : SipMessage) (ip : Bytes) (port : ℕ) (t : TransportType)
    (s : IsSound r) where
  start_call_total :
      (entry : ContactEntry) (calls : Option CallRegistry)
      → HasAddress entry.contact
      → (x : Exception) → start_call r m (caller_of m) (callee_of m) entry ip port t calls ≡ err x
      → ⊥
  unfolding start_call store_call_context
  start_call_total entry none a x h = cc
  start_call_total entry (some calls) a x h = let found = address_of_lem a.at in ground arith

  invite_contact_total :
      (found : Option ContactEntry)
      → lookup r.table (callee_of m) ≡ found
      → (x : Exception) → invite_contact r m (caller_of m) (callee_of m) ip port t found ≡ err x
      → ⊥
  unfolding invite_contact
  invite_contact_total none e x h = cc
  invite_contact_total (some entry) e x h = ground (
    arith,
    start_call_total entry (create_call r.registry (call_id_of m) (caller_of m) (callee_of m))
        (s.registered (callee_of m) entry e) x,
  )

  handle_invite_total : (x : Exception) → handle_invite r m ip port t ≡ err x → ⊥
  unfolding handle_invite
  handle_invite_total x h =
      ground (arith, invite_contact_total (lookup r.table (callee_of m)) refl x)

  route_total : (x : Exception) → route r m ip port t ≡ err x → ⊥
  unfolding route
  route_total x h = ground (arith, handle_invite_total x)

-- What a routing decision leaves: a sound state, and a decision that can be carried out.
pub record Delivers (result : RoutingResult) (r' : SipRouter) : Type 0 where
  pub sound : IsSound r'
  pub deliverable : IsDeliverable result

no_contact : (result : RoutingResult) → result.contact ≡ none → IsDeliverable result
no_contact result e = record { contact = λ c h. absurd (ground arith) }

forward_within-IsDeliverable :
    (r : SipRouter) (m : SipMessage) (c : CallContext)
    → HasAddress c.callee_contact
    → IsDeliverable (forward_within r m c)
unfolding forward_within
forward_within-IsDeliverable r m c a = record {
  contact = λ k h.
      elim (Bool-cases (str_eq (extract_sip_identity (get_header m (codes "From"))) c.caller)) [
        | inl e ↦ subst HasAddress (ground arith) a
        | inr e ↦ absurd (ground arith)
      ];
}

register-IsSound :
    (r : SipRouter) (m : SipMessage) (t : TransportType)
    → HasAddress (get_header m (codes "Contact"))
    → IsSound r
    → IsSound (record r {
      table = (handle r.table r.metrics m t).1;
      metrics = (handle r.table r.metrics m t).2;
    })
register-IsSound r m t a s = record {
  registered = λ u e h.
      let law = (handle_lem r.table r.metrics m t u).0 in
      elim (Bool-cases
        (accepts m && str_eq (Registration.extract_sip_identity (get_header m (codes "From"))) u)) [
          | inl own ↦ subst HasAddress (ground arith) a
          | inr other ↦ s.registered u e (ground arith)
        ];
  called = s.called;
}

handle_register-Delivers :
    (r : SipRouter) (m : SipMessage) (t : TransportType)
    → HasAddress (get_header m (codes "Contact"))
    → IsSound r
    → Delivers (handle_register r m t).0 (handle_register r m t).1
unfolding handle_register
handle_register-Delivers r m t a s = elim (Bool-cases (has_required_register_headers m)) [
  | inl e ↦ rw e (record { sound = register-IsSound r m t a s; deliverable = no_contact _ refl })
  | inr e ↦ rw e (record { sound = s; deliverable = no_contact _ refl })
]

Placed-Delivers :
    {r : SipRouter} {m : SipMessage} {ip : Bytes} {port : ℕ} {t : TransportType}
    {result : RoutingResult} {r' : SipRouter}
    → IsSound r
    → Placed r m ip port t result r'
    → Delivers result r'
unfolding new_context forward_invite
Placed-Delivers {r} {m} {ip} {port} {t} {result} {r'} s p =
    let a = s.registered (callee_of m) p.entry p.registered in
    let c =
      new_context r.table m (caller_of m) (callee_of m) p.entry.contact ip port t p.entry.transport
        p.address in
    record {
      sound = record {
        registered = λ u e h. s.registered u e (rw p.after at h);
        called = λ k d h.
            let law = lookup-insert r.call_contexts (call_id_of m) k c in
            let h' = ap (λ (q : SipRouter). lookup q.call_contexts k) (sym p.after) ∙ h in
            elim (Bool-cases (str_eq (call_id_of m) k)) [
              | inl own ↦ subst HasAddress (ground arith) a
              | inr other ↦ s.called k d (ground arith)
            ];
      };
      deliverable = record { contact = λ k h. subst HasAddress (ground arith) a };
    }

within-Delivers :
    (r r' : SipRouter) (m : SipMessage) (c : CallContext)
    → lookup r.call_contexts (call_id_of m) ≡ some c
    → IsSound r
    → Older r r'
    → Delivers (forward_within r m c) r'
within-Delivers r r' m c e s o = record {
  sound = Older-IsSound o s;
  deliverable = forward_within-IsDeliverable r m c (s.called _ c e);
}

module _ (r : SipRouter) (m : SipMessage) (s : IsSound r) where
  ack-Delivers :
      (o : Option CallContext)
      → lookup r.call_contexts (call_id_of m) ≡ o
      → Delivers (ack_in r m o).0 (ack_in r m o).1
  unfolding ack_in
  ack-Delivers none e = record { sound = s; deliverable = no_contact _ refl }
  ack-Delivers (some c) e = within-Delivers r _ m c e s (ack_in-Older r m (some c))

  bye-Delivers :
      (o : Option CallContext)
      → lookup r.call_contexts (call_id_of m) ≡ o
      → Delivers (bye_in r m o).0 (bye_in r m o).1
  unfolding bye_in
  bye-Delivers none e = record { sound = s; deliverable = no_contact _ refl }
  bye-Delivers (some c) e = within-Delivers r _ m c e s (bye_in-Older r m (some c))

  response-Delivers :
      (o : Option CallContext) → Delivers (response_in r m o).0 (response_in r m o).1
  unfolding response_in forward_back
  response-Delivers none = record { sound = s; deliverable = no_contact _ refl }
  response-Delivers (some c) = record {
    sound = Older-IsSound (response_in-Older r m (some c)) s;
    deliverable = no_contact _ refl;
  }

-- In a state where every contact to forward to has an address, a message, which brings a contact
-- with an address if it is a REGISTER, is routed without an exception, into such a state again,
-- and a request is forwarded to a contact with an address or to a plain address.
pub route-Delivers :
    (r : SipRouter) (m : SipMessage) (ip : Bytes) (port : ℕ) (t : TransportType)
    → IsSound r
    → (get_method m ≡ codes "REGISTER" → HasAddress (get_header m (codes "Contact")))
    → (result : RoutingResult) × (r' : SipRouter) × (route r m ip port t ≡ ok (result, r'))
      × Delivers result r'
unfolding handle_response handle_ack handle_bye
route-Delivers r m ip port t s h = elim (Result-cases (route r m ip port t)) [
  | inr (x, thrown) ↦ absurd (route_total r m ip port t s x thrown)
  | inl (y, e) ↦ (
    y.0,
    y.1,
    e,
    route_cases Delivers y.0 y.1 r m ip port t (λ _. response-Delivers r m s _)
        (λ x q. record { sound = s; deliverable = no_contact x q })
        (λ q. handle_register-Delivers r m t (h ((str_eq_iff _ _).0 q)) s)
        (λ done. elim (invite_cases r m ip port t y.0 y.1 done) [
          | inl refused ↦ record {
            sound = rw refused.same s;
            deliverable = no_contact y.0 refused.plain;
          }
          | inr placed ↦ Placed-Delivers s placed
        ])
        (ack-Delivers r m s _ refl) (bye-Delivers r m s _ refl) e,
  )
]
