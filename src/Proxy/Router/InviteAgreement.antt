-- ===== src/Proxy/Router/InviteAgreement.antt =====
-- The handler of INVITE, and `route`, on two states that agree on a call.
use minimal_sip_proxy_sip_cl.Base.{
  ℕ, ◌≡◌, refl, ap, false, ◌||◌, Option, none, some, Bytes, codes, str_eq, is_empty, lookup,
  has_key, Result, ok, err, Bool-cases, Result-cases, inl, inr,
}
use minimal_sip_proxy_sip_cl.Sip.Message.{
  TransportType, SipMessage, is_response, is_request, get_method,
}
use minimal_sip_proxy_sip_cl.Proxy.Registration.{ContactEntry}
use minimal_sip_proxy_sip_cl.Proxy.Call.{CallRegistry, create_call}
use minimal_sip_proxy_sip_cl.Proxy.Router.Helpers.{
  SipRouter, RoutingResult, transport_eq, has_required_invite_headers,
}
use minimal_sip_proxy_sip_cl.Proxy.Router.Context.{store_call_context, address_of}
use minimal_sip_proxy_sip_cl.Proxy.Router.Route.{
  route, handle_invite, invite_contact, start_call, forward_invite,
}
use minimal_sip_proxy_sip_cl.Proxy.Router.Invite.{call_id_of, caller_of, callee_of}
use minimal_sip_proxy_sip_cl.Proxy.Router.Agreement.{
  Agree, SameRun, proxy_port_same, insert_same, with_session_same, response-SameRun, ack-SameRun,
  bye-SameRun,
}

-- Two runs that throw alike, or that give the same result and states that agree.
abbrev pub SameOutcome :
    Bytes → Result (RoutingResult × SipRouter) → Result (RoutingResult × SipRouter) → Type 0
SameOutcome id (ok x) (ok y) = SameRun id x y
SameOutcome id (ok x) (err f) = ⊥
SameOutcome id (err e) (ok y) = ⊥
SameOutcome id (err e) (err f) = e ≡ f

module _ (r q : SipRouter) (m : SipMessage) (ip : Bytes) (port : ℕ) (t : TransportType)
    (a : Agree (call_id_of m) r q) where
  abbrev id : Bytes
  id = call_id_of m

  forward_invite_same :
      (callee : Bytes) (entry : ContactEntry)
      → forward_invite r m callee entry ≡ forward_invite q m callee entry
  unfolding forward_invite
  forward_invite_same callee entry = rw (proxy_port_same id r q a entry.transport) refl

  start_call-SameOutcome :
      (caller callee : Bytes) (entry : ContactEntry) (calls others : CallRegistry)
      → lookup calls id ≡ lookup others id
      → SameOutcome id
          (start_call r m caller callee entry ip port t (some calls))
          (start_call q m caller callee entry ip port t (some others))
  unfolding start_call store_call_context
  start_call-SameOutcome caller callee entry calls others h =
      elim (Result-cases (address_of entry.contact)) [
        | inr (x, e) ↦ rw e refl
        | inl (address, e) ↦ rw e (
          forward_invite_same callee entry,
          record {
            table = a.table;
            udp_port = a.udp_port;
            tcp_port = a.tcp_port;
            session = with_session_same id calls others _ h;
            context = insert_same id r.call_contexts q.call_contexts _ _ (rw a.table refl);
          },
        )
      ]

  refused-SameOutcome :
      (caller callee : Bytes) (entry : ContactEntry)
      → SameOutcome id
          (start_call r m caller callee entry ip port t none)
          (start_call q m caller callee entry ip port t none)
  unfolding start_call
  refused-SameOutcome caller callee entry = (refl, a)

  has_key_same : has_key r.registry id ≡ has_key q.registry id
  has_key_same = rw (has_key, a.session) refl

  created-SameOutcome :
      (caller callee : Bytes) (entry : ContactEntry)
      → SameOutcome id
          (start_call r m caller callee entry ip port t (create_call r.registry id caller callee))
          (start_call q m caller callee entry ip port t (create_call q.registry id caller callee))
  unfolding create_call
  created-SameOutcome caller callee entry = elim (Bool-cases (has_key q.registry id)) [
    | inl e ↦ rw (has_key_same, e) (refused-SameOutcome caller callee entry)
    | inr e ↦
        rw (has_key_same, e)
          (start_call-SameOutcome caller callee entry _ _
            (insert_same id r.registry q.registry _ _ refl))
  ]

  contact-SameOutcome :
      (caller callee : Bytes) (found : Option ContactEntry)
      → SameOutcome id
          (invite_contact r m caller callee ip port t found)
          (invite_contact q m caller callee ip port t found)
  unfolding invite_contact
  contact-SameOutcome caller callee none = (refl, a)
  contact-SameOutcome caller callee (some entry) =
      elim (Bool-cases (transport_eq entry.transport t)) [
        | inl e ↦ rw e (created-SameOutcome caller callee entry)
        | inr e ↦ rw e (refl, a)
      ]

  found-SameOutcome :
      (caller callee : Bytes) (found other : Option ContactEntry)
      → found ≡ other
      → SameOutcome id
          (invite_contact r m caller callee ip port t found)
          (invite_contact q m caller callee ip port t other)
  found-SameOutcome caller callee found other e = rw e (contact-SameOutcome caller callee other)

  invite-SameOutcome : SameOutcome id (handle_invite r m ip port t) (handle_invite q m ip port t)
  unfolding handle_invite
  invite-SameOutcome = elim (Bool-cases (has_required_invite_headers m)) [
    | inr e ↦ rw e (refl, a)
    | inl e1 ↦ elim (Bool-cases (is_empty (caller_of m) || is_empty (callee_of m))) [
      | inl e ↦ rw (e1, e) (refl, a)
      | inr e2 ↦ elim (Bool-cases (str_eq (caller_of m) (callee_of m))) [
        | inl e ↦ rw (e1, e2, e) (refl, a)
        | inr e3 ↦
            rw (e1, e2, e3)
              (found-SameOutcome (caller_of m) (callee_of m) _ _
                (ap (λ table. lookup table (callee_of m)) a.table))
      ]
    ]
  ]

  -- `route` on a message of the call that is no REGISTER.
  pub route-SameOutcome :
      str_eq (get_method m) (codes "REGISTER") ≡ false
      → SameOutcome id (route r m ip port t) (route q m ip port t)
  unfolding route
  route-SameOutcome other = elim (Bool-cases (is_response m)) [
    | inl e ↦ rw e (response-SameRun id r q m refl a)
    | inr e1 ↦ elim (Bool-cases (is_request m)) [
      | inr e ↦ rw (e1, e) (refl, a)
      | inl e2 ↦ elim (Bool-cases (str_eq (get_method m) (codes "INVITE"))) [
        | inl e ↦ rw (e1, e2, other, e) invite-SameOutcome
        | inr e3 ↦ elim (Bool-cases (str_eq (get_method m) (codes "ACK"))) [
          | inl e ↦ rw (e1, e2, other, e3, e) (ack-SameRun id r q m refl a)
          | inr e4 ↦ elim (Bool-cases (str_eq (get_method m) (codes "BYE"))) [
            | inl e ↦ rw (e1, e2, other, e3, e4, e) (bye-SameRun id r q m refl a)
            | inr e5 ↦ rw (e1, e2, other, e3, e4, e5) (refl, a)
          ]
        ]
      ]
    ]
  ]
