-- ===== src/Proxy/Router/Placing.antt =====
-- When an INVITE places a call.
use minimal_sip_proxy_sip_cl.Base.{
  ℕ, ◌≡◌, ◌≢◌, refl, true, false, none, some, arith, Bytes, str_eq, str_eq_iff, has_key, is_empty,
  lookup, insert, ok, Bool-cases, inl, inr,
}
use minimal_sip_proxy_sip_cl.Sip.Message.{TransportType, SipMessage}
use minimal_sip_proxy_sip_cl.Proxy.Metrics.{inc_active_calls}
use minimal_sip_proxy_sip_cl.Proxy.Registration.{ContactEntry}
use minimal_sip_proxy_sip_cl.Proxy.Call.{create_call, with_session, on_request}
use minimal_sip_proxy_sip_cl.Proxy.Router.Helpers.{
  SipRouter, respond_locally, has_required_invite_headers, transport_eq,
}
use minimal_sip_proxy_sip_cl.Proxy.Router.Context.{new_context, store_call_context, address_of}
use minimal_sip_proxy_sip_cl.Proxy.Router.Route.{
  handle_invite, invite_contact, start_call, forward_invite,
}
use minimal_sip_proxy_sip_cl.Proxy.Router.Invite.{
  call_id_of, caller_of, callee_of, Placed, invite_cases, new_session,
}

-- What it takes.
pub record CanPlace (r : SipRouter) (m : SipMessage) (t : TransportType) (entry : ContactEntry)
    (address : Bytes × ℕ) : Type 0 where
  pub complete : has_required_invite_headers m ≡ true
  pub caller_given : is_empty (caller_of m) ≡ false
  pub callee_given : is_empty (callee_of m) ≡ false
  pub distinct : caller_of m ≢ callee_of m
  pub registered : lookup r.table (callee_of m) ≡ some entry
  pub same_transport : entry.transport ≡ t
  pub fresh : lookup r.registry (call_id_of m) ≡ none
  pub addressed : address_of entry.contact ≡ ok address

module _ (r : SipRouter) (m : SipMessage) (ip : Bytes) (port : ℕ) (t : TransportType)
    (entry : ContactEntry) (address : Bytes × ℕ) (can : CanPlace r m t entry address) where
  differ : str_eq (caller_of m) (callee_of m) ≡ false
  differ = elim (Bool-cases (str_eq (caller_of m) (callee_of m))) [
    | inl same ↦ absurd (can.distinct ((str_eq_iff _ _).0 same))
    | inr other ↦ other
  ]

  create_some :
      create_call r.registry (call_id_of m) (caller_of m) (callee_of m)
      ≡ some (insert r.registry (call_id_of m) (new_session m))
  unfolding create_call
  create_some =
      let free : has_key r.registry (call_id_of m) ≡ false = rw (has_key, can.fresh) refl in
      rw free refl

  transport_eq_refl : (a b : TransportType) → a ≡ b → transport_eq a b ≡ true
  transport_eq_refl a b e = ground arith

  -- The state after it.
  abbrev pub after_invite : SipRouter
  after_invite = record r {
    registry =
        with_session (insert r.registry (call_id_of m) (new_session m)) (call_id_of m)
          (on_request m);
    call_contexts = insert r.call_contexts (call_id_of m) (
        new_context r.table m (caller_of m) (callee_of m) entry.contact ip port t entry.transport
          address);
    metrics = inc_active_calls r.metrics;
  }

  pub invite_forwarded :
      handle_invite r m ip port t ≡ ok (forward_invite r m (callee_of m) entry, after_invite)
  unfolding handle_invite invite_contact start_call store_call_context
  invite_forwarded =
      rw
        (
          can.complete,
          can.caller_given,
          can.callee_given,
          differ,
          can.registered,
          transport_eq_refl entry.transport t can.same_transport,
          create_some,
          can.addressed,
        )
        refl

  not_local : (forward_invite r m (callee_of m) entry).action ≢ respond_locally
  unfolding forward_invite
  not_local e = absurd (cc e)

  -- An INVITE with complete headers, whose two parties are given and distinct, whose callee is
  -- registered over its transport with a contact that has an address, and whose Call-ID is new,
  -- places the call.
  pub invite_goes_out :
      (r' : SipRouter) × (handle_invite r m ip port t
        ≡ ok (forward_invite r m (callee_of m) entry, r'))
      × Placed r m ip port t (forward_invite r m (callee_of m) entry) r'
  invite_goes_out = elim (invite_cases r m ip port t _ after_invite invite_forwarded) [
    | inr placed ↦ (after_invite, invite_forwarded, placed)
    | inl refused ↦ absurd (not_local (refused.local))
  ]
