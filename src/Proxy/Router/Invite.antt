-- ===== src/Proxy/Router/Invite.antt =====
-- What an INVITE does that does not throw.
use minimal_sip_proxy_sip_cl.Base.{
  ℕ, ◌≡◌, ◌≢◌, refl, true, false, ◌||◌, Option, none, some, arith, Bytes, codes, str_eq, str_eq_iff,
  is_empty, lookup, insert, ok, Result-cases, Bool-cases, inl, inr, ◌⊎◌,
}
use minimal_sip_proxy_sip_cl.Sip.Message.{TransportType, SipMessage, get_header}
use minimal_sip_proxy_sip_cl.Proxy.Metrics.{inc_active_calls}
use minimal_sip_proxy_sip_cl.Proxy.Registration.{ContactEntry}
use minimal_sip_proxy_sip_cl.Proxy.Call.{
  CallSession, CallRegistry, with_session, create_call, on_request, init,
}
use minimal_sip_proxy_sip_cl.Proxy.Router.Helpers.{
  SipRouter, RoutingResult, respond_locally, has_required_invite_headers, extract_sip_identity,
  transport_eq,
}
use minimal_sip_proxy_sip_cl.Proxy.Router.Context.{store_call_context, address_of, new_context}
use minimal_sip_proxy_sip_cl.Proxy.Router.Route.{
  handle_invite, invite_contact, start_call, forward_invite,
}

abbrev pub call_id_of : SipMessage → Bytes
call_id_of m = get_header m (codes "Call-ID")

abbrev pub caller_of : SipMessage → Bytes
caller_of m = extract_sip_identity (get_header m (codes "From"))

abbrev pub callee_of : SipMessage → Bytes
callee_of m = extract_sip_identity (get_header m (codes "To"))

abbrev pub new_session : SipMessage → CallSession
new_session m = record {
  call_id = call_id_of m;
  caller = caller_of m;
  callee = callee_of m;
  state = init;
}

-- A call was placed: why it could be, where the INVITE goes, and the state after it.
pub record Placed (r : SipRouter) (m : SipMessage) (ip : Bytes) (port : ℕ) (t : TransportType)
    (result : RoutingResult) (r' : SipRouter) : Type 0 where
  pub entry : ContactEntry
  pub address : Bytes × ℕ
  pub complete : has_required_invite_headers m ≡ true
  pub caller_given : is_empty (caller_of m) ≡ false
  pub callee_given : is_empty (callee_of m) ≡ false
  pub distinct : caller_of m ≢ callee_of m
  pub registered : lookup r.table (callee_of m) ≡ some entry
  pub same_transport : entry.transport ≡ t
  pub fresh : lookup r.registry (call_id_of m) ≡ none
  pub addressed : address_of entry.contact ≡ ok address
  pub forwarded : result ≡ forward_invite r m (callee_of m) entry
  pub after : r' ≡ record r {
    registry =
        with_session
          (insert r.registry (call_id_of m) (new_session m))
          (call_id_of m)
          (on_request m);
    call_contexts = insert r.call_contexts (call_id_of m) (
        new_context r.table m
          (caller_of m)
          (callee_of m)
          entry.contact
          ip
          port
          t
          entry.transport
          address);
    metrics = inc_active_calls r.metrics;
  }

-- A refusal changes nothing and answers the sender.
pub record Refused (r : SipRouter) (result : RoutingResult) (r' : SipRouter) : Type 0 where
  pub local : result.action ≡ respond_locally
  pub plain : result.contact ≡ none
  pub same : r' ≡ r

module _ (r : SipRouter) (m : SipMessage) (ip : Bytes) (port : ℕ) (t : TransportType)
    (result : RoutingResult) (r' : SipRouter) where
  start_call-none :
      (entry : ContactEntry)
      → start_call r m (caller_of m) (callee_of m) entry ip port t none ≡ ok (result, r')
      → Refused r result r'
  unfolding start_call
  start_call-none entry h = ground arith

  created :
      (calls : CallRegistry)
      → create_call r.registry (call_id_of m) (caller_of m) (callee_of m) ≡ some calls
      → (lookup r.registry (call_id_of m) ≡ none)
        × (calls ≡ insert r.registry (call_id_of m) (new_session m))
  unfolding create_call
  created calls e = (ground arith, ground arith)

  start_call-some :
      (entry : ContactEntry) (calls : CallRegistry)
      → has_required_invite_headers m ≡ true
      → is_empty (caller_of m) ≡ false
      → is_empty (callee_of m) ≡ false
      → caller_of m ≢ callee_of m
      → lookup r.table (callee_of m) ≡ some entry
      → entry.transport ≡ t
      → create_call r.registry (call_id_of m) (caller_of m) (callee_of m) ≡ some calls
      → start_call r m (caller_of m) (callee_of m) entry ip port t (some calls) ≡ ok (result, r')
      → Placed r m ip port t result r'
  unfolding start_call store_call_context
  start_call-some entry calls a b c d e f g h = elim (Result-cases (address_of entry.contact)) [
    | inl (address, found) ↦ record {
      entry = entry;
      address = address;
      complete = a;
      caller_given = b;
      callee_given = c;
      distinct = d;
      registered = e;
      same_transport = f;
      fresh = (created calls g).0;
      addressed = found;
      forwarded = ground arith;
      after = ground (arith, created calls g);
    }
    | inr (x, thrown) ↦ absurd (ground arith)
  ]

  start_call_cases :
      (entry : ContactEntry) (calls : Option CallRegistry)
      → has_required_invite_headers m ≡ true
      → is_empty (caller_of m) ≡ false
      → is_empty (callee_of m) ≡ false
      → caller_of m ≢ callee_of m
      → lookup r.table (callee_of m) ≡ some entry
      → entry.transport ≡ t
      → create_call r.registry (call_id_of m) (caller_of m) (callee_of m) ≡ calls
      → start_call r m (caller_of m) (callee_of m) entry ip port t calls ≡ ok (result, r')
      → Refused r result r' ⊎ Placed r m ip port t result r'
  start_call_cases entry none a b c d e f g h = inl (start_call-none entry h)
  start_call_cases entry (some calls) a b c d e f g h =
      inr (start_call-some entry calls a b c d e f g h)

  transport_eq_iff : (a b : TransportType) → transport_eq a b ≡ true → a ≡ b
  transport_eq_iff a b h = ground arith

  invite_contact_cases :
      (found : Option ContactEntry)
      → has_required_invite_headers m ≡ true
      → is_empty (caller_of m) ≡ false
      → is_empty (callee_of m) ≡ false
      → caller_of m ≢ callee_of m
      → lookup r.table (callee_of m) ≡ found
      → invite_contact r m (caller_of m) (callee_of m) ip port t found ≡ ok (result, r')
      → Refused r result r' ⊎ Placed r m ip port t result r'
  unfolding invite_contact
  invite_contact_cases none a b c d e h = inl (ground arith)
  invite_contact_cases (some entry) a b c d e h =
      elim (Bool-cases (transport_eq entry.transport t)) [
        | inl same ↦
            start_call_cases entry _ a b c d e (transport_eq_iff entry.transport t same) refl
              (rw same at h)
        | inr other ↦ inl (ground arith)
      ]

  -- An INVITE that does not throw is refused with a local response and changes nothing, or it
  -- places a call: its headers are complete, its parties are given and distinct, the callee is
  -- registered over the transport of the INVITE, no call has its Call-ID, and it is forwarded to
  -- the registered contact.
  pub invite_cases :
      handle_invite r m ip port t ≡ ok (result, r')
      → Refused r result r' ⊎ Placed r m ip port t result r'
  unfolding handle_invite
  invite_cases h = elim (Bool-cases (has_required_invite_headers m)) [
    | inr missing ↦ inl (ground arith)
    | inl complete ↦ elim (Bool-cases (is_empty (caller_of m) || is_empty (callee_of m))) [
      | inl empty ↦ inl (ground arith)
      | inr given ↦ elim (Bool-cases (str_eq (caller_of m) (callee_of m))) [
        | inl self ↦ inl (ground arith)
        | inr distinct ↦
            invite_contact_cases _ complete (ground arith) (ground arith)
              (ground (arith, str_eq_iff (caller_of m) (callee_of m))) refl (ground arith)
      ]
    ]
  ]
