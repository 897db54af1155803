-- ===== src/Proxy/Registration/Laws.antt =====
-- The handler of REGISTER as a client of the proxy sees it: through later look-ups.
use minimal_sip_proxy_sip_cl.Base.{
  ◌≡◌, Bool, ◌&&◌, not, some, arith, Bytes, codes, is_empty, str_eq, starts_with, if◌then◌else◌,
  lookup, lookup-insert,
}
use minimal_sip_proxy_sip_cl.Sip.Message.{TransportType, SipMessage, get_header}
use minimal_sip_proxy_sip_cl.Proxy.Metrics.{MetricsCollector, inc_registered_users}
use minimal_sip_proxy_sip_cl.Proxy.Registration.{
  RegistrationTable, register_user, handle, extract_sip_identity, ok_status, bad_request,
  make_response,
}

-- A REGISTER that names a user and a contact.
abbrev pub accepts : SipMessage → Bool
accepts m =
    starts_with (codes "REGISTER") m.start_line
    && not (is_empty (get_header m (codes "From")))
    && not (is_empty (get_header m (codes "Contact")))
    && not (is_empty (extract_sip_identity (get_header m (codes "From"))))

module _ (table : RegistrationTable) (metrics : MetricsCollector) (m : SipMessage)
    (t : TransportType) where
  -- After a REGISTER that names a user and a contact, that user has this contact and transport,
  -- and every other user what it had; any other REGISTER changes no look-up. The status of the
  -- response is 200 in the one case and 400 in the other. Only the first is counted, and it is counted
  -- also where the user was in the table before.
  pub handle_lem :
      (k : Bytes)
      → (lookup (handle table metrics m t).1 k ≡ (
          if accepts m && str_eq (extract_sip_identity (get_header m (codes "From"))) k
          then some (record { contact = get_header m (codes "Contact"); transport = t })
          else lookup table k))
        × ((handle table metrics m t).0.start_line ≡ (if accepts m then ok_status else bad_request))
        × ((handle table metrics m t).2
            ≡ (if accepts m then inc_registered_users metrics else metrics))
  unfolding handle register_user make_response
  handle_lem k =
      let user = extract_sip_identity (get_header m (codes "From")) in
      (
        ground (
          arith,
          lookup-insert table user k
              (record { contact = get_header m (codes "Contact"); transport = t }),
        ),
        ground arith,
        ground arith,
      )
