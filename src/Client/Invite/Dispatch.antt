-- ===== src/Client/Invite/Dispatch.antt =====
-- Where a request or a response to the client goes.
use minimal_sip_proxy_sip_cl.Base.{
  ℕ, ◌≡◌, ◌≢◌, refl, true, false, [], ◌∷◌, pos, arith, Bytes, codes, map, contains, starts_with,
  str_eq_refl, ok,
}
use minimal_sip_proxy_sip_cl.Base.Regex.{to_upper}
use minimal_sip_proxy_sip_cl.Base.Search.{found_zero}
use minimal_sip_proxy_sip_cl.Client.Session.{SipClient}
use minimal_sip_proxy_sip_cl.Client.Invite.{
  extract_status_code, on_message, handle_status, handle_incoming_invite, handle_incoming_bye,
}
use minimal_sip_proxy_sip_cl.Client.Invite.Reactions.{IsOwn}

-- A text that starts with the method, in any case, is a request.
abbrev pub Starts : Bytes → Bytes → Type 0
Starts method raw = starts_with method (map to_upper raw) ≡ true

other_start :
    (a b : ℕ) (p q s : Bytes) → a ≢ b → starts_with (a ∷ p) s ≡ true → starts_with (b ∷ q) s ≡ false
unfolding starts_with
other_start a b p q [] n h = refl
other_start a b p q (c ∷ s) n h = ground arith

no_response :
    (a : ℕ) (p raw : Bytes)
    → a ≢ 83
    → Starts (a ∷ p) raw
    → starts_with (codes "SIP/2.0") (map to_upper raw) ≡ false
no_response a p raw n h = other_start a 83 p (codes "IP/2.0") (map to_upper raw) n h

pub on_message_invite :
    (raw : Bytes) (c : SipClient)
    → Starts (codes "INVITE") raw
    → on_message raw c ≡ ok (handle_incoming_invite raw c)
unfolding on_message
on_message_invite raw c h = rw (no_response b'I' (codes "NVITE") raw (omega arith) h, h) refl

pub on_message_bye :
    (raw : Bytes) (c : SipClient)
    → Starts (codes "BYE") raw
    → on_message raw c ≡ ok (handle_incoming_bye raw c)
unfolding on_message
on_message_bye raw c h =
    rw
      (
        no_response b'B' (codes "YE") raw (omega arith) h,
        h,
        other_start b'B' b'I' (codes "YE") (codes "NVITE") (map to_upper raw) (omega arith) h,
      )
      refl

-- A response of the call that the client is in comes to the switch on its status code.
pub record IsResponse (raw : Bytes) (c : SipClient) (code : ℕ) : Type 0 where
  pub start : starts_with (codes "SIP/2.0") (map to_upper raw) ≡ true
  pub own : IsOwn raw c
  pub status : extract_status_code raw ≡ ok (pos code)

pub on_message_response :
    (raw : Bytes) (c : SipClient) (code : ℕ)
    → IsResponse raw c code
    → on_message raw c ≡ handle_status (pos code) raw c
unfolding on_message
on_message_response raw c code r =
    let found : contains (codes "SIP/2.0") (map to_upper raw) ≡ true =
      rw (contains, found_zero (codes "SIP/2.0") (map to_upper raw) r.start) refl in
    rw (r.start, found, r.own.same, r.own.given, str_eq_refl c.state.active_call_id, r.status) refl
