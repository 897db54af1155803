-- ===== src/Client/Invite/Reactions.antt =====
-- A message to the client by cases: which handler it comes to.
use minimal_sip_proxy_sip_cl.Base.{
  leb, ℕ, ◌≤◌, ◌≡◌, sym, ap, ◌∙◌, false, not, ◌&&◌, pos, is_int, arith, Bytes, codes, map, contains,
  is_empty, starts_with, str_eq, str_eq_iff, ok, Bool-cases, inl, inr,
}
use minimal_sip_proxy_sip_cl.Base.Regex.{to_upper}
use minimal_sip_proxy_sip_cl.Client.Session.{SipClient}
use minimal_sip_proxy_sip_cl.Client.Invite.{
  extract_call_id, extract_status_code, extract_cseq_method, on_message, handle_status,
  handle_incoming_invite, handle_incoming_bye, handle_100, handle_180, handle_200_ok_invite,
  handle_200_ok_bye, handle_error,
}
use minimal_sip_proxy_sip_cl.Client.Invite.Status.{extract_status_code_bounds}

-- A response of the call that the client is in.
pub record IsOwn (raw : Bytes) (c : SipClient) : Type 0 where
  pub same : extract_call_id raw ≡ c.state.active_call_id
  pub given : is_empty c.state.active_call_id ≡ false

-- What a message does, by what it is.
pub data Reaction (raw : Bytes) (c c' : SipClient) : Type 0 where
  incoming_invite : c' ≡ handle_incoming_invite raw c → Reaction raw c c'
  incoming_bye : c' ≡ handle_incoming_bye raw c → Reaction raw c c'
  ignored : c' ≡ c → Reaction raw c c'
  trying : IsOwn raw c → c' ≡ handle_100 c → Reaction raw c c'
  rings : IsOwn raw c → c' ≡ handle_180 c → Reaction raw c c'
  ended : IsOwn raw c → c' ≡ handle_200_ok_bye c → Reaction raw c c'
  established :
      IsOwn raw c
      → extract_status_code raw ≡ ok (pos 200)
      → str_eq (extract_cseq_method raw) (codes "BYE") ≡ false
      → handle_200_ok_invite c ≡ ok c'
      → Reaction raw c c'
  failed :
      (code : ℕ)
      → IsOwn raw c
      → extract_status_code raw ≡ ok (pos code)
      → 400 ≤ code
      → handle_error raw c ≡ ok c'
      → Reaction raw c c'

status-Reaction :
    (raw : Bytes) (c c' : SipClient) (n : ℕ)
    → IsOwn raw c
    → extract_status_code raw ≡ ok (pos n)
    → handle_status (pos n) raw c ≡ ok c'
    → Reaction raw c c'
unfolding handle_status
status-Reaction raw c c' n own e h = elim (Bool-cases (is_int (pos n) 100)) [
  | inl x ↦ trying own (cc (rw x at h))
  | inr x ↦ elim (Bool-cases (is_int (pos n) 180)) [
    | inl y ↦ rings own (cc (rw (x, y) at h))
    | inr y ↦ elim (Bool-cases (is_int (pos n) 200)) [
      | inl z ↦ elim (Bool-cases (str_eq (extract_cseq_method raw) (codes "BYE"))) [
        | inl w ↦ ended own (cc (rw (x, y, z, w) at h))
        | inr w ↦ established own (e ∙ ap (λ k. ok (pos k)) (ground arith)) w (rw (x, y, z, w) at h)
      ]
      | inr z ↦ elim (Bool-cases (leb 400 n)) [
        | inl w ↦ failed n own e (ground arith) (rw (x, y, z, w) at h)
        | inr w ↦ ignored (cc (rw (x, y, z, w) at h))
      ]
    ]
  ]
]

pub on_message-Reaction :
    (raw : Bytes) (c c' : SipClient) → on_message raw c ≡ ok c' → Reaction raw c c'
unfolding on_message
on_message-Reaction raw c c' h =
    let upper = map to_upper raw in
    let call_id = extract_call_id raw in
    let (n, code, less) = extract_status_code_bounds raw in
    elim (Bool-cases
      (not (starts_with (codes "SIP/2.0") upper) && starts_with (codes "INVITE") upper)) [
        | inl x ↦ incoming_invite (cc (rw x at h))
        | inr x ↦
            elim (Bool-cases
              (not (starts_with (codes "SIP/2.0") upper) && starts_with (codes "BYE") upper)) [
                | inl y ↦ incoming_bye (cc (rw (x, y) at h))
                | inr y ↦ elim (Bool-cases (contains (codes "SIP/2.0") upper)) [
                  | inr z ↦ ignored (cc (rw (x, y, z) at h))
                  | inl z ↦ elim (Bool-cases (is_empty call_id)) [
                    | inl v ↦ ignored (cc (rw (x, y, z, v) at h))
                    | inr v ↦ elim (Bool-cases (str_eq call_id c.state.active_call_id)) [
                      | inr w ↦ ignored (cc (rw (x, y, z, v, w) at h))
                      | inl w ↦
                          let same = (str_eq_iff call_id c.state.active_call_id).0 w in
                          status-Reaction raw c c' n
                            (record { same = same; given = ap is_empty (sym same) ∙ v }) code
                            (rw (x, y, z, v, w, code) at h)
                    ]
                  ]
                ]
              ]
      ]
