-- ===== src/Client/Invite/Errors.antt =====
-- Error responses that end a call of the client, and one that ends the client.
use minimal_sip_proxy_sip_cl.Base.{
  ℕ, ◌≤◌, ◌<◌, ◌^◌, ◌⊎◌, ◌++◌, [], append-nil, ap, stoi, to_string, out_of_range, ◌≡◌, ◌≢◌, refl,
  sym, ◌∙◌, ℤ, pos, arith, Bytes, ok, err, Exception, Result-cases, inl, inr,
}
use native.Mathlib.Decide.{dec_lt}
use minimal_sip_proxy_sip_cl.Base.Decimal.{stoi-to_string, stoi_large}
use minimal_sip_proxy_sip_cl.Client.Factory.Cseq.{LacksQ, cseq_field, cseq_of-field}
use minimal_sip_proxy_sip_cl.Client.Factory.{cseq_of, build_ack_for_error}
use minimal_sip_proxy_sip_cl.Client.Session.{SipClient}
use minimal_sip_proxy_sip_cl.Client.Invite.{on_message, handle_status, handle_error}
use minimal_sip_proxy_sip_cl.Client.Invite.Dispatch.{IsResponse, on_message_response}

error_status :
    (raw : Bytes) (c : SipClient) (code : ℕ)
    → 400 ≤ code
    → handle_status (pos code) raw c ≡ handle_error raw c
unfolding handle_status
error_status raw c code h = ground arith

error_fine :
    (raw : Bytes) (c : SipClient) (n : ℤ) (e : Exception)
    → cseq_of raw ≡ ok n
    → handle_error raw c ≢ err e
unfolding handle_error build_ack_for_error
error_fine raw c n e f g = absurd (cc (rw f at g))

error_thrown :
    (raw : Bytes) (c : SipClient) (e : Exception) → cseq_of raw ≡ err e → handle_error raw c ≡ err e
unfolding handle_error build_ack_for_error
error_thrown raw c e f = rw f refl

-- An error response of the own call, with a status of 400 or more and its first CSeq field for an
-- INVITE, with any number: the client throws `out_of_range` if the number is 2^31 or more, and
-- otherwise handles the response without an exception. In front of the field stands no 'q' or 'Q'.
pub handle_error_throws :
    (before rest : Bytes) (n : ℕ) (c : SipClient) (code : ℕ)
    → LacksQ before
    → IsResponse (before ++ cseq_field (to_string n) rest) c code
    → 400 ≤ code
    → let raw = before ++ cseq_field (to_string n) rest in
      ((2 ^ 31 ≤ n) × (on_message raw c ≡ err out_of_range))
      ⊎ ((n < 2 ^ 31) × (c' : SipClient) × (on_message raw c ≡ ok c'))
handle_error_throws before rest n c code no_q r least =
    let raw = before ++ cseq_field (to_string n) rest in
    let sent = on_message_response raw c code r ∙ error_status raw c code least in
    let number = cseq_of-field before rest n no_q in
    elim (dec_lt n (2 ^ 31)) [
      | no large ↦ inl (
        omega (arith, large),
        sent ∙ error_thrown raw c out_of_range (number ∙ stoi_large n (omega (arith, large))),
      )
      | yes small ↦
          let value : cseq_of raw ≡ ok (pos n) =
            number ∙ ap stoi (sym (append-nil (to_string n))) ∙ stoi-to_string n [] small refl in
          elim (Result-cases (on_message raw c)) [
            | inl (c', done) ↦ inr (small, c', done)
            | inr (e, thrown) ↦ absurd (error_fine raw c (pos n) e value (sym sent ∙ thrown))
          ]
    ]
