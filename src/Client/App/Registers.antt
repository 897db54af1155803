-- ===== src/Client/App/Registers.antt =====
-- A registration of the client while packets of all kinds come in.
use minimal_sip_proxy_sip_cl.Base.{
  ℕ, zero, suc, ◌≡◌, refl, sym, ap, ◌∙◌, List, [], ◌∷◌, Bytes, codes, ok, bind-ok, Bool-cases, inl,
  inr,
}
use minimal_sip_proxy_sip_cl.Client.Register.{
  ReceiveHandler, wait_for_response, attempts, first_round, later_rounds, conclude, max_attempts,
}
use minimal_sip_proxy_sip_cl.Client.Register.Outcome.{
  exchange, holds, outcome, attempts-exchange, state-conclude,
}
use minimal_sip_proxy_sip_cl.Client.Factory.{build_register}
use minimal_sip_proxy_sip_cl.Client.Session.{
  SipClient, send_to_server, set_pending_headers, pending_headers,
}
use minimal_sip_proxy_sip_cl.Client.Invite.{with_state}
use minimal_sip_proxy_sip_cl.Client.App.{
  on_packet_received, on_packets, begin_register, register_attempts, do_register,
}
use minimal_sip_proxy_sip_cl.Client.App.Packets.{receiver-on_packet_received}

same_receiver : (c c' : SipClient) → ok c ≡ ok c' → c'.receiver ≡ c.receiver
same_receiver c c' h = let same : c ≡ c' = cc h in ap (λ (x : SipClient). x.receiver) (sym same)

receiver-on_packets :
    (arrived : List Bytes) (c c' : SipClient)
    → on_packets arrived c ≡ ok c'
    → c'.receiver ≡ wait_for_response arrived c.receiver
unfolding on_packets wait_for_response
receiver-on_packets [] c c' h = same_receiver c c' h
receiver-on_packets (text ∷ arrived) c c' h =
    let (c1, a, h1) = bind-ok (on_packet_received text c) (on_packets arrived) c' h in
    receiver-on_packets arrived c1 c' h1
    ∙ ap (wait_for_response arrived) (receiver-on_packet_received text c c1 a)

receiver-register_attempts :
    (n : ℕ) (message : Bytes) (rounds : List (List Bytes)) (c c' : SipClient)
    → register_attempts n message rounds c ≡ ok c'
    → c'.receiver ≡ (attempts n message rounds c.receiver).1
unfolding register_attempts attempts
receiver-register_attempts zero message rounds c c' h = same_receiver c c' h
receiver-register_attempts (suc n) message rounds c c' h =
    let (c1, a, h1) = bind-ok (on_packets (first_round rounds) (send_to_server message c)) _ c' h in
    let now = receiver-on_packets (first_round rounds) (send_to_server message c) c1 a in
    elim (Bool-cases c1.receiver.register_response_received) [
      | inl x ↦ same_receiver c1 c' (rw x at h1) ∙ now ∙ sym (rw (sym now, x) refl)
      | inr x ↦
          let later =
            receiver-register_attempts n message (later_rounds rounds) c1 c' (rw x at h1) in
          later
          ∙ ap (λ r. (attempts n message (later_rounds rounds) r).1) now
          ∙ sym (rw (sym now, x) refl)
    ]

-- A registration of the client, whatever packets come in meanwhile, calls among them: unless a packet
-- makes the client throw, the client is registered at the end if a reply to a REGISTER holds
-- "SIP/2.0 200 OK", and has failed otherwise; the reply that counts is the last one of the first
-- of five rounds that brings one. The state of a call that began meanwhile is overwritten.
pub do_register_lem :
    (username domain extra : Bytes) (rounds : List (List Bytes)) (c c' : SipClient)
    → do_register username domain extra rounds c ≡ ok c'
    → (c'.state.state ≡ outcome (exchange 5 rounds).1) × (c'.receiver ≡ holds (exchange 5 rounds).1)
unfolding do_register
do_register_lem username domain extra rounds c c' h =
    let c1 = begin_register (set_pending_headers (codes "REGISTER") extra c) in
    let (built, a, h1) =
      bind-ok (build_register c1.factory username domain (pending_headers c1 (codes "REGISTER"))) _
        c' h in
    let (c2, b, h2) =
      bind-ok (register_attempts max_attempts built.0 rounds (record c1 { factory = built.1 })) _ c'
        h1 in
    let received =
      receiver-register_attempts max_attempts built.0 rounds (record c1 { factory = built.1 }) c2 b
      ∙ ap (λ (x : List Bytes × ReceiveHandler). x.1) (attempts-exchange 5 built.0 rounds) in
    let done : with_state c2 (conclude username domain c2.receiver) ≡ c' = cc h2 in
    (
      ap (λ (x : SipClient). x.state.state) (sym done)
          ∙ ap (λ r. (conclude username domain r c2.state).state) received
          ∙ state-conclude username domain (exchange 5 rounds).1 c2.state,
      ap (λ (x : SipClient). x.receiver) (sym done) ∙ received,
    )
