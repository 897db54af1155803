-- ===== src/Client/App/Packets.antt =====
-- What a packet makes the client tell its callbacks.
use minimal_sip_proxy_sip_cl.Base.{
  ◌≡◌, ◌⊎◌, bind-ok, refl, ap, ◌∙◌, true, ◌&&◌, List, [], ◌∷◌, ◌++◌, ℤ, arith, Bytes, codes,
  contains, take, starts_with, stoi, ok, Bool-cases, inl, inr,
}
use mathlib.Core.Path.{subst}
use minimal_sip_proxy_sip_cl.Client.Register.{ReceiveHandler, handle_receive}
use minimal_sip_proxy_sip_cl.Client.Session.{
  SipClient, Notice, call_error, register_response, notify_call_state_changed,
}
use minimal_sip_proxy_sip_cl.Client.Invite.{on_message}
use minimal_sip_proxy_sip_cl.Client.Invite.Safety.{
  on_message-Keeps, notify-fields, notify-callbacks,
}
use minimal_sip_proxy_sip_cl.Client.App.{
  first_line, tail_at, tell_error, tell_register, receive, on_packet_received, on_packets,
}

-- What the error callback is called with, if it is.
pub tell_error-cases :
    (text : Bytes) (c c' : SipClient)
    → tell_error text c ≡ ok c'
    → (c' ≡ c)
      ⊎ ((code : ℤ) × (reason : Bytes) × (c'
            ≡ record c { notices = c.notices ++ call_error code reason ∷ [] }))
unfolding tell_error
tell_error-cases text c c' h =
    elim (Bool-cases (c.call_error_cb && starts_with (codes "SIP/2.0 4") text)) [
      | inr x ↦ inl (cc (rw x at h))
      | inl x ↦
          let (digits, a, h1) = bind-ok (tail_at (first_line text) 8) _ c' (rw x at h) in
          let (code, b, h2) = bind-ok (stoi (take 3 digits)) _ c' h1 in
          let (reason, d, h3) = bind-ok (tail_at (first_line text) 12) _ c' h2 in
          inr (code, reason, cc h3)
    ]

tell_error-receiver :
    (text : Bytes) (c c' : SipClient) → tell_error text c ≡ ok c' → c'.receiver ≡ c.receiver
tell_error-receiver text c c' h = elim (tell_error-cases text c c' h) [
  | inl e ↦ rw e refl
  | inr (code, reason, e) ↦ rw e refl
]

finish-receiver :
    (c : SipClient) → (tell_register (notify_call_state_changed c)).receiver ≡ c.receiver
unfolding tell_register notify_call_state_changed
finish-receiver c = ground arith

-- How a packet that is handled is handled.
pub record Handled (text : Bytes) (c c' : SipClient) : Type 0 where
  pub called : SipClient
  pub told : SipClient
  pub call : on_message text (receive text c) ≡ ok called
  pub error : tell_error text called ≡ ok told
  pub done : c' ≡ tell_register (notify_call_state_changed told)

pub on_packet_received-Handled :
    (text : Bytes) (c c' : SipClient) → on_packet_received text c ≡ ok c' → Handled text c c'
unfolding on_packet_received
on_packet_received-Handled text c c' h =
    let (c1, a, h1) = bind-ok (on_message text (receive text c)) _ c' h in
    let (c2, b, h2) = bind-ok (tell_error text c1) _ c' h1 in
    record { called = c1; told = c2; call = a; error = b; done = cc h2 }

told-receiver :
    (text : Bytes) (c c' : SipClient) (h : Handled text c c')
    → h.told.receiver ≡ handle_receive text c.receiver
told-receiver text c c' h =
    tell_error-receiver text h.called h.told h.error
    ∙ (on_message-Keeps text (receive text c) h.called h.call).receiver

-- A packet that is handled changes the answer to a REGISTER only through the receive handler.
pub receiver-on_packet_received :
    (text : Bytes) (c c' : SipClient)
    → on_packet_received text c ≡ ok c'
    → c'.receiver ≡ handle_receive text c.receiver
receiver-on_packet_received text c c' h =
    let k = on_packet_received-Handled text c c' h in
    ap (λ (x : SipClient). x.receiver) k.done ∙ finish-receiver k.told ∙ told-receiver text c c' k

told-callback :
    (text : Bytes) (c c' : SipClient) (h : Handled text c c')
    → h.told.register_response_cb ≡ c.register_response_cb
told-callback text c c' h =
    let kept = (on_message-Keeps text (receive text c) h.called h.call).callbacks.0 in
    elim (tell_error-cases text h.called h.told h.error) [
      | inl e ↦ ap (λ (x : SipClient). x.register_response_cb) e ∙ kept
      | inr (code, reason, e) ↦ ap (λ (x : SipClient). x.register_response_cb) e ∙ kept
    ]

tell_register-reply :
    (c : SipClient) (h : ReceiveHandler)
    → c.receiver ≡ h
    → c.register_response_cb ≡ true
    → h.register_response_received ≡ true
    → (tell_register c).notices
      ≡ c.notices
        ++ register_response
            (contains (codes "SIP/2.0 200 OK") h.register_response)
            h.register_response
          ∷ []
unfolding tell_register
tell_register-reply c h e cb r = rw (e, cb, r) refl

tell_register-callback :
    (c : SipClient) → (tell_register c).register_response_cb ≡ c.register_response_cb
unfolding tell_register
tell_register-callback c = ground arith

stays_received :
    (text : Bytes) (h : ReceiveHandler)
    → h.register_response_received ≡ true
    → (handle_receive text h).register_response_received ≡ true
unfolding handle_receive
stays_received text h r = ground arith

-- The callback for replies is set, and a reply to a REGISTER is in.
pub record HasReply (c : SipClient) : Type 0 where
  pub callback : c.register_response_cb ≡ true
  pub received : c.receiver.register_response_received ≡ true

packet-HasReply :
    (text : Bytes) (c c' : SipClient) → on_packet_received text c ≡ ok c' → HasReply c → HasReply c'
packet-HasReply text c c' h r =
    let k = on_packet_received-Handled text c c' h in
    let told = notify_call_state_changed k.told in
    record {
      callback =
          ap (λ (x : SipClient). x.register_response_cb) k.done
          ∙ tell_register-callback told
          ∙ (notify-callbacks k.told).0
          ∙ told-callback text c c' k
          ∙ r.callback;
      received =
          ap (λ (x : ReceiveHandler). x.register_response_received)
            (receiver-on_packet_received text c c' h)
          ∙ stays_received text c.receiver r.received;
    }

packets-HasReply :
    (arrived : List Bytes) (c c' : SipClient)
    → on_packets arrived c ≡ ok c'
    → HasReply c
    → HasReply c'
unfolding on_packets
packets-HasReply [] c c' h r = let same : c ≡ c' = cc h in subst HasReply same r
packets-HasReply (text ∷ arrived) c c' h r =
    let (c1, first, later) = bind-ok (on_packet_received text c) (on_packets arrived) c' h in
    packets-HasReply arrived c1 c' later (packet-HasReply text c c1 first r)

-- Once a reply to a REGISTER is in, every packet calls the callback for the latest reply again: after
-- any packets, the next packet that is handled, whatever it is, ends with that call, and it leaves
-- the reply in and the callback set, so that the same holds of the packets after it.
pub replies_again :
    (arrived : List Bytes) (text : Bytes) (c c1 c' : SipClient)
    → HasReply c
    → on_packets arrived c ≡ ok c1
    → on_packet_received text c1 ≡ ok c'
    → let reply = (handle_receive text c1.receiver).register_response in
      ((before : List Notice) × (c'.notices
          ≡ before ++ register_response (contains (codes "SIP/2.0 200 OK") reply) reply ∷ []))
      × (c'.receiver.register_response ≡ reply)
      × HasReply c'
replies_again arrived text c c1 c' r come h =
    let r1 = packets-HasReply arrived c c1 come r in
    let k = on_packet_received-Handled text c1 c' h in
    let told = notify_call_state_changed k.told in
    (
      (
        told.notices,
        ap (λ (x : SipClient). x.notices) k.done
            ∙ tell_register-reply told (handle_receive text c1.receiver)
                ((notify-fields k.told).1 ∙ told-receiver text c1 c' k)
                ((notify-callbacks k.told).0 ∙ told-callback text c1 c' k ∙ r1.callback)
                (stays_received text c1.receiver r1.received),
      ),
      ap (λ (x : ReceiveHandler). x.register_response) (receiver-on_packet_received text c1 c' h),
      packet-HasReply text c1 c' h r1,
    )
