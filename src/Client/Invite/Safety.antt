-- ===== src/Client/Invite/Safety.antt =====
-- What a message can make of a client.
use minimal_sip_proxy_sip_cl.Base.{
  ℕ, ◌≤◌, ◌+◌, ◌≡◌, refl, sym, ap, ◌∙◌, List, [], ◌∷◌, ◌++◌, append-nil, append_assoc, arith, Bytes,
  is_empty, length, length-append, str_eq, ok, Result-cases, Bool-cases, inl, inr,
}
use mathlib.Core.Path.{subst}
use minimal_sip_proxy_sip_cl.Client.State.{
  calling, ringing, in_call, registered, ClientStateManager, is_busy,
}
use minimal_sip_proxy_sip_cl.Client.State.Outcomes.{user-transition_to}
use minimal_sip_proxy_sip_cl.Client.Factory.{SipMessageFactory, build, build_ack_for_error}
use minimal_sip_proxy_sip_cl.Client.Session.{SipClient, notify_call_state_changed, send_to_server}
use minimal_sip_proxy_sip_cl.Client.Invite.{
  send_built, split_local, split_sip_uri, extract_call_id, on_message, handle_incoming_invite,
  handle_incoming_bye, handle_100, handle_180, handle_200_ok_invite, handle_200_ok_bye,
  handle_error,
}
use minimal_sip_proxy_sip_cl.Client.Invite.Reactions.{
  incoming_invite, incoming_bye, ignored, trying, rings, ended, established, failed,
  on_message-Reaction,
}

-- The parts of a client that a message may change or not.
pub record Keeps (n : ℕ) (c c' : SipClient) : Type 0 where
  pub user : c'.state.registered_user ≡ c.state.registered_user
  pub receiver : c'.receiver ≡ c.receiver
  pub callbacks :
      (c'.register_response_cb ≡ c.register_response_cb)
      × (c'.call_error_cb ≡ c.call_error_cb)
      × (c'.call_state_cb ≡ c.call_state_cb)
  pub news : List Bytes
  pub sent : c'.sent ≡ c.sent ++ news
  pub few : length news ≤ n

pub notify-fields :
    (c : SipClient)
    → ((notify_call_state_changed c).state ≡ c.state)
      × ((notify_call_state_changed c).receiver ≡ c.receiver)
      × ((notify_call_state_changed c).sent ≡ c.sent)
      × ((notify_call_state_changed c).pending_invite ≡ c.pending_invite)
unfolding notify_call_state_changed
notify-fields c = ground arith

pub notify-callbacks :
    (c : SipClient)
    → ((notify_call_state_changed c).register_response_cb ≡ c.register_response_cb)
      × ((notify_call_state_changed c).call_error_cb ≡ c.call_error_cb)
      × ((notify_call_state_changed c).call_state_cb ≡ c.call_state_cb)
unfolding notify_call_state_changed
notify-callbacks c = ground arith

notify-Keeps : (n : ℕ) (c c' : SipClient) → Keeps n c c' → Keeps n c (notify_call_state_changed c')
notify-Keeps n c c' k =
    let (a, b, d, e) = notify-fields c' in
    let told = notify-callbacks c' in
    record {
      user = ap (λ (m : ClientStateManager). m.registered_user) a ∙ k.user;
      receiver = b ∙ k.receiver;
      callbacks = (told.0 ∙ k.callbacks.0, told.1 ∙ k.callbacks.1, told.2 ∙ k.callbacks.2);
      news = k.news;
      sent = d ∙ k.sent;
      few = k.few;
    }

state-Keeps :
    (c : SipClient) (m : ClientStateManager)
    → m.registered_user ≡ c.state.registered_user
    → Keeps 0 c (record c { state = m })
state-Keeps c m e = record {
  user = e;
  receiver = refl;
  callbacks = (refl, refl, refl);
  news = [];
  sent = sym (append-nil c.sent);
  few = omega arith;
}

more-Keeps : (n k : ℕ) (c c' : SipClient) → n ≤ k → Keeps n c c' → Keeps k c c'
more-Keeps n k c c' h x = record {
  user = x.user;
  receiver = x.receiver;
  callbacks = x.callbacks;
  news = x.news;
  sent = x.sent;
  few = omega (arith, x.few);
}

send-Keeps :
    (n : ℕ) (message : Bytes) (c c' : SipClient)
    → Keeps n c c'
    → Keeps (n + 1) c (send_to_server message c')
send-Keeps n message c c' k = record {
  user = k.user;
  receiver = k.receiver;
  callbacks = k.callbacks;
  news = k.news ++ message ∷ [];
  sent = rw k.sent (append_assoc c.sent k.news (message ∷ []));
  few = omega (arith, k.few, length-append {0} k.news (message ∷ []));
}

refl-Keeps : (c : SipClient) → Keeps 0 c c
refl-Keeps c = state-Keeps c c.state refl

pending-Keeps :
    (n : ℕ) (raw : Bytes) (c c' : SipClient)
    → Keeps n c c'
    → Keeps n c (record c' { pending_invite = raw })
pending-Keeps n raw c c' k = record {
  user = k.user;
  receiver = k.receiver;
  callbacks = k.callbacks;
  news = k.news;
  sent = k.sent;
  few = k.few;
}

built-Keeps :
    (n : ℕ) (built : Bytes × SipMessageFactory) (c c' : SipClient)
    → Keeps n c c'
    → Keeps (n + 1) c (send_built c' built)
built-Keeps n built c c' k =
    let x = send-Keeps n built.0 c c' k in
    record {
      user = x.user;
      receiver = x.receiver;
      callbacks = x.callbacks;
      news = x.news;
      sent = x.sent;
      few = x.few;
    }

after_send-Keeps :
    (n : ℕ) (message : Bytes) (c : SipClient) (m : ClientStateManager)
    → m.registered_user ≡ c.state.registered_user
    → Keeps 1 c (record (send_to_server message c) { state = m })
after_send-Keeps n message c m e = record {
  user = e;
  receiver = refl;
  callbacks = (refl, refl, refl);
  news = message ∷ [];
  sent = refl;
  few = omega arith;
}

invite-Keeps : (raw : Bytes) (c : SipClient) → Keeps 2 c (handle_incoming_invite raw c)
unfolding handle_incoming_invite
invite-Keeps raw c = elim (Bool-cases (is_empty (extract_call_id raw))) [
  | inl x ↦ rw x (more-Keeps 0 2 c c (omega arith) (refl-Keeps c))
  | inr x ↦ elim (Bool-cases (is_busy c.state)) [
    | inl y ↦ rw (x, y) (more-Keeps 1 2 c _ (omega arith) (send-Keeps 0 _ c c (refl-Keeps c)))
    | inr y ↦
        rw (x, y)
          (pending-Keeps 2 raw c _ (
            send-Keeps 1 _ c _ (
              send-Keeps 0 _ c _
                (notify-Keeps 0 c _ (state-Keeps c _ (user-transition_to ringing _))))))
  ]
]

bye-Keeps : (raw : Bytes) (c : SipClient) → Keeps 2 c (handle_incoming_bye raw c)
unfolding handle_incoming_bye
bye-Keeps raw c = elim (Bool-cases (is_empty (extract_call_id raw))) [
  | inl x ↦ rw x (more-Keeps 0 2 c c (omega arith) (refl-Keeps c))
  | inr x ↦ elim (Bool-cases (str_eq (extract_call_id raw) c.state.active_call_id)) [
    | inr y ↦ rw (x, y) (more-Keeps 0 2 c c (omega arith) (refl-Keeps c))
    | inl y ↦
        rw (x, y)
          (more-Keeps 1 2 c _ (omega arith)
            (notify-Keeps 1 c _ (after_send-Keeps 1 _ c _ (user-transition_to registered _))))
  ]
]

by_ok : (n : ℕ) (c : SipClient) {t c' : SipClient} → ok t ≡ ok c' → Keeps n c t → Keeps n c c'
by_ok n c h k = subst (Keeps n c) (cc h) k

ok_invite-Keeps : (c c' : SipClient) → handle_200_ok_invite c ≡ ok c' → Keeps 2 c c'
unfolding handle_200_ok_invite build
ok_invite-Keeps c c' h = by_ok 2 c h (
    more-Keeps 1 2 c _ (omega arith)
      (notify-Keeps 1 c _ (built-Keeps 0 _ c _ (state-Keeps c _ (user-transition_to in_call _)))))

error-Keeps : (raw : Bytes) (c c' : SipClient) → handle_error raw c ≡ ok c' → Keeps 2 c c'
unfolding handle_error
error-Keeps raw c c' h =
    let own = split_local c.state.registered_user in
    let peer = split_sip_uri c.state.active_remote_uri in
    let ack = build_ack_for_error c.factory own.0 own.1 peer.0 peer.1 c.state.active_call_id raw in
    elim (Result-cases ack) [
      | inr (x, e) ↦ absurd (cc (rw e at h))
      | inl (message, e) ↦ by_ok 2 c (rw e at h) (
          more-Keeps 1 2 c _ (omega arith)
            (notify-Keeps 1 c _ (after_send-Keeps 1 message c _ (user-transition_to registered _))))
    ]

-- A message that is handled leaves the registered user, the answer to a REGISTER and the callbacks
-- as they were, and sends two messages at most.
pub on_message-Keeps : (raw : Bytes) (c c' : SipClient) → on_message raw c ≡ ok c' → Keeps 2 c c'
unfolding handle_100 handle_180 handle_200_ok_bye
on_message-Keeps raw c c' h = elim (on_message-Reaction raw c c' h) [
  | incoming_invite e ↦ rw e (invite-Keeps raw c)
  | incoming_bye e ↦ rw e (bye-Keeps raw c)
  | ignored e ↦ rw e (more-Keeps 0 2 c c (omega arith) (refl-Keeps c))
  | trying own e ↦ rw e (
      more-Keeps 0 2 c _ (omega arith)
        (notify-Keeps 0 c _ (state-Keeps c _ (user-transition_to calling _))))
  | rings own e ↦ rw e (
      more-Keeps 0 2 c _ (omega arith)
        (notify-Keeps 0 c _ (state-Keeps c _ (user-transition_to ringing _))))
  | ended own e ↦
      rw e (more-Keeps 0 2 c _ (omega arith) (state-Keeps c _ (user-transition_to registered _)))
  | established own code method e ↦ ok_invite-Keeps c c' e
  | failed n own code least e ↦ error-Keeps raw c c' e
]
