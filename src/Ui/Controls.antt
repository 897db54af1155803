-- ===== src/Ui/Controls.antt =====
-- What the slots of the window do to its buttons and to the lock of the section of calls.
use minimal_sip_proxy_sip_cl.Base.{
  ℕ, ◌+◌, ℤ, is_int, ◌≡◌, refl, sym, ap, ◌∙◌, true, false, not, ◌&&◌, ◌||◌, List, Bytes, codes, ok,
  bind-ok, Bool-cases, inl, inr,
}
use mathlib.Core.Path.{subst}
use minimal_sip_proxy_sip_cl.Client.State.{ClientStateManager, registered, in_call, state_eq}
use minimal_sip_proxy_sip_cl.Client.Invite.{split_local}
use minimal_sip_proxy_sip_cl.Client.Session.{
  set_pending_headers, SipClient, Notice, call_state, call_error, register_response,
}
use minimal_sip_proxy_sip_cl.Client.App.{do_register, do_invite}
use minimal_sip_proxy_sip_cl.Ui.Qt.{Qt}
use minimal_sip_proxy_sip_cl.Ui.Window.{MainWindow, is_incoming, update_button_states}
use minimal_sip_proxy_sip_cl.Ui.Window.Slots.{
  on_register_clicked, on_call_clicked, on_register_response, on_call_state_changed, on_call_error,
  extra_headers, is_malformed, position,
}
use minimal_sip_proxy_sip_cl.Ui.App.{deliver}
use minimal_sip_proxy_sip_cl.Ui.Buttons.{IsFresh, call_state-IsFresh, call_error-IsFresh}

module _ (q : Qt) where
  -- The buttons show a state of a client, and the lock is shown until there was a registration.
  pub record Shows (w : MainWindow q) : Type 0 where
    pub state : ClientStateManager
    pub fresh : IsFresh q w state
    pub lock : w.lock_visible ≡ not w.registered
    pub unlocked : w.callee_enabled ≡ w.registered

  -- What `Shows` looks at is the same.
  abbrev pub SameControls : MainWindow q → MainWindow q → Type 0
  SameControls w w' =
      (w'.registered ≡ w.registered)
      × (w'.lock_visible ≡ w.lock_visible)
      × (w'.callee_enabled ≡ w.callee_enabled)
      × (w'.call_enabled ≡ w.call_enabled)
      × (w'.hangup_enabled ≡ w.hangup_enabled)
      × (w'.answer_enabled ≡ w.answer_enabled)
      × (w'.reject_enabled ≡ w.reject_enabled)

  pub same-Shows : (w w' : MainWindow q) → SameControls w w' → Shows w → Shows w'
  same-Shows w w' (same_registered, lock, callee, call, hangup, answer, reject) h = record {
    state = h.state;
    fresh = record {
      call =
          call
          ∙ h.fresh.call
          ∙ sym (ap (λ b. b && state_eq h.state.state registered) same_registered);
      hangup =
          hangup
          ∙ h.fresh.hangup
          ∙ sym (ap (λ b. b && state_eq h.state.state in_call) same_registered);
      answer = answer ∙ h.fresh.answer ∙ sym (ap (λ b. b && is_incoming q h.state) same_registered);
      reject = reject ∙ h.fresh.reject ∙ sym (ap (λ b. b && is_incoming q h.state) same_registered);
    };
    lock = lock ∙ h.lock ∙ sym (ap not same_registered);
    unlocked = callee ∙ h.unlocked ∙ sym same_registered;
  }

  pub unchanged : (w : MainWindow q) → SameControls w w
  unchanged w = (refl, refl, refl, refl, refl, refl, refl)

  error-lock :
      (code : ℤ) (reason : q.QString) (c : SipClient) (w : MainWindow q)
      → ((on_call_error q code reason c w).lock_visible ≡ w.lock_visible)
        × ((on_call_error q code reason c w).callee_enabled ≡ w.callee_enabled)
        × ((on_call_error q code reason c w).registered ≡ w.registered)
  unfolding on_call_error update_button_states
  error-lock code reason c w = elim (Bool-cases (is_int code 404 || is_int code 486)) [
    | inl e ↦ rw e (refl, refl, refl)
    | inr e ↦ rw e (refl, refl, refl)
  ]

  pub deliver-Shows :
      (notice : Notice) (c : SipClient) (w : MainWindow q) → Shows w → Shows (deliver q notice c w)
  unfolding deliver on_register_response on_call_state_changed update_button_states
  deliver-Shows (register_response true raw) c w h = record {
    state = c.state;
    fresh = record { call = refl; hangup = refl; answer = refl; reject = refl };
    lock = refl;
    unlocked = refl;
  }
  deliver-Shows (register_response false raw) c w h =
      same-Shows w (deliver q (register_response false raw) c w) (unchanged w) h
  deliver-Shows (call_state state call_id uri) c w h = record {
    state = c.state;
    fresh = call_state-IsFresh q _ _ _ c w;
    lock = h.lock;
    unlocked = h.unlocked;
  }
  deliver-Shows (call_error code reason) c w h =
      let (lock, callee, same_registered) = error-lock code (q.from_std_string reason) c w in
      record {
        state = c.state;
        fresh = call_error-IsFresh q _ _ c w;
        lock = lock ∙ h.lock ∙ sym (ap not same_registered);
        unlocked = callee ∙ h.unlocked ∙ sym same_registered;
      }

  came_with :
      {c : SipClient} (w w' : MainWindow q) (r : MainWindow q × SipClient)
      → SameControls w w'
      → ok (w', c) ≡ ok r
      → SameControls w r.0
  came_with {c} w w' r s h =
      let e : (w', c) ≡ r = cc in subst (λ (x : MainWindow q × SipClient). SameControls w x.0) e s

  pub register_clicked-Same :
      (rounds : List (List Bytes)) (w : MainWindow q) (c : SipClient) (r : MainWindow q × SipClient)
      → on_register_clicked q rounds w c ≡ ok r
      → SameControls w r.0
  unfolding on_register_clicked
  register_clicked-Same rounds w c r h =
      let username = q.trimmed w.username in
      let domain = q.trimmed w.domain in
      elim (Bool-cases (q.is_empty username || q.is_empty domain)) [
        | inl e ↦ came_with w _ r (unchanged w) (rw e at h)
        | inr e ↦
            let (c', _, done) =
              bind-ok
                (do_register (q.to_std_string username) (q.to_std_string domain)
                  (extra_headers q (codes "REGISTER") w) rounds c)
                _ r (rw e at h) in
            came_with w _ r (unchanged w) done
      ]

  pub call_clicked-Same :
      (random : ℕ) (w : MainWindow q) (c : SipClient) (r : MainWindow q × SipClient)
      → on_call_clicked q random w c ≡ ok r
      → SameControls w r.0
  unfolding on_call_clicked
  call_clicked-Same random w c r h =
      let callee = q.trimmed w.callee in
      elim (Bool-cases (q.is_empty callee)) [
        | inl e ↦ came_with w _ r (unchanged w) (rw e at h)
        | inr e ↦ elim (Bool-cases (is_malformed q callee (q.index_of callee 64))) [
          | inl bad ↦ came_with w _ r (unchanged w) (rw (e, bad) at h)
          | inr good ↦
              let at = position q (q.index_of callee 64) in
              let own = split_local c.state.registered_user in
              let c1 =
                set_pending_headers (codes "INVITE") (extra_headers q (codes "INVITE") w) c in
              let c2 = set_pending_headers (codes "ACK") (extra_headers q (codes "ACK") w) c1 in
              let called =
                do_invite own.0 own.1 (q.to_std_string (q.left callee at))
                  (q.to_std_string (q.mid callee (at + 1))) random c2 in
              let (c', _, done) = bind-ok called _ r (rw (e, good) at h) in
              came_with w w r (unchanged w) done
        ]
      ]
