-- ===== src/Ui/Buttons.antt =====
-- The buttons of the window against the state of the client.
use minimal_sip_proxy_sip_cl.Base.{
  ◌≡◌, refl, true, false, ◌&&◌, List, [], ◌∷◌, ◌++◌, Bytes, ℤ, is_int, ◌||◌, ok, Bool-cases, inl,
  inr,
}
use minimal_sip_proxy_sip_cl.Client.State.{registered, in_call, state_eq, ClientStateManager}
use minimal_sip_proxy_sip_cl.Client.Session.{
  SipClient, Notice, call_state, call_error, register_response,
}
use minimal_sip_proxy_sip_cl.Client.App.{on_packet_received}
use minimal_sip_proxy_sip_cl.Client.App.States.{tells_state}
use minimal_sip_proxy_sip_cl.Ui.Qt.{Qt}
use minimal_sip_proxy_sip_cl.Ui.Window.{MainWindow, is_incoming, update_button_states, warn}
use minimal_sip_proxy_sip_cl.Ui.Window.Slots.{
  on_register_response, on_call_state_changed, on_call_error,
}
use minimal_sip_proxy_sip_cl.Ui.App.{deliver, deliver_all}

module _ (q : Qt) where
  -- The buttons are enabled as the state of the client asks for.
  pub record IsFresh (w : MainWindow q) (s : ClientStateManager) : Type 0 where
    pub call : w.call_enabled ≡ (w.registered && state_eq s.state registered)
    pub hangup : w.hangup_enabled ≡ (w.registered && state_eq s.state in_call)
    pub answer : w.answer_enabled ≡ (w.registered && is_incoming q s)
    pub reject : w.reject_enabled ≡ (w.registered && is_incoming q s)

  pub update-IsFresh :
      (s : ClientStateManager) (w : MainWindow q) → IsFresh (update_button_states q s w) s
  unfolding update_button_states
  update-IsFresh s w = record { call = refl; hangup = refl; answer = refl; reject = refl }

  pub call_state-IsFresh :
      (state call_id uri : q.QString) (c : SipClient) (w : MainWindow q)
      → IsFresh (on_call_state_changed q state call_id uri c w) c.state
  unfolding on_call_state_changed
  call_state-IsFresh state call_id uri c w = update-IsFresh c.state _

  warn-IsFresh :
      (title content : q.QString) (s : ClientStateManager) (w : MainWindow q)
      → IsFresh w s
      → IsFresh (warn q title content w) s
  warn-IsFresh title content s w h = record {
    call = h.call;
    hangup = h.hangup;
    answer = h.answer;
    reject = h.reject;
  }

  pub call_error-IsFresh :
      (code : ℤ) (reason : q.QString) (c : SipClient) (w : MainWindow q)
      → IsFresh (on_call_error q code reason c w) c.state
  unfolding on_call_error
  call_error-IsFresh code reason c w = elim (Bool-cases (is_int code 404 || is_int code 486)) [
    | inl e ↦ rw e (warn-IsFresh _ _ c.state _ (update-IsFresh c.state _))
    | inr e ↦ rw e (update-IsFresh c.state _)
  ]

  deliver-IsFresh :
      (notice : Notice) (c : SipClient) (w : MainWindow q)
      → IsFresh w c.state
      → IsFresh (deliver q notice c w) c.state
  unfolding deliver on_register_response
  deliver-IsFresh (register_response true raw) c w h = update-IsFresh c.state _
  deliver-IsFresh (register_response false raw) c w h = record {
    call = h.call;
    hangup = h.hangup;
    answer = h.answer;
    reject = h.reject;
  }
  deliver-IsFresh (call_state state call_id uri) c w h = call_state-IsFresh _ _ _ c w
  deliver-IsFresh (call_error code reason) c w h = call_error-IsFresh _ _ c w

  deliver_all-IsFresh :
      (notices : List Notice) (c : SipClient) (w : MainWindow q)
      → IsFresh w c.state
      → IsFresh (deliver_all q notices c w) c.state
  unfolding deliver_all
  deliver_all-IsFresh [] c w h = h
  deliver_all-IsFresh (x ∷ later) c w h =
      deliver_all-IsFresh later c (deliver q x c w) (deliver-IsFresh x c w h)

  -- Once a call state is among the notices, it does not matter how the buttons were before.
  refreshed :
      (before later : List Notice) (state call_id uri : Bytes) (c : SipClient) (w : MainWindow q)
      → IsFresh (deliver_all q (before ++ call_state state call_id uri ∷ later) c w) c.state
  unfolding deliver_all deliver
  refreshed [] later state call_id uri c w =
      deliver_all-IsFresh later c _ (call_state-IsFresh _ _ _ c w)
  refreshed (x ∷ before) later state call_id uri c w =
      refreshed before later state call_id uri c (deliver q x c w)

  refreshed_by :
      (notices before later : List Notice) (state call_id uri : Bytes) (c : SipClient)
      (w : MainWindow q)
      → notices ≡ before ++ call_state state call_id uri ∷ later
      → IsFresh (deliver_all q notices c w) c.state
  refreshed_by notices before later state call_id uri c w e =
      rw e (refreshed before later state call_id uri c w)

  -- After any packet that the client handles, once its notices have come to the window, the buttons
  -- are enabled as the state of the client asks for, however they were before.
  pub packet-IsFresh :
      (text : Bytes) (c c' : SipClient) (w : MainWindow q)
      → on_packet_received text c ≡ ok c'
      → c.call_state_cb ≡ true
      → IsFresh (deliver_all q c'.notices c' w) c'.state
  packet-IsFresh text c c' w h cb =
      let (before, later, state, id, uri, e) = tells_state text c c' h cb in
      refreshed_by c'.notices before later state id uri c' w e
