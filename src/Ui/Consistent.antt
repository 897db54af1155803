-- ===== src/Ui/Consistent.antt =====
-- The buttons of the window in whatever order packets, signals, clicks and edits come.
use minimal_sip_proxy_sip_cl.Base.{
  ◌≡◌, refl, sym, ◌∙◌, Bool, true, false, not, ◌&&◌, ◌||◌, List, [], ◌∷◌, is_empty, Result, ok,
  bind-ok, ◌>>=◌, if◌then◌else◌,
}
use mathlib.Core.Path.{subst}
use minimal_sip_proxy_sip_cl.Client.State.{
  new_manager, State, idle, registering, registered, calling, ringing, in_call, failed, state_eq,
}
use minimal_sip_proxy_sip_cl.Client.Session.{SipClient, Notice}
use minimal_sip_proxy_sip_cl.Client.App.{on_packet_received}
use minimal_sip_proxy_sip_cl.Ui.Qt.{Qt}
use minimal_sip_proxy_sip_cl.Ui.Headers.{set_checked, edit}
use minimal_sip_proxy_sip_cl.Ui.Window.{MainWindow, new_window, update_button_states}
use minimal_sip_proxy_sip_cl.Ui.Window.Slots.{
  on_register_clicked, on_call_clicked, on_hangup_clicked,
}
use minimal_sip_proxy_sip_cl.Ui.Events.{
  Running, UiEvent, packet_in, queued_signal, register_click, call_click, hangup_click,
  answer_click, reject_click, username_edit, domain_edit, callee_edit, headers_toggle, header_edit,
  next_signal, with_client, with_both, change_headers, ui_step, ui_exec,
}
use minimal_sip_proxy_sip_cl.Ui.Controls.{
  Shows, SameControls, same-Shows, unchanged, deliver-Shows, register_clicked-Same,
  call_clicked-Same,
}

module _ (q : Qt) where
  at_end : (s s' : Running q) → Shows q s.window → ok s ≡ ok s' → Shows q s'.window
  at_end s s' h e = let same : s ≡ s' = cc in subst (λ (x : Running q). Shows q x.window) same h

  -- The client changes, the window does not.
  client_only :
      (m : Result SipClient) (s s' : Running q)
      → Shows q s.window
      → (m >>= λ c. ok (with_client q s c)) ≡ ok s'
      → Shows q s'.window
  client_only m s s' h e =
      let (c, _, done) = bind-ok m (λ c. ok (with_client q s c)) s' e in
      at_end (with_client q s c) s' h done

  -- A slot of a button that leaves the controls alone.
  slot_only :
      (m : Result (MainWindow q × SipClient)) (s s' : Running q)
      → ((r : MainWindow q × SipClient) → m ≡ ok r → SameControls q s.window r.0)
      → Shows q s.window
      → (m >>= λ r. ok (with_both q r)) ≡ ok s'
      → Shows q s'.window
  slot_only m s s' same h e =
      let (r, came, done) = bind-ok m (λ r. ok (with_both q r)) s' e in
      at_end (with_both q r) s' (same-Shows q s.window r.0 (same r came) h) done

  -- A click counts where the button is enabled.
  if_enabled :
      (enabled : Bool) (m : Result (Running q)) (s s' : Running q)
      → Shows q s.window
      → (m ≡ ok s' → Shows q s'.window)
      → (if enabled then m else ok s) ≡ ok s'
      → Shows q s'.window
  if_enabled true m s s' h k e = k e
  if_enabled false m s s' h k e = at_end s s' h e

  signal-Shows :
      (s : Running q) (notices : List Notice)
      → Shows q s.window
      → Shows q (next_signal q s notices).window
  unfolding next_signal
  signal-Shows s [] h = h
  signal-Shows s (notice ∷ later) h =
      deliver-Shows q notice (record s.client { notices = later }) s.window h

  step-Shows :
      (s s' : Running q) (e : UiEvent q)
      → Shows q s.window
      → ui_step q s e ≡ ok s'
      → Shows q s'.window
  unfolding ui_step on_hangup_clicked
  step-Shows s s' (packet_in text) h e = client_only (on_packet_received text s.client) s s' h e
  step-Shows s s' queued_signal h e =
      at_end (next_signal q s s.client.notices) s' (signal-Shows s s.client.notices h) e
  step-Shows s s' (register_click rounds) h e =
      if_enabled s.window.register_enabled _ s s' h
        (slot_only (on_register_clicked q rounds s.window s.client) s s'
          (register_clicked-Same q rounds s.window s.client) h)
        e
  step-Shows s s' (call_click random) h e =
      if_enabled s.window.call_enabled _ s s' h
        (slot_only (on_call_clicked q random s.window s.client) s s'
          (call_clicked-Same q random s.window s.client) h)
        e
  step-Shows s s' hangup_click h e =
      if_enabled s.window.hangup_enabled _ s s' h
        (client_only (on_hangup_clicked q s.window s.client) s s' h) e
  step-Shows s s' answer_click h e = if_enabled s.window.answer_enabled _ s s' h (at_end _ s' h) e
  step-Shows s s' reject_click h e = if_enabled s.window.reject_enabled _ s s' h (at_end _ s' h) e
  step-Shows s s' (username_edit text) h e =
      let w : MainWindow q = record s.window { username = text } in
      at_end (record s { window = w }) s' (same-Shows q s.window w (unchanged q w) h) e
  step-Shows s s' (domain_edit text) h e =
      let w : MainWindow q = record s.window { domain = text } in
      at_end (record s { window = w }) s' (same-Shows q s.window w (unchanged q w) h) e
  step-Shows s s' (callee_edit text) h e =
      let w : MainWindow q = record s.window { callee = text } in
      if_enabled s.window.callee_enabled _ s s' h
        (at_end (record s { window = w }) s' (same-Shows q s.window w (unchanged q w) h)) e
  step-Shows s s' headers_toggle h e =
      let next =
        change_headers q
          (set_checked q (not s.window.header_injection.checked) s.window.header_injection) s in
      at_end next s' (same-Shows q s.window next.window (unchanged q s.window) h) e
  step-Shows s s' (header_edit method text) h e =
      let next = change_headers q (edit q method text s.window.header_injection) s in
      at_end next s' (same-Shows q s.window next.window (unchanged q s.window) h) e

  run-Shows :
      (s s' : Running q) (events : List (UiEvent q))
      → Shows q s.window
      → ui_exec q s events ≡ ok s'
      → Shows q s'.window
  unfolding ui_exec
  run-Shows s s' [] h e = at_end s s' h e
  run-Shows s s' (event ∷ later) h e =
      let (t, first, rest) = bind-ok (ui_step q s event) (λ t. ui_exec q t later) s' e in
      run-Shows t s' later (step-Shows s t event h first) rest

  new-Shows : Shows q (new_window q)
  unfolding update_button_states
  new-Shows = record {
    state = new_manager;
    fresh = record { call = refl; hangup = refl; answer = refl; reject = refl };
    lock = refl;
    unlocked = refl;
  }

  -- Call, Hang Up and Answer exclude one another, Reject goes with Answer, none of them is enabled
  -- while the lock is shown, and then the field of the callee is not enabled either.
  pub record IsExclusive (w : MainWindow q) : Type 0 where
    call_or_hangup : (w.call_enabled && w.hangup_enabled) ≡ false
    call_or_answer : (w.call_enabled && w.answer_enabled) ≡ false
    hangup_or_answer : (w.hangup_enabled && w.answer_enabled) ≡ false
    reject_with_answer : w.reject_enabled ≡ w.answer_enabled
    locked : (w.lock_visible && (w.call_enabled || w.hangup_enabled || w.answer_enabled)) ≡ false
    callee_locked : w.callee_enabled ≡ not w.lock_visible

  states_differ :
      (r x y : Bool) (s : State)
      → (((r && state_eq s registered) && (r && state_eq s in_call)) ≡ false)
        × (((r && state_eq s registered) && (r && (state_eq s ringing && x && y))) ≡ false)
        × (((r && state_eq s in_call) && (r && (state_eq s ringing && x && y))) ≡ false)
  states_differ false x y s = (refl, refl, refl)
  states_differ true x y idle = (refl, refl, refl)
  states_differ true x y registering = (refl, refl, refl)
  states_differ true x y registered = (refl, refl, refl)
  states_differ true x y calling = (refl, refl, refl)
  states_differ true x y ringing = (refl, refl, refl)
  states_differ true x y in_call = (refl, refl, refl)
  states_differ true x y failed = (refl, refl, refl)

  none_locked : (r a b c : Bool) → (not r && (r && a || r && b || r && c)) ≡ false
  none_locked true a b c = refl
  none_locked false a b c = refl

  not-not : (b : Bool) → not (not b) ≡ b
  not-not true = refl
  not-not false = refl

  exclusive : (w : MainWindow q) → Shows q w → IsExclusive w
  exclusive w h =
      let f = h.fresh in
      let m = h.state in
      let (a, b, c) =
        states_differ w.registered (not (is_empty m.active_call_id)) m.is_incoming_call m.state in
      record {
        call_or_hangup = rw (f.call, f.hangup) a;
        call_or_answer = rw (f.call, f.answer) b;
        hangup_or_answer = rw (f.hangup, f.answer) c;
        reject_with_answer = f.reject ∙ sym f.answer;
        locked = rw (h.lock, f.call, f.hangup, f.answer) (none_locked w.registered _ _ _);
        callee_locked = rw (h.lock, h.unlocked) (sym (not-not w.registered));
      }

  -- Whatever packets, signals, clicks and edits come to a window that was opened, in whatever order:
  -- at most one of Call, Hang Up and Answer is enabled, Reject is enabled where Answer is, and none of
  -- them, nor the field of the callee, while the section of calls is locked.
  pub ui_exec-IsExclusive :
      (c : SipClient) (events : List (UiEvent q)) (s : Running q)
      → ui_exec q (record { client = c; window = new_window q }) events ≡ ok s
      → IsExclusive s.window
  ui_exec-IsExclusive c events s h =
      exclusive s.window
        (run-Shows (record { client = c; window = new_window q }) s events new-Shows h)
