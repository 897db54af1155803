-- ===== src/Ui/Events.antt =====
-- The window as it is used: apps/sip_client_main.cpp runs the loop of Qt, in which the clicks and
-- edits of the user and the queued signals of ui/src/sip_qt_app.cpp come to the slots of
-- ui/src/main_window.cpp one after the other, while packets come to the client. A button that is not
-- enabled gives no click, a field that is not enabled no edit. What arrives while a registration waits,
-- and the random number of a Call-ID, are given.
use minimal_sip_proxy_sip_cl.Base.{ℕ, not, List, [], ◌∷◌, Bytes, if◌then◌else◌, Result, ok, ◌>>=◌}
use minimal_sip_proxy_sip_cl.Client.Session.{SipClient, Notice}
use minimal_sip_proxy_sip_cl.Client.App.{on_packet_received}
use minimal_sip_proxy_sip_cl.Ui.Qt.{Qt}
use minimal_sip_proxy_sip_cl.Ui.Headers.{HeaderInjectionWidget, set_checked, edit}
use minimal_sip_proxy_sip_cl.Ui.Window.{MainWindow}
use minimal_sip_proxy_sip_cl.Ui.Window.Slots.{
  on_register_clicked, on_call_clicked, on_hangup_clicked, on_answer_clicked, on_reject_clicked,
  on_headers_changed,
}
use minimal_sip_proxy_sip_cl.Ui.App.{deliver}

module _ (q : Qt) where
  pub record Running : Type 0 where
    pub client : SipClient
    pub window : MainWindow q

  pub data UiEvent : Type 0 where
    packet_in : Bytes → UiEvent
    -- The next signal in the queue.
    queued_signal : UiEvent
    register_click : List (List Bytes) → UiEvent
    call_click : ℕ → UiEvent
    hangup_click answer_click reject_click : UiEvent
    username_edit domain_edit callee_edit : q.QString → UiEvent
    headers_toggle : UiEvent
    header_edit : Bytes → q.QString → UiEvent

  unfoldable pub next_signal : Running → List Notice → Running
  next_signal s [] = s
  next_signal s (notice ∷ later) =
      let c : SipClient = record s.client { notices = later } in
      record { client = c; window = deliver q notice c s.window }

  abbrev pub with_client : Running → SipClient → Running
  with_client s c = record s { client = c }

  abbrev pub with_both : MainWindow q × SipClient → Running
  with_both r = record { client = r.1; window = r.0 }

  -- `stateChanged` after a change of the headers.
  abbrev pub change_headers : HeaderInjectionWidget q → Running → Running
  change_headers h s =
      let w : MainWindow q = record s.window { header_injection = h } in
      record { client = on_headers_changed q w s.client; window = w }

  unfoldable pub ui_step : Running → UiEvent → Result Running
  unfolding next_signal
  ui_step s (packet_in text) = on_packet_received text s.client >>= λ c. ok (with_client s c)
  ui_step s queued_signal = ok (next_signal s s.client.notices)
  ui_step s (register_click rounds) =
      if s.window.register_enabled
      then (on_register_clicked q rounds s.window s.client >>= λ r. ok (with_both r))
      else ok s
  ui_step s (call_click random) =
      if s.window.call_enabled
      then (on_call_clicked q random s.window s.client >>= λ r. ok (with_both r))
      else ok s
  ui_step s hangup_click =
      if s.window.hangup_enabled
      then (on_hangup_clicked q s.window s.client >>= λ c. ok (with_client s c))
      else ok s
  ui_step s answer_click =
      if s.window.answer_enabled then ok (with_client s (on_answer_clicked q s.client)) else ok s
  ui_step s reject_click =
      if s.window.reject_enabled then ok (with_client s (on_reject_clicked q s.client)) else ok s
  ui_step s (username_edit text) = ok (record s { window = record s.window { username = text } })
  ui_step s (domain_edit text) = ok (record s { window = record s.window { domain = text } })
  ui_step s (callee_edit text) =
      if s.window.callee_enabled
      then ok (record s { window = record s.window { callee = text } })
      else ok s
  ui_step s headers_toggle =
      let h = s.window.header_injection in ok (change_headers (set_checked q (not h.checked) h) s)
  ui_step s (header_edit method text) =
      ok (change_headers (edit q method text s.window.header_injection) s)

  unfoldable pub ui_exec : Running → List UiEvent → Result Running
  ui_exec s [] = ok s
  ui_exec s (e ∷ later) = ui_step s e >>= λ s'. ui_exec s' later
