-- ===== src/Ui/App.antt =====
-- ui/src/sip_qt_app.cpp: the callbacks of the client become signals, which are queued and come to
-- the slots of the window later. The queue is the list of notices of the client. A slot reads the
-- state that the client has by then.
use minimal_sip_proxy_sip_cl.Base.{List, [], ◌∷◌}
use minimal_sip_proxy_sip_cl.Client.Session.{
  SipClient, Notice, call_state, call_error, register_response,
}
use minimal_sip_proxy_sip_cl.Ui.Qt.{Qt}
use minimal_sip_proxy_sip_cl.Ui.Window.{MainWindow}
use minimal_sip_proxy_sip_cl.Ui.Window.Slots.{
  on_register_response, on_call_state_changed, on_call_error,
}

module _ (q : Qt) where
  -- notify_register_response, notify_call_state and notify_call_error, each with its slot
  unfoldable pub deliver : Notice → SipClient → MainWindow q → MainWindow q
  deliver (register_response success raw) c w =
      on_register_response q success (q.from_std_string raw) c w
  deliver (call_state state call_id remote_uri) c w =
      on_call_state_changed q (q.from_std_string state) (q.from_std_string call_id)
        (q.from_std_string remote_uri) c w
  deliver (call_error code reason) c w = on_call_error q code (q.from_std_string reason) c w

  unfoldable pub deliver_all : List Notice → SipClient → MainWindow q → MainWindow q
  deliver_all [] c w = w
  deliver_all (notice ∷ later) c w = deliver_all later c (deliver notice c w)
