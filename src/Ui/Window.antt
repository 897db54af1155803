-- ===== src/Ui/Window.antt =====
-- ui/src/main_window.cpp: the main window and its slots. A message box is recorded; it is the last
-- thing that a slot does, so that what arrives while it is open is as if it came after the slot.
-- Nothing is connected to `registration_succeeded`. The layout is left out.
pub mod Slots
use minimal_sip_proxy_sip_cl.Base.{
  Bool, true, false, not, ◌&&◌, List, [], ◌∷◌, ◌++◌, Bytes, codes, is_empty,
}
use minimal_sip_proxy_sip_cl.Client.State.{
  registered, in_call, ringing, state_eq, ClientStateManager, new_manager,
}
use minimal_sip_proxy_sip_cl.Ui.Qt.{Qt}
use minimal_sip_proxy_sip_cl.Ui.Headers.{HeaderInjectionWidget, new_headers}

module _ (q : Qt) where
  -- Title and text of a message box.
  pub record MessageBox : Type 0 where
    pub title : q.QString
    pub content : q.QString

  pub record MainWindow : Type 0 where
    pub registered : Bool
    pub status_label : q.QString
    pub call_id_label : q.QString
    pub username : q.QString
    pub domain : q.QString
    pub register_enabled : Bool
    pub lock_visible : Bool
    pub callee : q.QString
    pub callee_enabled : Bool
    pub call_enabled : Bool
    pub hangup_enabled : Bool
    pub answer_enabled : Bool
    pub reject_enabled : Bool
    pub header_injection : HeaderInjectionWidget q
    pub boxes : List MessageBox

  abbrev pub literal : Bytes → q.QString
  literal s = q.text s

  abbrev pub warn : q.QString → q.QString → MainWindow → MainWindow
  warn title content w = record w {
    boxes = w.boxes ++ record { title = title; content = content } ∷ [];
  }

  abbrev pub set_call_section_locked : Bool → MainWindow → MainWindow
  set_call_section_locked locked w = record w { lock_visible = locked; callee_enabled = not locked }

  -- A call has come in that can be answered.
  abbrev pub is_incoming : ClientStateManager → Bool
  is_incoming s = state_eq s.state ringing && not (is_empty s.active_call_id) && s.is_incoming_call

  unfoldable pub update_button_states : ClientStateManager → MainWindow → MainWindow
  update_button_states s w = record w {
    call_enabled = w.registered && state_eq s.state registered;
    hangup_enabled = w.registered && state_eq s.state in_call;
    answer_enabled = w.registered && is_incoming s;
    reject_enabled = w.registered && is_incoming s;
  }

  abbrev pub new_window : MainWindow
  new_window = set_call_section_locked true (
      update_button_states new_manager (record {
        registered = false;
        status_label = literal (codes "Not registered");
        call_id_label = literal [];
        username = literal [];
        domain = literal [];
        register_enabled = true;
        lock_visible = false;
        callee = literal [];
        callee_enabled = true;
        call_enabled = true;
        hangup_enabled = true;
        answer_enabled = true;
        reject_enabled = true;
        header_injection = new_headers q;
        boxes = [];
      }))

  abbrev pub show_event : ClientStateManager → MainWindow → MainWindow
  show_event s w = update_button_states s w
