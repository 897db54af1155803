-- ===== src/Ui/Window/Slots.antt =====
-- The slots of the main window. The packets that arrive while a registration waits are given, and
-- so is the random number of a new Call-ID.
use minimal_sip_proxy_sip_cl.Base.{
  ℕ, ◌+◌, Bool, true, false, not, ◌||◌, ◌==◌, ltb, Option, none, some, List, [], ℤ, is_int, Bytes,
  codes, if◌then◌else◌, Result, ok, ◌>>=◌,
}
use minimal_sip_proxy_sip_cl.Client.Session.{SipClient, set_pending_headers}
use minimal_sip_proxy_sip_cl.Client.Invite.{split_local}
use minimal_sip_proxy_sip_cl.Client.App.{do_register, do_invite, do_bye, do_answer, do_reject}
use minimal_sip_proxy_sip_cl.Ui.Qt.{Qt}
use minimal_sip_proxy_sip_cl.Ui.Headers.{headers_for, is_enabled}
use minimal_sip_proxy_sip_cl.Ui.Window.{
  MainWindow, literal, warn, set_call_section_locked, update_button_states,
}

module _ (q : Qt) where
  -- The headers to inject for a method, if they are to be injected.
  abbrev pub extra_headers : Bytes → MainWindow q → Bytes
  extra_headers method w =
      if is_enabled q w.header_injection
      then q.to_std_string (headers_for q method w.header_injection)
      else []

  unfoldable pub on_register_clicked :
      List (List Bytes) → MainWindow q → SipClient → Result (MainWindow q × SipClient)
  on_register_clicked rounds w c =
      let username = q.trimmed w.username in
      let domain = q.trimmed w.domain in
      let waiting : MainWindow q = record w {
        register_enabled = false;
        status_label = literal q (codes "Registering…");
      } in
      let registered =
        do_register (q.to_std_string username) (q.to_std_string domain)
          (extra_headers (codes "REGISTER") w) rounds c in
      if q.is_empty username || q.is_empty domain
      then ok (
        warn q (literal q (codes "Input error"))
            (literal q (codes "Username and domain must not be empty.")) w,
        c,
      )
      else registered >>= λ c'. ok (waiting, c')

  -- "✓ Registered as " and the user of the fields
  unfoldable pub registered_text : MainWindow q → q.QString
  registered_text w =
      q.append (literal q (codes "✓ Registered as "))
        (q.append (q.append (q.trimmed w.username) (literal q (codes "@"))) (q.trimmed w.domain))

  unfoldable pub on_register_response : Bool → q.QString → SipClient → MainWindow q → MainWindow q
  on_register_response success raw c w =
      let w1 : MainWindow q = record w { register_enabled = true } in
      let w2 : MainWindow q = record w1 { registered = true; status_label = registered_text w1 } in
      let w3 : MainWindow q = record w1 {
        status_label = literal q (codes "✗ Registration failed");
      } in
      if success
      then update_button_states q c.state (set_call_section_locked q false w2)
      else warn q (literal q (codes "SIP Response")) raw w3

  -- The window stays as it is.
  unfoldable pub on_headers_changed : MainWindow q → SipClient → SipClient
  on_headers_changed w c =
      let headers = λ (method : Bytes). q.to_std_string (headers_for q method w.header_injection) in
      let c1 = set_pending_headers (codes "100") (headers (codes "100")) c in
      let c2 = set_pending_headers (codes "180") (headers (codes "180")) c1 in
      let c3 = set_pending_headers (codes "200") (headers (codes "200")) c2 in
      if not (is_enabled q w.header_injection) then c else c3

  -- at < 1 || at == callee.size() - 1
  unfoldable pub is_malformed : q.QString → Option ℕ → Bool
  is_malformed callee none = true
  is_malformed callee (some at) = ltb at 1 || at + 1 == q.size callee

  abbrev pub position : Option ℕ → ℕ
  position none = 0
  position (some at) = at

  unfoldable pub on_call_clicked : ℕ → MainWindow q → SipClient → Result (MainWindow q × SipClient)
  on_call_clicked random w c =
      let callee = q.trimmed w.callee in
      let at = q.index_of callee 64 in
      let to_user = q.to_std_string (q.left callee (position at)) in
      let to_domain = q.to_std_string (q.mid callee (position at + 1)) in
      let own = split_local c.state.registered_user in
      let c1 = set_pending_headers (codes "INVITE") (extra_headers (codes "INVITE") w) c in
      let c2 = set_pending_headers (codes "ACK") (extra_headers (codes "ACK") w) c1 in
      let called = do_invite own.0 own.1 to_user to_domain random c2 in
      let title = literal q (codes "Input error") in
      if q.is_empty callee
      then ok (warn q title (literal q (codes "Callee must not be empty.")) w, c)
      else if is_malformed callee at
      then ok (warn q title (literal q (codes "Callee must be in user@domain format.")) w, c)
      else called >>= λ c'. ok (w, c')

  unfoldable pub on_call_error : ℤ → q.QString → SipClient → MainWindow q → MainWindow q
  on_call_error code reason c w =
      let msg = q.arg (q.arg_int (literal q (codes "Call failed %1: %2")) code) reason in
      let w1 : MainWindow q = record w { status_label = q.append (literal q (codes "✗ ")) msg } in
      let w2 = update_button_states q c.state w1 in
      let content =
        if is_int code 404 then codes "User does not exist." else codes "User is busy." in
      if is_int code 404 || is_int code 486
      then warn q (literal q (codes "Call Failed")) (literal q content) w2
      else w2

  unfoldable pub on_hangup_clicked : MainWindow q → SipClient → Result SipClient
  on_hangup_clicked w c = do_bye (extra_headers (codes "BYE") w) c

  abbrev pub on_answer_clicked : SipClient → SipClient
  on_answer_clicked c = do_answer c

  abbrev pub on_reject_clicked : SipClient → SipClient
  on_reject_clicked c = do_reject c

  -- state == "Idle" || state == "Registered"
  unfoldable pub is_quiet : q.QString → Bool
  is_quiet state =
      q.equal state (literal q (codes "Idle")) || q.equal state (literal q (codes "Registered"))

  -- "[" and the Call-ID and "]", where there is one
  unfoldable pub call_id_text : q.QString → q.QString
  call_id_text call_id =
      if q.is_empty call_id
      then literal q []
      else q.append (q.append (literal q (codes "[")) call_id) (literal q (codes "]"))

  -- The URI without its "sip:"
  unfoldable pub display : q.QString → q.QString
  display uri = if q.starts_with_icase uri (literal q (codes "sip:")) then q.mid uri 4 else uri

  unfoldable pub on_call_state_changed :
      q.QString → q.QString → q.QString → SipClient → MainWindow q → MainWindow q
  on_call_state_changed state call_id remote_uri c w =
      let status = if is_quiet state then registered_text w else state in
      let w1 : MainWindow q = record w {
        status_label = if w.registered then status else w.status_label;
        call_id_label = if is_quiet state then literal q [] else call_id_text call_id;
        callee = if q.is_empty remote_uri then w.callee else display remote_uri;
      } in
      update_button_states q c.state w1

  unfoldable pub on_incoming_call : q.QString → q.QString → SipClient → MainWindow q → MainWindow q
  on_incoming_call call_id caller c w =
      let w1 : MainWindow q = record w {
        status_label = q.append (literal q (codes "Incoming call from ")) caller;
        call_id_label = q.append (q.append (literal q (codes "[")) call_id) (literal q (codes "]"));
      } in
      update_button_states q c.state w1
