-- ===== src/Ui/Clicks.antt =====
-- What a click on a button does, and what the window shows of it.
use minimal_sip_proxy_sip_cl.Base.{
  ◌≡◌, refl, sym, ◌∙◌, true, false, ◌&&◌, Bool, arith, Bytes, codes, ok, Bool-cases, inl, inr,
  lookup-insert, if◌then◌else◌, str_eq,
}
use minimal_sip_proxy_sip_cl.Client.State.{State, registered, in_call, state_eq}
use minimal_sip_proxy_sip_cl.Client.Factory.{SipMessageFactory, build_bye}
use minimal_sip_proxy_sip_cl.Client.Session.{SipClient, pending_headers, set_pending_headers}
use minimal_sip_proxy_sip_cl.Client.Invite.{split_local, split_sip_uri}
use minimal_sip_proxy_sip_cl.Client.Invite.Commands.{Sends, bye-Sends}
use minimal_sip_proxy_sip_cl.Ui.Qt.{Qt}
use minimal_sip_proxy_sip_cl.Ui.Headers.{headers_for, set_checked}
use minimal_sip_proxy_sip_cl.Ui.Window.{MainWindow}
use minimal_sip_proxy_sip_cl.Ui.Window.Slots.{extra_headers, on_hangup_clicked, on_headers_changed}
use minimal_sip_proxy_sip_cl.Ui.Buttons.{IsFresh}

and_right : (a b : Bool) → (a && b) ≡ true → b ≡ true
and_right a b h = ground arith

pending_headers-set :
    (c : SipClient) (method headers other : Bytes)
    → pending_headers (set_pending_headers method headers c) other
      ≡ (if str_eq method other then headers else pending_headers c other)
unfolding pending_headers
pending_headers-set c method headers other = elim (Bool-cases (str_eq method other)) [
  | inl e ↦ rw (lookup-insert c.pending_headers_map method other headers, e) refl
  | inr e ↦ rw (lookup-insert c.pending_headers_map method other headers, e) refl
]

headers_given_bye :
    (c : SipClient) (headers : Bytes)
    → pending_headers (set_pending_headers (codes "BYE") headers c) (codes "BYE") ≡ headers
unfolding str_eq
headers_given_bye c x = pending_headers-set c (codes "BYE") x (codes "BYE")

-- The headers of three responses, set one after the other.
three_headers :
    (c : SipClient) (x y z : Bytes)
    → let c1 = set_pending_headers (codes "100") x c in
      let c2 = set_pending_headers (codes "180") y c1 in
      let c3 = set_pending_headers (codes "200") z c2 in
      (pending_headers c3 (codes "100") ≡ x)
      × (pending_headers c3 (codes "180") ≡ y)
      × (pending_headers c3 (codes "200") ≡ z)
unfolding str_eq
three_headers c x y z =
    let c1 = set_pending_headers (codes "100") x c in
    let c2 = set_pending_headers (codes "180") y c1 in
    (
      pending_headers-set c2 (codes "200") z (codes "100")
          ∙ pending_headers-set c1 (codes "180") y (codes "100")
          ∙ pending_headers-set c (codes "100") x (codes "100"),
      pending_headers-set c2 (codes "200") z (codes "180")
          ∙ pending_headers-set c1 (codes "180") y (codes "180"),
      pending_headers-set c2 (codes "200") z (codes "200"),
    )

module _ (q : Qt) (w : MainWindow q) (c : SipClient) (fresh : IsFresh q w c.state) where
  -- A click on an enabled Hang Up button sends one message, the BYE of the call with the headers of
  -- the editor if they are to be injected, and leaves the client registered.
  pub hangup_works :
      w.hangup_enabled ≡ true
      → let own = split_local c.state.registered_user in
        let peer = split_sip_uri c.state.active_remote_uri in
        (c' : SipClient) × (message : Bytes) × (f : SipMessageFactory) × (on_hangup_clicked q w c
          ≡ ok c')
        × (build_bye c.factory own.0 own.1 peer.0 peer.1 c.state.active_call_id
              (extra_headers q (codes "BYE") w)
            ≡ ok (message, f))
        × Sends message registered c c'
  unfolding on_hangup_clicked
  hangup_works enabled =
      let x = extra_headers q (codes "BYE") w in
      let talking =
        and_right w.registered (state_eq c.state.state in_call) (sym fresh.hangup ∙ enabled) in
      let (c', message, done, f, built, sends) =
        bye-Sends (set_pending_headers (codes "BYE") x c) talking in
      (
        c',
        message,
        f,
        done,
        rw (headers_given_bye c x) at built,
        record { sent = sends.sent; reached = sends.reached },
      )

-- The box of the headers is unchecked.
abbrev pub without_headers : (q : Qt) → MainWindow q → MainWindow q
without_headers q w = record w { header_injection = set_checked q false w.header_injection }

-- The headers that the window has given for the responses 100, 180 and 200 are still added to them
-- after the box of the headers is unchecked.
pub headers_stay :
    (q : Qt) (w : MainWindow q) (c : SipClient)
    → w.header_injection.checked ≡ true
    → let c' = on_headers_changed q (without_headers q w) (on_headers_changed q w c) in
      let given = λ (method : Bytes). q.to_std_string (headers_for q method w.header_injection) in
      (pending_headers c' (codes "100") ≡ given (codes "100"))
      × (pending_headers c' (codes "180") ≡ given (codes "180"))
      × (pending_headers c' (codes "200") ≡ given (codes "200"))
unfolding on_headers_changed set_checked
headers_stay q w c h = rw h (three_headers c _ _ _)
