-- ===== src/Client/App/StatusLine.antt =====
-- What the error callback of the client is told about a response 4xx.
use minimal_sip_proxy_sip_cl.Base.{
  ℕ, ◌<◌, ◌≤◌, ◌≡◌, ◌≢◌, refl, ap, ◌∙◌, true, false, ◌==◌, [], ◌∷◌, ◌++◌, pos, arith, Bytes, codes,
  length, take, drop, find, starts_with, stoi, ok, err, out_of_range, Option-cases, inl, inr,
}
use minimal_sip_proxy_sip_cl.Base.Search.{Lacks}
use minimal_sip_proxy_sip_cl.Base.Decimal.{read_digits, stoi-read_digits}
use minimal_sip_proxy_sip_cl.Sip.Message.{crlf}
use minimal_sip_proxy_sip_cl.Client.Session.{SipClient, call_error, notify_call_state_changed}
use minimal_sip_proxy_sip_cl.Client.Invite.{on_message}
use minimal_sip_proxy_sip_cl.Client.Invite.Safety.{on_message-Keeps}
use minimal_sip_proxy_sip_cl.Client.App.{
  first_line, tail_at, tell_error, tell_register, receive, on_packet_received,
}

abbrev prefix : Bytes
prefix = codes "SIP/2.0 4"

starts_with-drop : (p s : Bytes) → starts_with p s ≡ true → s ≡ p ++ drop (length p) s
unfolding starts_with
starts_with-drop [] s h = refl
starts_with-drop (c ∷ p) [] h = absurd (cc)
starts_with-drop (c ∷ p) (d ∷ s) h =
    let (same, rest) : (d ≡ c) × (starts_with p s ≡ true) = ground arith in
    ap (λ x. x ∷ s) same ∙ ap (◌∷◌ c) (starts_with-drop p s rest)

first_line-cons : (c : ℕ) (s : Bytes) → c ≢ 13 → first_line (c ∷ s) ≡ c ∷ first_line s
unfolding first_line find starts_with
first_line-cons c s n =
    let other : (13 == c) ≡ false = ground arith in
    elim (Option-cases (find crlf s)) [
      | inl e ↦ rw (other, e) refl
      | inr (i, e) ↦ rw (other, e) refl
    ]

first_line-append : (p s : Bytes) → Lacks 13 p → first_line (p ++ s) ≡ p ++ first_line s
first_line-append [] s h = refl
first_line-append (c ∷ p) s h =
    first_line-cons c (p ++ s) h.0 ∙ ap (◌∷◌ c) (first_line-append p s h.1)

tail_at_lem : (s : Bytes) (n : ℕ) → n ≤ length s → tail_at s n ≡ ok (drop n s)
unfolding tail_at
tail_at_lem s n h = ground arith

tail_at_throws : (s : Bytes) (n : ℕ) → length s < n → tail_at s n ≡ err out_of_range
unfolding tail_at
tail_at_throws s n h = ground arith

code_bound : (l : Bytes) → read_digits 0 (52 ∷ take 2 l) < 1000
unfolding read_digits
code_bound [] = ground arith
code_bound (a ∷ []) = ground arith
code_bound (a ∷ b ∷ l) = ground arith

code_read : (l : Bytes) → (code : ℕ) × (stoi (take 3 (52 ∷ l)) ≡ ok (pos code)) × (code < 1000)
code_read l =
    let less = code_bound l in
    (read_digits 0 (52 ∷ take 2 l), stoi-read_digits 52 (take 2 l) refl (omega arith), less)

-- The client after the error callback.
abbrev pub told_of : Bytes → ℕ → SipClient → SipClient
told_of text code c = record c {
  notices = c.notices ++ call_error (pos code) (drop 12 (first_line text)) ∷ [];
}

module _ (text : Bytes) (start : starts_with prefix text ≡ true) where
  -- The first line behind the prefix.
  abbrev line_rest : Bytes
  line_rest = first_line (drop 9 text)

  line_split : first_line text ≡ prefix ++ line_rest
  line_split =
      ap first_line (starts_with-drop prefix text start)
      ∙ first_line-append prefix (drop 9 text) (omega arith)

  tell_error_lem :
      (c : SipClient)
      → c.call_error_cb ≡ true
      → (length (first_line text) < 12 → tell_error text c ≡ err out_of_range)
        × (12 ≤ length (first_line text)
            → (code : ℕ) × (code < 1000) × (tell_error text c ≡ ok (told_of text code c)))
  unfolding tell_error
  tell_error_lem c cb =
      let (code, read, less) = code_read line_rest in
      let size : 8 ≤ length (first_line text) = rw line_split (omega arith) in
      let digits : tail_at (first_line text) 8 ≡ ok (52 ∷ line_rest) =
        tail_at_lem (first_line text) 8 size ∙ ap (λ (l : Bytes). ok (drop 8 l)) line_split in
      (
        λ h. rw (cb, start, digits, read, tail_at_throws (first_line text) 12 h) refl,
        λ h. (code, less, rw (cb, start, digits, read, tail_at_lem (first_line text) 12 h) refl),
      )

  -- A response 4xx that `on_message` handles, at a client with an error callback: if its first line
  -- is shorter than twelve bytes, as "SIP/2.0 404" is, the client throws; otherwise the callback is
  -- told a status below 1000 and the text from the thirteenth byte of the line on.
  pub error_callback :
      (c c1 : SipClient)
      → c.call_error_cb ≡ true
      → on_message text (receive text c) ≡ ok c1
      → (length (first_line text) < 12 → on_packet_received text c ≡ err out_of_range)
        × (12 ≤ length (first_line text)
            → (code : ℕ) × (code < 1000)
              × (on_packet_received text c
                  ≡ ok (tell_register (notify_call_state_changed (told_of text code c1)))))
  unfolding on_packet_received
  error_callback c c1 cb e =
      let kept = (on_message-Keeps text (receive text c) c1 e).callbacks.1 ∙ cb in
      let (short, long) = tell_error_lem c1 kept in
      (
        λ h. rw (e, short h) refl,
        λ h. let (code, less, told) = long h in (code, less, rw (e, told) refl),
      )
