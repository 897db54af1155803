-- ===== src/Client/Factory/RoundTrip.antt =====
-- What the client of client/src/sip_message_factory.cpp builds, read by proxy/src/sip_parser.cpp.
use minimal_sip_proxy_sip_cl.Base.{
  Option, none, some, ℕ, ◌+◌, ◌^◌, ◌<◌, ◌≡◌, refl, sym, ap, ◌∙◌, false, List, [], ◌∷◌, ◌++◌, arith,
  Bytes, codes, length, find, take, drop, str_eq, to_string, ok, Bool-cases, Option-cases, inl, inr,
}
use minimal_sip_proxy_sip_cl.Sip.Message.{
  SipHeader, header, SipMessage, set_in, has_in, content_length, update_content_length, serialize,
}
use minimal_sip_proxy_sip_cl.Proxy.Parser.{parse, lines, chop_cr}
use minimal_sip_proxy_sip_cl.Proxy.Parser.Lines.{NoBreak}
use minimal_sip_proxy_sip_cl.Proxy.Parser.Fields.{
  IsHeader, AllHeaders, content_length-header, with_value,
}
use minimal_sip_proxy_sip_cl.Proxy.Parser.RoundTrip.{IsWellFormed, parse-serialize}
use minimal_sip_proxy_sip_cl.Client.Factory.{
  SipMessageFactory, write, override, same_name, unpadded, add_extra_headers, base_headers,
  message_for, build, uri,
}
use minimal_sip_proxy_sip_cl.Client.Factory.Words.{
  NoBreak-append, NonEmpty-append, uri-NoBreak, IsBody, Fits, base-IsBody,
}

AllHeaders-append : (hs ks : List SipHeader) → AllHeaders hs → AllHeaders ks → AllHeaders (hs ++ ks)
AllHeaders-append [] ks h k = k
AllHeaders-append (x ∷ hs) ks h k = (h.0, AllHeaders-append hs ks h.1 k)

set_in_last :
    (hs : List SipHeader) (v : Bytes)
    → has_in hs content_length ≡ false
    → set_in (hs ++ header content_length v ∷ []) content_length v
      ≡ hs ++ header content_length v ∷ []
unfolding set_in has_in
set_in_last [] v h = unfold str_eq in refl
set_in_last (x ∷ hs) v h = elim (Bool-cases (str_eq x.name content_length)) [
  | inl y ↦ absurd (cc (rw y at h))
  | inr y ↦ rw y (ap (◌∷◌ x) (set_in_last hs v (rw y at h)))
]

override-IsBody :
    (hs : List SipHeader) (name value : Bytes)
    → IsHeader (header name value)
    → str_eq name content_length ≡ false
    → IsBody hs
    → IsBody (override hs name value)
unfolding override has_in
override-IsBody [] name value h n b = record { all = (h, tt); free = rw n refl }
override-IsBody (x ∷ hs) name value h n b = elim (Bool-cases (str_eq x.name content_length)) [
  | inl y ↦ absurd (cc (rw y at b.free))
  | inr y ↦ elim (Bool-cases (same_name x.name name)) [
    | inl z ↦ rw z (record {
      all = (with_value value b.all.0 h.value_line h.value_starts h.value_ends, b.all.1);
      free = b.free;
    })
    | inr z ↦
        let r =
          override-IsBody hs name value h n (record { all = b.all.1; free = rw y at b.free }) in
        rw z (record { all = (b.all.0, r.all); free = rw (y, r.free) refl })
  ]
]

-- The line of an extra header, if it is one, survives the text form and is no Content-Length.
abbrev pub FitsAt : Bytes → Option ℕ → Type 0
FitsAt line none = Unit {0}
FitsAt line (some i) =
    IsHeader (header (take i line) (unpadded (drop (i + 1) line)))
    × (str_eq (take i line) content_length ≡ false)

abbrev pub ExtraFits : Bytes → Type 0
ExtraFits line = FitsAt (chop_cr line) (find (codes ":") (chop_cr line))

abbrev pub AllExtraFit : List Bytes → Type 0
AllExtraFit [] = Unit {0}
AllExtraFit (l ∷ ls) = ExtraFits l × AllExtraFit ls

extra-IsBody :
    (ls : List Bytes) (hs : List SipHeader)
    → AllExtraFit ls
    → IsBody hs
    → IsBody (add_extra_headers hs ls)
unfolding add_extra_headers
extra-IsBody [] hs f b = b
extra-IsBody (l ∷ ls) hs f b = elim (Option-cases (find (codes ":") (chop_cr l))) [
  | inl e ↦ rw e (extra-IsBody ls hs f.1 b)
  | inr (i, e) ↦
      let (h, n) : FitsAt (chop_cr l) (some i) = rw e at f.0 in
      rw e (extra-IsBody ls _ f.1 (override-IsBody hs _ _ h n b))
]

module _ (f : SipMessageFactory)
    (method from_user from_domain to_user to_domain call_id body extra : Bytes)
    (fits : Fits f method from_user from_domain to_user to_domain call_id)
    (extra_fits : AllExtraFit (lines extra)) where
  abbrev built : SipMessage
  built = message_for f method from_user from_domain to_user to_domain call_id body extra

  headers-IsBody : IsBody (
      add_extra_headers
        (base_headers f method from_user from_domain to_user to_domain call_id)
        (lines extra))
  headers-IsBody =
      extra-IsBody (lines extra) _ extra_fits
        (base-IsBody f method from_user from_domain to_user to_domain call_id fits)

  start_line-NoBreak :
      NoBreak (method ++ (codes " " ++ (uri to_user to_domain ++ codes " SIP/2.0")))
  start_line-NoBreak =
      let target = uri-NoBreak to_user to_domain fits.to.0 fits.to.1 in
      NoBreak-append method _ fits.a_method.line (
        NoBreak-append (codes " ") (uri to_user to_domain ++ codes " SIP/2.0") (omega arith)
          (NoBreak-append (uri to_user to_domain) (codes " SIP/2.0") target (omega arith)))

  built-IsWellFormed : length body < 2 ^ 31 → IsWellFormed built
  unfolding message_for
  built-IsWellFormed h = record {
    start_given = NonEmpty-append method _ refl;
    start_line = start_line-NoBreak;
    headers = AllHeaders-append _ _ headers-IsBody.all (content_length-header (length body), tt);
    body_fits = h;
  }

  update-built : update_content_length built ≡ built
  unfolding update_content_length message_for
  update-built =
      ap (λ (hs : List SipHeader). record built { headers = hs })
        (set_in_last _ (to_string (length body)) headers-IsBody.free)

  serialize-built : serialize built ≡ write built
  unfolding serialize write
  serialize-built =
      let written : serialize built ≡ write (update_content_length built) = refl in
      written ∙ ap write update-built

  -- A message that the client builds, with extra headers of any names but Content-Length, is parsed
  -- by the proxy as the start line, headers and body that the client has put together, and the
  -- sequence number goes up by one, whatever the method and the Call-ID. No part has a line break, neither the method nor the Call-ID
  -- ends in a blank, nor does the Call-ID start with one, each extra header survives the text form,
  -- and the body is shorter than 2 ^ 31.
  pub parse-build :
      length body < 2 ^ 31
      → (text : Bytes) × (build f method from_user from_domain to_user to_domain call_id body extra
          ≡ ok (text, record f { cseq = f.cseq + 1 }))
        × (parse text
            ≡ message_for f method from_user from_domain to_user to_domain call_id body extra)
  unfolding build
  parse-build h = (
    write built,
    rw (fits.a_method.given) refl,
    ap parse (sym serialize-built) ∙ parse-serialize built (built-IsWellFormed h) ∙ update-built,
  )
