-- ===== src/Client/Factory/Words.antt =====
-- The headers that client/src/sip_message_factory.cpp writes, as the parser of the proxy reads them.
use minimal_sip_proxy_sip_cl.Base.{
  ℕ, ◌≡◌, ◌≢◌, refl, Bool, true, false, ◌||◌, List, [], ◌∷◌, ◌++◌, arith, Bytes, codes, str_eq,
  to_string, if◌then◌else◌,
}
use minimal_sip_proxy_sip_cl.Base.Decimal.{to_string-AllDigits, to_string-nonempty}
use minimal_sip_proxy_sip_cl.Base.Search.{Lacks, Lacks-append}
use minimal_sip_proxy_sip_cl.Sip.Message.{SipHeader, header, has_in, content_length}
use minimal_sip_proxy_sip_cl.Proxy.Parser.Lines.{NoBreak, NonEmpty}
use minimal_sip_proxy_sip_cl.Proxy.Parser.Fields.{
  IsHeader, AllHeaders, StartsFirm, EndsFirm, AllDigits-NoBreak, AllDigits-StartsFirm,
  AllDigits-EndsFirm,
}
use minimal_sip_proxy_sip_cl.Client.Factory.{
  SipMessageFactory, make_via, base_headers, uri, bracketed, contact_of, is_register,
}

-- A word of a header value: no line break, and no blank at its end.
pub record IsWord (s : Bytes) : Type 0 where
  pub given : NonEmpty s
  pub line : NoBreak s
  pub ends : EndsFirm s

pub NoBreak-append : (s t : Bytes) → NoBreak s → NoBreak t → NoBreak (s ++ t)
NoBreak-append s t h k = (Lacks-append 13 s t h.0 k.0, Lacks-append 10 s t h.1 k.1)

EndsFirm-append : (s t : Bytes) → NonEmpty t → EndsFirm t → EndsFirm (s ++ t)
EndsFirm-append [] t n h = h
EndsFirm-append (c ∷ []) [] n h = absurd (cc)
EndsFirm-append (c ∷ []) (d ∷ t) n h = h
EndsFirm-append (c ∷ d ∷ s) t n h = EndsFirm-append (d ∷ s) t n h

pub NonEmpty-append : (s t : Bytes) → NonEmpty t → NonEmpty (s ++ t)
NonEmpty-append [] t h = h
NonEmpty-append (c ∷ s) t h = refl

-- A word behind a text without line breaks.
IsWord-append : (s t : Bytes) → NoBreak s → IsWord t → IsWord (s ++ t)
IsWord-append s t h w = record {
  given = NonEmpty-append s t w.given;
  line = NoBreak-append s t h w.line;
  ends = EndsFirm-append s t w.given w.ends;
}

to_string-IsWord : (n : ℕ) → IsWord (to_string n)
to_string-IsWord n = record {
  given = to_string-nonempty n;
  line = AllDigits-NoBreak (to_string n) (to_string-AllDigits n);
  ends = AllDigits-EndsFirm (to_string n) (to_string-AllDigits n);
}

-- No header is named Content-Length, and each survives the text form.
pub record IsBody (hs : List SipHeader) : Type 0 where
  pub all : AllHeaders hs
  pub free : has_in hs content_length ≡ false

word_header :
    (name value : Bytes)
    → NonEmpty name
    → Lacks 58 name
    → NoBreak name
    → StartsFirm name
    → EndsFirm name
    → IsWord value
    → StartsFirm value
    → IsHeader (header name value)
word_header name value g p l s e w starts = record {
  name_given = g;
  name_plain = p;
  name_line = l;
  name_starts = s;
  name_ends = e;
  value_line = w.line;
  value_starts = starts;
  value_ends = w.ends;
}

StartsFirm-append : (s t : Bytes) → NonEmpty s → StartsFirm s → StartsFirm (s ++ t)
StartsFirm-append [] t n h = absurd (cc)
StartsFirm-append (c ∷ s) t n h = h

angle-IsWord : IsWord (codes ">")
angle-IsWord = record { given = refl; line = omega arith; ends = refl }

cons-NoBreak : (c : ℕ) (s : Bytes) → c ≢ 13 → c ≢ 10 → NoBreak s → NoBreak (c ∷ s)
cons-NoBreak c s h k n = ((h, n.0), (k, n.1))

pub uri-NoBreak : (user host : Bytes) → NoBreak user → NoBreak host → NoBreak (uri user host)
uri-NoBreak user host u h =
    NoBreak-append (codes "sip:") _ (omega arith)
      (NoBreak-append user _ u (cons-NoBreak 64 host (omega arith) (omega arith) h))

bracketed-IsWord : (s : Bytes) → NoBreak s → IsWord (bracketed s)
bracketed-IsWord s h =
    IsWord-append (codes "<") _ (omega arith) (IsWord-append s (codes ">") h angle-IsWord)

-- What a factory and the arguments of `build` keep to: no line break in them, no blank at an end of
-- a Call-ID, and a method that does not end in a blank.
pub record Fits (f : SipMessageFactory)
    (method from_user from_domain to_user to_domain call_id : Bytes) : Type 0 where
  pub protocol : NoBreak f.transport_protocol
  pub ip : NoBreak f.local_ip
  pub a_method : IsWord method
  pub from : NoBreak from_user × NoBreak from_domain
  pub to : NoBreak to_user × NoBreak to_domain
  pub id :
      IsWord (if is_register method then f.register_call_id else call_id)
      × StartsFirm (if is_register method then f.register_call_id else call_id)

module _ (f : SipMessageFactory) (method from_user from_domain to_user to_domain call_id : Bytes)
    (fits : Fits f method from_user from_domain to_user to_domain call_id) where
  via-IsWord : IsWord (make_via f)
  unfolding make_via
  via-IsWord =
      let port = IsWord-append (codes ":") _ (omega arith) (to_string-IsWord f.local_port) in
      let host = IsWord-append f.local_ip _ fits.ip port in
      IsWord-append (codes "SIP/2.0/") _ (omega arith) (
        IsWord-append f.transport_protocol _ fits.protocol
          (IsWord-append (codes " ") _ (omega arith) host))

  contact-IsWord : IsWord (contact_of f from_user)
  contact-IsWord =
      let port = to_string-IsWord f.local_port in
      let close = IsWord-append (to_string f.local_port) (codes ">") port.line angle-IsWord in
      let host =
        IsWord-append f.local_ip _ fits.ip (IsWord-append (codes ":") _ (omega arith) close) in
      IsWord-append (codes "<sip:") _ (omega arith)
        (IsWord-append from_user _ fits.from.0 (IsWord-append (codes "@") _ (omega arith) host))

  call_id-IsHeader :
      IsHeader
        (header (codes "Call-ID") (if is_register method then f.register_call_id else call_id))
  call_id-IsHeader = word_header _ _ refl (omega arith) (omega arith) refl refl fits.id.0 fits.id.1

  cseq-IsHeader : IsHeader (header (codes "CSeq") (to_string f.cseq ++ (codes " " ++ method)))
  cseq-IsHeader =
      let number = to_string-IsWord f.cseq in
      word_header _ _ refl (omega arith) (omega arith) refl refl
        (IsWord-append (to_string f.cseq) _ number.line
          (IsWord-append (codes " ") _ (omega arith) fits.a_method))
        (StartsFirm-append (to_string f.cseq) _ number.given
          (AllDigits-StartsFirm _ (to_string-AllDigits f.cseq)))

  party-IsHeader :
      (user host : Bytes)
      → NoBreak user
      → NoBreak host
      → IsHeader (header (codes "From") (bracketed (uri user host)))
        × IsHeader (header (codes "To") (bracketed (uri user host)))
  party-IsHeader user host u h =
      let w = bracketed-IsWord (uri user host) (uri-NoBreak user host u h) in
      (
        word_header _ _ refl (omega arith) (omega arith) refl refl w refl,
        word_header _ _ refl (omega arith) (omega arith) refl refl w refl,
      )

  contact-IsBody :
      (b : Bool) → IsBody (if b then header (codes "Contact") (contact_of f from_user) ∷ [] else [])
  unfolding has_in str_eq
  contact-IsBody true = record {
    all = (word_header _ _ refl (omega arith) (omega arith) refl refl contact-IsWord refl, tt);
    free = refl;
  }
  contact-IsBody false = record { all = tt; free = refl }

  pub base-IsBody : IsBody (base_headers f method from_user from_domain to_user to_domain call_id)
  unfolding base_headers has_in str_eq
  base-IsBody =
      let contact = contact-IsBody (is_register method || str_eq method (codes "INVITE")) in
      record {
        all = (
          word_header _ _ refl (omega arith) (omega arith) refl refl via-IsWord
              (unfold make_via in refl),
          (
            (party-IsHeader from_user from_domain fits.from.0 fits.from.1).0,
            (
              (party-IsHeader to_user to_domain fits.to.0 fits.to.1).1,
              (call_id-IsHeader, (cseq-IsHeader, contact.all)),
            ),
          ),
        );
        free = contact.free;
      }
