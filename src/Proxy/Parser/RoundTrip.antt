-- ===== src/Proxy/Parser/RoundTrip.antt =====
-- Parsing what `serialize` of common/src/sip_message.cpp prints.
use native.Mathlib.Numerals.{add-four}
use minimal_sip_proxy_sip_cl.Base.{
  ℕ, ◌+◌, ◌^◌, ◌<◌, ◌≡◌, refl, ap, ◌∙◌, Bool, true, false, some, List, [], ◌∷◌, ◌++◌, map, Bytes,
  length, find, drop, to_string,
}
use minimal_sip_proxy_sip_cl.Base.Text.{take-length-append}
use minimal_sip_proxy_sip_cl.Sip.Message.{
  SipHeader, SipMessage, empty_message, set_in, content_length, update_content_length, serialize,
}
use minimal_sip_proxy_sip_cl.Proxy.Parser.{
  parse, parse_body, parse_lines, parse_line, parse_start_line, lines, separator, header_part,
  body_part,
}
use minimal_sip_proxy_sip_cl.Proxy.Parser.Lines.{
  NoBreak, NonEmpty, AllLines, joined, blank_line, header_line, serialize-joined, find-blank_line,
  parse_lines-joined, chop_cr_last,
}
use minimal_sip_proxy_sip_cl.Proxy.Parser.Fields.{
  AllHeaders, AllLines-map, parse_lines_headers, set_in-AllHeaders, parse_body-length,
}

-- A message that the text form can carry.
pub record IsWellFormed (m : SipMessage) : Type 0 where
  pub start_given : NonEmpty m.start_line
  pub start_line : NoBreak m.start_line
  pub headers : AllHeaders m.headers
  pub body_fits : length m.body < 2 ^ 31

drop_further : (s t : Bytes) → drop (length s + 4) (s ++ (blank_line ++ t)) ≡ t
drop_further [] t = refl
drop_further (c ∷ s) t =
    rw (add-four (length (c ∷ s))) (rw (add-four (length s)) at (drop_further s t))

-- The blank line of the network form comes first.
separator_found : (raw : Bytes) (i : ℕ) → find blank_line raw ≡ some i → separator raw ≡ some (i, 4)
unfolding separator
separator_found raw i e = rw (e, separator)

parse-joined :
    (l : Bytes) (ls : List Bytes) (body : Bytes)
    → AllLines (l ∷ ls)
    → parse (joined l ls ++ (blank_line ++ body))
      ≡ parse_body (parse_lines (empty_message, true) (l ∷ ls)).0 body
unfolding parse
parse-joined l ls body h =
    let raw = joined l ls ++ (blank_line ++ body) in
    ap
      (λ o.
        parse_body (parse_lines (empty_message, true) (lines (header_part raw o))).0
          (body_part raw o))
      (separator_found raw _ (find-blank_line l ls body h))
    ∙ rw (
      take-length-append (joined l ls) (blank_line ++ body),
      drop_further (joined l ls) body,
      parse_lines-joined (empty_message, true) l ls h,
    )

parse_line_start :
    (l : Bytes)
    → NoBreak l
    → NonEmpty l
    → parse_line (empty_message, true) l ≡ (record empty_message { start_line = l }, false)
unfolding parse_line parse_start_line
parse_line_start l k n = rw (chop_cr_last l k.0, n)

parse_lines_message :
    (l : Bytes) (hs : List SipHeader)
    → NoBreak l
    → NonEmpty l
    → AllHeaders hs
    → (parse_lines (empty_message, true) (l ∷ map header_line hs)).0
      ≡ record empty_message { start_line = l; headers = hs }
unfolding parse_lines
parse_lines_message l hs k n w =
    ap (λ s. (parse_lines s (map header_line hs)).0) (parse_line_start l k n)
    ∙ ap (λ (s : SipMessage × Bool). s.0)
        (parse_lines_headers (record empty_message { start_line = l }) hs w)

-- A well-formed message is parsed back from its serialized form, with its Content-Length set to
-- the size of the body.
pub parse-serialize :
    (m : SipMessage) → IsWellFormed m → parse (serialize m) ≡ update_content_length m
unfolding serialize
parse-serialize m w =
    let hs = set_in m.headers content_length (to_string (length m.body)) in
    let all = set_in-AllHeaders m.headers (length m.body) w.headers in
    ap parse (serialize-joined m.start_line hs m.body)
    ∙ parse-joined m.start_line (map header_line hs) m.body
        (w.start_line, w.start_given, AllLines-map hs all)
    ∙ ap (λ p. parse_body p m.body)
        (parse_lines_message m.start_line hs w.start_line w.start_given all)
    ∙ parse_body-length _ m.headers m.body refl w.body_fits
