-- ===== src/Proxy/Parser/Fields.antt =====
-- How the parser reads one header line and the length of the body.
use native.Mathlib.Numerals.{add-one}
use minimal_sip_proxy_sip_cl.Base.{
  ℕ, if◌then◌else◌, ◌&&◌, str_eq, suc, ◌+◌, ◌^◌, ◌<◌, ◌≡◌, refl, sym, ap, ◌∙◌, false, some, List,
  [], ◌∷◌, ◌++◌, append_assoc, append-nil, map, arith, Bytes, length, find, is_empty, take, drop,
  ok, pos, stoi, to_string, Bool-cases, inl, inr, str_eq_refl,
}
use minimal_sip_proxy_sip_cl.Base.Decimal.{
  AllDigits, to_string-AllDigits, to_string-nonempty, stoi-to_string,
}
use minimal_sip_proxy_sip_cl.Base.Text.{take-length-append}
use minimal_sip_proxy_sip_cl.Sip.Message.{SipHeader, header, SipMessage, set_in, content_length}
use minimal_sip_proxy_sip_cl.Sip.Message.Laws.{get_in-set_in}
use minimal_sip_proxy_sip_cl.Proxy.Parser.{
  is_blank, trim, trim_start, trim_end, parse_header_line, parse_body, get_content_length,
  parse_lines, parse_line,
}
use minimal_sip_proxy_sip_cl.Base.Search.{Lacks, Lacks-append, find_skip}
use minimal_sip_proxy_sip_cl.Proxy.Parser.Lines.{
  chop_cr_last, NoBreak, NonEmpty, AllLines, header_line,
}

-- No space or tab at the start.
abbrev pub StartsFirm : Bytes → Type 0
StartsFirm [] = Unit {0}
StartsFirm (c ∷ s) = is_blank c ≡ false

-- No space or tab at the end.
abbrev pub EndsFirm : Bytes → Type 0
EndsFirm [] = Unit {0}
EndsFirm (c ∷ []) = is_blank c ≡ false
EndsFirm (c ∷ d ∷ s) = EndsFirm (d ∷ s)

-- A header that survives the text form: a name without a colon, no line break, no blank at
-- either end of the name or of the value. The value may be empty.
pub record IsHeader (h : SipHeader) : Type 0 where
  pub name_given : NonEmpty h.name
  pub name_plain : Lacks 58 h.name
  pub name_line : NoBreak h.name
  pub name_starts : StartsFirm h.name
  pub name_ends : EndsFirm h.name
  pub value_line : NoBreak h.value
  pub value_starts : StartsFirm h.value
  pub value_ends : EndsFirm h.value

abbrev pub AllHeaders : List SipHeader → Type 0
AllHeaders [] = Unit {0}
AllHeaders (h ∷ hs) = IsHeader h × AllHeaders hs

trim_start_firm : (s : Bytes) → StartsFirm s → trim_start s ≡ s
unfolding trim_start
trim_start_firm [] h = refl
trim_start_firm (c ∷ s) h = rw h

trim_end-cons :
    (c : ℕ) (s : Bytes)
    → trim_end (c ∷ s) ≡ (if is_empty (trim_end s) && is_blank c then [] else c ∷ trim_end s)
unfolding trim_end
trim_end-cons c s = refl

trim_end_firm : (s : Bytes) → EndsFirm s → trim_end s ≡ s
trim_end_firm [] h = unfold trim_end in refl
trim_end_firm (c ∷ []) h = unfold trim_end in ground arith
trim_end_firm (c ∷ d ∷ s) h = rw (trim_end-cons c (d ∷ s), trim_end_firm (d ∷ s) h)

trim_firm : (s : Bytes) → StartsFirm s → EndsFirm s → trim s ≡ s
unfolding trim
trim_firm s h k = ap trim_end (trim_start_firm s h) ∙ trim_end_firm s k

trim_space : (s : Bytes) → trim (32 ∷ s) ≡ trim s
unfolding trim trim_start
trim_space s = refl

colon_found : (n v : Bytes) → Lacks 58 n → find (58 ∷ []) (n ++ (58 ∷ 32 ∷ v)) ≡ some (length n)
colon_found n v h =
    find_skip 58 0 [] n (58 ∷ 32 ∷ v) h (unfold find in refl) ∙ ap some (omega arith)

drop_past : (n v : Bytes) → drop (suc (length n)) (n ++ (58 ∷ 32 ∷ v)) ≡ 32 ∷ v
drop_past [] v = refl
drop_past (c ∷ n) v = drop_past n v

drop_colon : (n v : Bytes) → drop (length n + 1) (n ++ (58 ∷ 32 ∷ v)) ≡ 32 ∷ v
drop_colon n v = rw add-one (drop_past n v)

parse_header_line_lem :
    (m : SipMessage) (h : SipHeader)
    → IsHeader h
    → parse_header_line m (header_line h) ≡ record m { headers = m.headers ++ h ∷ [] }
unfolding parse_header_line
parse_header_line_lem m h w = rw (
  colon_found h.name h.value w.name_plain,
  take-length-append h.name (58 ∷ 32 ∷ h.value),
  drop_colon h.name h.value,
  trim_space h.value,
  trim_firm h.name w.name_starts w.name_ends,
  trim_firm h.value w.value_starts w.value_ends,
  w.name_given,
)

header_line-NoBreak : (h : SipHeader) → IsHeader h → NoBreak (header_line h)
header_line-NoBreak h w = (
  Lacks-append 13 h.name _ w.name_line.0 (omega arith, (omega arith, w.value_line.0)),
  Lacks-append 10 h.name _ w.name_line.1 (omega arith, (omega arith, w.value_line.1)),
)

header_line-NonEmpty : (n v : Bytes) → NonEmpty (n ++ (58 ∷ 32 ∷ v))
header_line-NonEmpty [] v = refl
header_line-NonEmpty (c ∷ n) v = refl

pub AllLines-map : (hs : List SipHeader) → AllHeaders hs → AllLines (map header_line hs)
AllLines-map [] w = tt
AllLines-map (h ∷ hs) w =
    (header_line-NoBreak h w.0, header_line-NonEmpty h.name h.value, AllLines-map hs w.1)

parse_line_header :
    (m : SipMessage) (h : SipHeader)
    → IsHeader h
    → parse_line (m, false) (header_line h) ≡ (record m { headers = m.headers ++ h ∷ [] }, false)
unfolding parse_line
parse_line_header m h w = rw (
  chop_cr_last (header_line h) (header_line-NoBreak h w).0,
  header_line-NonEmpty h.name h.value,
  parse_header_line_lem m h w,
)

-- Each header line adds its header, in order.
pub parse_lines_headers :
    (m : SipMessage) (hs : List SipHeader)
    → AllHeaders hs
    → parse_lines (m, false) (map header_line hs) ≡ (record m { headers = m.headers ++ hs }, false)
unfolding parse_lines
parse_lines_headers m [] w = rw append-nil
parse_lines_headers m (h ∷ hs) w =
    ap (λ s. parse_lines s (map header_line hs)) (parse_line_header m h w.0)
    ∙ parse_lines_headers (record m { headers = m.headers ++ h ∷ [] }) hs w.1
    ∙ rw append_assoc

-- Digits are plain text.
pub AllDigits-NoBreak : (s : Bytes) → AllDigits s → NoBreak s
AllDigits-NoBreak [] h = (tt, tt)
AllDigits-NoBreak (c ∷ s) h =
    let r = AllDigits-NoBreak s h.1 in ((ground arith, r.0), (ground arith, r.1))

pub AllDigits-StartsFirm : (s : Bytes) → AllDigits s → StartsFirm s
AllDigits-StartsFirm [] h = tt
AllDigits-StartsFirm (c ∷ s) h = ground arith

pub AllDigits-EndsFirm : (s : Bytes) → AllDigits s → EndsFirm s
AllDigits-EndsFirm [] h = tt
AllDigits-EndsFirm (c ∷ []) h = ground arith
AllDigits-EndsFirm (c ∷ d ∷ s) h = AllDigits-EndsFirm (d ∷ s) h.1

pub content_length-header : (n : ℕ) → IsHeader (header content_length (to_string n))
content_length-header n =
    let d = to_string-AllDigits n in
    record {
      name_given = refl;
      name_plain = omega arith;
      name_line = omega arith;
      name_starts = refl;
      name_ends = refl;
      value_line = AllDigits-NoBreak _ d;
      value_starts = AllDigits-StartsFirm _ d;
      value_ends = AllDigits-EndsFirm _ d;
    }

pub with_value :
    {h : SipHeader} (v : Bytes)
    → IsHeader h
    → NoBreak v
    → StartsFirm v
    → EndsFirm v
    → IsHeader (record h { value = v })
with_value v w a b c = record {
  name_given = w.name_given;
  name_plain = w.name_plain;
  name_line = w.name_line;
  name_starts = w.name_starts;
  name_ends = w.name_ends;
  value_line = a;
  value_starts = b;
  value_ends = c;
}

pub set_in-AllHeaders :
    (hs : List SipHeader) (n : ℕ)
    → AllHeaders hs
    → AllHeaders (set_in hs content_length (to_string n))
unfolding set_in
set_in-AllHeaders [] n w = (content_length-header n, tt)
set_in-AllHeaders (h ∷ hs) n w = elim (Bool-cases (str_eq h.name content_length)) [
  | inl same ↦
      let v = content_length-header n in
      rw same (with_value (to_string n) w.0 v.value_line v.value_starts v.value_ends, w.1)
  | inr other ↦ rw other (w.0, set_in-AllHeaders hs n w.1)
]

take-length : (s : Bytes) → take (length s) s ≡ s
take-length s = ap (take (length s)) (sym (append-nil s)) ∙ take-length-append s []

stoi-to_string_whole : (n : ℕ) → n < 2 ^ 31 → stoi (to_string n) ≡ ok (pos n)
stoi-to_string_whole n h = ap stoi (sym (append-nil (to_string n))) ∙ stoi-to_string n [] h refl

get_content_length-set :
    (m : SipMessage) (hs : List SipHeader) (n : ℕ)
    → m.headers ≡ set_in hs content_length (to_string n)
    → n < 2 ^ 31
    → get_content_length m ≡ pos n
unfolding get_content_length
get_content_length-set m hs n k h = rw (
  k,
  get_in-set_in hs content_length (to_string n) content_length,
  str_eq_refl content_length,
  to_string-nonempty n,
  stoi-to_string_whole n h,
)

-- The body is read back whole under its own length.
pub parse_body-length :
    (m : SipMessage) (hs : List SipHeader) (body : Bytes)
    → m.headers ≡ set_in hs content_length (to_string (length body))
    → length body < 2 ^ 31
    → parse_body m body ≡ record m { body = body }
unfolding parse_body
parse_body-length m hs [] k h = refl
parse_body-length m hs (c ∷ body) k h =
    rw (get_content_length-set m hs (length (c ∷ body)) k h)
      (ap (λ (b : Bytes). record m { body = b }) (take-length (c ∷ body)))
