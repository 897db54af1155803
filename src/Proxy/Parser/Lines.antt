-- ===== src/Proxy/Parser/Lines.antt =====
-- How the parser cuts a serialized message into its lines and its body.
use minimal_sip_proxy_sip_cl.Base.{
  ℕ, suc, ◌≡◌, ◌≢◌, refl, sym, ap, ◌∙◌, Bool, false, some, List, [], ◌∷◌, ◌++◌, append_assoc, map,
  arith, Bytes, codes, length, length-append, find, is_empty,
}
use minimal_sip_proxy_sip_cl.Base.Search.{Lacks, find_skip}
use minimal_sip_proxy_sip_cl.Sip.Message.{SipHeader, SipMessage, crlf, serialize_headers}
use minimal_sip_proxy_sip_cl.Proxy.Parser.{lines, chop_cr, parse_line, parse_lines}

-- A line: neither a carriage return nor a line feed in it.
abbrev pub NoBreak : Bytes → Type 0
NoBreak s = Lacks 13 s × Lacks 10 s

abbrev pub NonEmpty : Bytes → Type 0
NonEmpty s = is_empty s ≡ false

abbrev pub AllLines : List Bytes → Type 0
AllLines [] = Unit {0}
AllLines (l ∷ ls) = NoBreak l × NonEmpty l × AllLines ls

abbrev pub blank_line : Bytes
blank_line = 13 ∷ 10 ∷ 13 ∷ 10 ∷ []

find_break :
    (c i : ℕ) (s : Bytes)
    → c ≢ 13
    → find blank_line (c ∷ s) ≡ some i
    → find blank_line (13 ∷ 10 ∷ c ∷ s) ≡ some (suc (suc i))
unfolding find
find_break c i s h e = ground arith

-- Lines joined by line breaks.
abbrev pub joined : Bytes → List Bytes → Bytes
joined l [] = l
joined l (k ∷ ks) = l ++ (crlf ++ joined k ks)

joined_front :
    (l : Bytes) (ls : List Bytes) (s : Bytes)
    → NoBreak l
    → NonEmpty l
    → (c : ℕ) × (t : Bytes) × (joined l ls ++ s ≡ c ∷ t) × (c ≢ 13)
joined_front [] ls s h n = cc
joined_front (c ∷ l) [] s h n = (c, l ++ s, refl, h.0.0)
joined_front (c ∷ l) (k ∷ ks) s h n = (c, (l ++ (crlf ++ joined k ks)) ++ s, refl, h.0.0)

-- The first empty line is the one behind the last header.
pub find-blank_line :
    (l : Bytes) (ls : List Bytes) (body : Bytes)
    → AllLines (l ∷ ls)
    → find blank_line (joined l ls ++ (blank_line ++ body)) ≡ some (length (joined l ls))
find-blank_line l [] body h =
    find_skip 13 0 (10 ∷ 13 ∷ 10 ∷ []) l (blank_line ++ body) h.0.0 (unfold find in ground arith)
    ∙ ap some (omega arith)
find-blank_line l (k ∷ ks) body h =
    let rest = joined k ks ++ (blank_line ++ body) in
    let (c, t, e, front) = joined_front k ks (blank_line ++ body) h.2.0 h.2.1 in
    let found : find blank_line (c ∷ t) ≡ some (length (joined k ks)) =
      ap (find blank_line) (sym e) ∙ find-blank_line k ks body h.2 in
    rw (append_assoc l (crlf ++ joined k ks) (blank_line ++ body), e)
      (find_skip 13 _ (10 ∷ 13 ∷ 10 ∷ []) l (13 ∷ 10 ∷ c ∷ t) h.0.0 (find_break c _ t front found)
        ∙ ap some (omega (arith, length-append l (crlf ++ joined k ks))))

lines_line : (l s : Bytes) → Lacks 10 l → lines (l ++ 13 ∷ 10 ∷ s) ≡ (l ++ 13 ∷ []) ∷ lines s
unfolding lines
lines_line [] s h = refl
lines_line (c ∷ l) s h = ground (arith, lines_line l s h.1)

lines_last : (c : ℕ) (l : Bytes) → Lacks 10 (c ∷ l) → lines (c ∷ l) ≡ (c ∷ l) ∷ []
unfolding lines
lines_last c [] h = ground arith
lines_last c (d ∷ l) h = ground (arith, lines_last d l h.1)

chop_cr_line : (l : Bytes) → chop_cr (l ++ 13 ∷ []) ≡ l
unfolding chop_cr
chop_cr_line [] = refl
chop_cr_line (c ∷ []) = ground arith
chop_cr_line (c ∷ d ∷ l) = ground (arith, chop_cr_line (d ∷ l))

pub chop_cr_last : (l : Bytes) → Lacks 13 l → chop_cr l ≡ l
unfolding chop_cr
chop_cr_last [] h = refl
chop_cr_last (c ∷ l) h = ground (arith, chop_cr_last l h.1)

parse_line_cr :
    (s : SipMessage × Bool) (l : Bytes) → Lacks 13 l → parse_line s (l ++ 13 ∷ []) ≡ parse_line s l
unfolding parse_line
parse_line_cr (m, first) l h = rw (chop_cr_line l, chop_cr_last l h)

-- The loop sees the lines without their breaks.
pub parse_lines-joined :
    (s : SipMessage × Bool) (l : Bytes) (ls : List Bytes)
    → AllLines (l ∷ ls)
    → parse_lines s (lines (joined l ls)) ≡ parse_lines s (l ∷ ls)
unfolding parse_lines
parse_lines-joined s [] ls h = cc
parse_lines-joined s (c ∷ l) [] h = rw (lines_last c l h.0.1)
parse_lines-joined s (c ∷ l) (k ∷ ks) h = rw (lines_line (c ∷ l) (joined k ks) h.0.1) (
    ap (λ t. parse_lines t (lines (joined k ks))) (parse_line_cr s (c ∷ l) h.0.0)
    ∙ parse_lines-joined (parse_line s (c ∷ l)) k ks h.2)

abbrev pub header_line : SipHeader → Bytes
header_line h = h.name ++ (codes ": " ++ h.value)

-- A serialized message is its joined lines, an empty line and the body.
pub serialize-joined :
    (l : Bytes) (hs : List SipHeader) (body : Bytes)
    → l ++ (crlf ++ (serialize_headers hs ++ (crlf ++ body)))
      ≡ joined l (map header_line hs) ++ (blank_line ++ body)
unfolding serialize_headers
serialize-joined l [] body = refl
serialize-joined l (h ∷ hs) body =
    let headers = joined (header_line h) (map header_line hs) in
    let opened : serialize_headers (h ∷ hs) ++ (crlf ++ body)
        ≡ header_line h ++ (crlf ++ (serialize_headers hs ++ (crlf ++ body))) =
      simp append_assoc in
    rw (append_assoc l (crlf ++ headers) (blank_line ++ body))
      (ap (λ t. l ++ (crlf ++ t)) (opened ∙ serialize-joined (header_line h) hs body))
