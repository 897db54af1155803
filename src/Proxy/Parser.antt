-- ===== src/Proxy/Parser.antt =====
-- proxy/src/sip_parser.cpp. A static method that fills in the message returns it.
pub mod Lines
pub mod Fields
pub mod RoundTrip
pub mod Stream
use minimal_sip_proxy_sip_cl.Base.{
  ℕ, ◌+◌, Bool, true, false, ◌&&◌, ◌||◌, Option, none, some, List, [], ◌∷◌, ◌++◌, ◌==◌, ℤ, pos,
  negsuc, Bytes, codes, is_empty, find, take, drop, if◌then◌else◌, Result, ok, err, stoi,
}
use minimal_sip_proxy_sip_cl.Sip.Message.{
  SipHeader, SipMessage, empty_message, get_header, add_header, content_length,
}

abbrev pub is_blank : ℕ → Bool
is_blank c = c == 32 || c == 9

unfoldable pub trim_start : Bytes → Bytes
trim_start [] = []
trim_start (c ∷ s) = if is_blank c then trim_start s else c ∷ s

unfoldable pub trim_end : Bytes → Bytes
trim_end [] = []
trim_end (c ∷ s) = let r = trim_end s in if is_empty r && is_blank c then [] else c ∷ r

unfoldable pub trim : Bytes → Bytes
trim s = trim_end (trim_start s)

push_front : ℕ → List Bytes → List Bytes
push_front c [] = (c ∷ []) ∷ []
push_front c (l ∷ ls) = (c ∷ l) ∷ ls

-- What `std::getline` reads, one after another.
unfoldable pub lines : Bytes → List Bytes
unfolding push_front
lines [] = []
lines (c ∷ s) = if c == 10 then [] ∷ lines s else push_front c (lines s)

-- `if (!line.empty() && line.back() == '\r') line.pop_back();`
unfoldable pub chop_cr : Bytes → Bytes
chop_cr [] = []
chop_cr (c ∷ s) = if is_empty s && c == 13 then [] else c ∷ chop_cr s

unfoldable pub parse_start_line : SipMessage → Bytes → SipMessage
parse_start_line m line = if is_empty line then m else record m { start_line = line }

parse_header_at : SipMessage → Bytes → Option ℕ → SipMessage
parse_header_at m line none = m
parse_header_at m line (some separator_pos) =
    let name = trim (take separator_pos line) in
    if is_empty name then m else add_header m name (trim (drop (separator_pos + 1) line))

unfoldable pub parse_header_line : SipMessage → Bytes → SipMessage
unfolding parse_header_at
parse_header_line m line = parse_header_at m line (find (codes ":") line)

or_minus_one : Result ℤ → ℤ
or_minus_one (ok z) = z
or_minus_one (err e) = negsuc 0

unfoldable pub get_content_length : SipMessage → ℤ
unfolding or_minus_one
get_content_length m =
    let value = get_header m content_length in
    if is_empty value then negsuc 0 else or_minus_one (stoi value)

body_of_length : Bytes → ℤ → Bytes
body_of_length raw (pos n) = take n raw
body_of_length raw (negsuc n) = raw

unfoldable pub parse_body : SipMessage → Bytes → SipMessage
unfolding body_of_length
parse_body m raw =
    if is_empty raw
    then record m { body = [] }
    else record m { body = body_of_length raw (get_content_length m) }

-- One round of the loop: the message so far, and whether the start line is still to come.
unfoldable pub parse_line : SipMessage × Bool → Bytes → SipMessage × Bool
parse_line (m, first_line) raw =
    let line = chop_cr raw in
    if is_empty line
    then (m, first_line)
    else if first_line
    then (parse_start_line m line, false)
    else (parse_header_line m line, first_line)

unfoldable pub parse_lines : SipMessage × Bool → List Bytes → SipMessage × Bool
parse_lines s [] = s
parse_lines s (l ∷ ls) = parse_lines (parse_line s l) ls

-- The position of the empty line, and the length of the separator.
separator : Bytes → Option (ℕ × ℕ)
separator raw = elim (find (13 ∷ 10 ∷ 13 ∷ 10 ∷ []) raw) [
  | some i ↦ some (i, 4)
  | none ↦ elim (find (10 ∷ 10 ∷ []) raw) [ some i ↦ some (i, 2) | none ↦ none ]
]

header_part : Bytes → Option (ℕ × ℕ) → Bytes
header_part raw none = raw
header_part raw (some (i, l)) = take i raw

body_part : Bytes → Option (ℕ × ℕ) → Bytes
body_part raw none = []
body_part raw (some (i, l)) = drop (i + l) raw

unfoldable pub parse : Bytes → SipMessage
unfolding separator header_part body_part
parse raw =
    parse_body (parse_lines (empty_message, true) (lines (header_part raw (separator raw)))).0
      (body_part raw (separator raw))
