-- ===== src/Client/Factory.antt =====
-- client/src/sip_message_factory.cpp. The random number of a Call-ID is given. The counter of CSeq
-- is taken to stay below the range of an int.
pub mod Words
pub mod Cseq
pub mod RoundTrip
use minimal_sip_proxy_sip_cl.Base.{
  ℕ, ◌+◌, Bool, ◌&&◌, ◌||◌, ◌==◌, leb, Option, none, some, List, [], ◌∷◌, ◌++◌, map, ℤ, pos, negsuc,
  Bytes, codes, is_empty, length, take, drop, find, str_eq, to_string, stoi, if◌then◌else◌, Result,
  ok, err, ◌>>=◌, invalid_argument,
}
use minimal_sip_proxy_sip_cl.Base.Decimal.{is_digit, is_space}
use minimal_sip_proxy_sip_cl.Base.Regex.{
  Item, one, many, regex_search, literal_icase, plus, group, group_one, is_inline, is_word,
}
use minimal_sip_proxy_sip_cl.Sip.Message.{SipHeader, header, SipMessage, serialize_headers, crlf}
use minimal_sip_proxy_sip_cl.Proxy.Parser.{lines, chop_cr}

pub record SipMessageFactory : Type 0 where
  pub local_ip : Bytes
  pub local_port : ℕ
  pub cseq : ℕ
  pub register_call_id : Bytes
  pub transport_protocol : Bytes

-- The random number `random` becomes a Call-ID.
unfoldable pub new_call_id : Bytes → ℕ → Bytes
new_call_id local_ip random = to_string random ++ (codes "@" ++ local_ip)

abbrev pub new_factory : Bytes → ℕ → ℕ → SipMessageFactory
new_factory ip port random = record {
  local_ip = ip;
  local_port = port;
  cseq = 1;
  register_call_id = new_call_id ip random;
  transport_protocol = codes "UDP";
}

abbrev pub set_local_port : SipMessageFactory → ℕ → SipMessageFactory
set_local_port f port = record f { local_port = port }

abbrev pub set_transport_protocol : SipMessageFactory → Bytes → SipMessageFactory
set_transport_protocol f protocol = record f { transport_protocol = protocol }

unfoldable pub make_via : SipMessageFactory → Bytes
make_via f =
    codes "SIP/2.0/"
    ++ (f.transport_protocol
        ++ (codes " " ++ (f.local_ip ++ (codes ":" ++ to_string f.local_port))))

unfoldable pub write : SipMessage → Bytes
write m = m.start_line ++ (crlf ++ (serialize_headers m.headers ++ (crlf ++ m.body)))

-- std::tolower in the "C" locale
abbrev pub to_lower : ℕ → ℕ
to_lower c = if leb 65 c && leb c 90 then c + 32 else c

abbrev pub same_name : Bytes → Bytes → Bool
same_name a b = str_eq (map to_lower a) (map to_lower b)

-- The first header of the name, whatever its case, gets the value, or a new header does.
unfoldable pub override : List SipHeader → Bytes → Bytes → List SipHeader
override [] name value = header name value ∷ []
override (h ∷ hs) name value =
    if same_name h.name name then record h { value = value } ∷ hs else h ∷ override hs name value

-- The value from its first byte that is no space on; one of spaces only stays as it is.
skip_spaces : Bytes → Bytes
skip_spaces [] = []
skip_spaces (c ∷ s) = let rest = skip_spaces s in if c == 32 then rest else c ∷ s

unfoldable pub unpadded : Bytes → Bytes
unfolding skip_spaces
unpadded value = if is_empty (skip_spaces value) then value else skip_spaces value

-- One line of the extra headers.
extra_line : List SipHeader → Bytes → Option ℕ → List SipHeader
extra_line hs line none = hs
extra_line hs line (some colon) = override hs (take colon line) (unpadded (drop (colon + 1) line))

unfoldable pub add_extra_headers : List SipHeader → List Bytes → List SipHeader
unfolding extra_line
add_extra_headers hs [] = hs
add_extra_headers hs (line ∷ rest) =
    add_extra_headers (extra_line hs (chop_cr line) (find (codes ":") (chop_cr line))) rest

abbrev pub contact_of : SipMessageFactory → Bytes → Bytes
contact_of f user =
    codes "<sip:"
    ++ (user ++ (codes "@" ++ (f.local_ip ++ (codes ":" ++ (to_string f.local_port ++ codes ">")))))

abbrev pub uri : Bytes → Bytes → Bytes
uri user domain = codes "sip:" ++ (user ++ (codes "@" ++ domain))

abbrev pub bracketed : Bytes → Bytes
bracketed s = codes "<" ++ (s ++ codes ">")

abbrev pub is_register : Bytes → Bool
is_register method = str_eq method (codes "REGISTER")

-- The headers in front of the extra ones.
unfoldable pub base_headers :
    SipMessageFactory → Bytes → Bytes → Bytes → Bytes → Bytes → Bytes → List SipHeader
base_headers f method from_user from_domain to_user to_domain call_id =
    header (codes "Via") (make_via f)
    ∷ header (codes "From") (bracketed (uri from_user from_domain))
    ∷ header (codes "To") (bracketed (uri to_user to_domain))
    ∷ header (codes "Call-ID") (if is_register method then f.register_call_id else call_id)
    ∷ header (codes "CSeq") (to_string f.cseq ++ (codes " " ++ method))
    ∷ (if is_register method || str_eq method (codes "INVITE")
        then header (codes "Contact") (contact_of f from_user) ∷ []
        else [])

-- The message that `build` serializes.
unfoldable pub message_for :
    SipMessageFactory → Bytes → Bytes → Bytes → Bytes → Bytes → Bytes → Bytes → Bytes → SipMessage
message_for f method from_user from_domain to_user to_domain call_id body extra = record {
  start_line = method ++ (codes " " ++ (uri to_user to_domain ++ codes " SIP/2.0"));
  headers =
      add_extra_headers (base_headers f method from_user from_domain to_user to_domain call_id)
        (lines extra)
      ++ header (codes "Content-Length") (to_string (length body)) ∷ [];
  body = body;
}

unfoldable pub build :
    SipMessageFactory
    → Bytes
    → Bytes
    → Bytes
    → Bytes
    → Bytes
    → Bytes
    → Bytes
    → Bytes
    → Result (Bytes × SipMessageFactory)
build f method from_user from_domain to_user to_domain call_id body extra =
    if is_empty method
    then err invalid_argument
    else ok (
      write (message_for f method from_user from_domain to_user to_domain call_id body extra),
      record f { cseq = f.cseq + 1 },
    )

module _ (f : SipMessageFactory) where
  abbrev pub build_register : Bytes → Bytes → Bytes → Result (Bytes × SipMessageFactory)
  build_register user domain extra = build f (codes "REGISTER") user domain user domain [] [] extra

  abbrev pub build_invite :
      Bytes → Bytes → Bytes → Bytes → Bytes → Bytes → Result (Bytes × SipMessageFactory)
  build_invite from_user from_domain to_user to_domain call_id extra =
      build f (codes "INVITE") from_user from_domain to_user to_domain call_id [] extra

  abbrev pub build_ack :
      Bytes → Bytes → Bytes → Bytes → Bytes → Bytes → Result (Bytes × SipMessageFactory)
  build_ack from_user from_domain to_user to_domain call_id extra =
      build f (codes "ACK") from_user from_domain to_user to_domain call_id [] extra

  abbrev pub build_bye :
      Bytes → Bytes → Bytes → Bytes → Bytes → Bytes → Result (Bytes × SipMessageFactory)
  build_bye from_user from_domain to_user to_domain call_id extra =
      build f (codes "BYE") from_user from_domain to_user to_domain call_id [] extra

-- \s*:\s*
abbrev pub colon : List Item
colon = many is_space ∷ one (λ c. c == 58) ∷ many is_space ∷ []

-- CSeq\s*:\s*(\d+)\s+\w+
abbrev pub cseq_number : List Item
cseq_number =
    literal_icase (codes "CSeq")
    ++ (colon ++ (group (plus is_digit) ++ (plus is_space ++ plus is_word)))

number_or_zero : Option (List Bytes) → Result ℤ
number_or_zero none = ok (pos 0)
number_or_zero (some groups) = stoi (group_one groups)

-- The number of the CSeq of a response; `std::stoi` throws where it is out of range.
unfoldable pub cseq_of : Bytes → Result ℤ
unfolding number_or_zero
cseq_of response = number_or_zero (regex_search (cseq_number ∷ []) response)

-- std::to_string of an int
abbrev pub int_text : ℤ → Bytes
int_text (pos n) = to_string n
int_text (negsuc n) = b'-' ∷ to_string (n + 1)

unfoldable pub build_ack_for_error :
    SipMessageFactory → Bytes → Bytes → Bytes → Bytes → Bytes → Bytes → Result Bytes
build_ack_for_error f from_user from_domain to_user to_domain call_id response = do
  number ← cseq_of response
  ok (
      write (record {
        start_line = codes "ACK " ++ (uri to_user to_domain ++ codes " SIP/2.0");
        headers =
            header (codes "Via") (make_via f)
            ∷ header (codes "From") (bracketed (uri from_user from_domain))
            ∷ header (codes "To") (bracketed (uri to_user to_domain))
            ∷ header (codes "Call-ID") call_id
            ∷ header (codes "CSeq") (int_text number ++ codes " ACK")
            ∷ header (codes "Content-Length") (codes "0")
            ∷ [];
        body = [];
      }))

-- name\s*:\s*(.+)
abbrev pub header_pattern : Bytes → List Item
header_pattern name = literal_icase name ++ (colon ++ group (plus is_inline))

group_or_empty : Option (List Bytes) → Bytes
group_or_empty none = []
group_or_empty (some groups) = group_one groups

-- The lambda `get_header` of `build_response`.
unfoldable pub request_header : Bytes → Bytes → Bytes
unfolding group_or_empty
request_header request name = group_or_empty (regex_search (header_pattern name ∷ []) request)

unfoldable pub extra_lines : List Bytes → Bytes
extra_lines [] = []
extra_lines (line ∷ rest) =
    (if is_empty (chop_cr line) then [] else chop_cr line ++ crlf) ++ extra_lines rest

abbrev header_text : Bytes → Bytes → Bytes
header_text name value = name ++ (codes ": " ++ (value ++ crlf))

unfoldable pub build_response : ℕ → Bytes → Bytes → Bytes → Bytes
build_response code reason request extra =
    codes "SIP/2.0 "
    ++ (to_string code
        ++ (codes " "
            ++ (reason
                ++ (crlf
                    ++ (header_text (codes "Via") (request_header request (codes "Via"))
                        ++ (header_text (codes "From") (request_header request (codes "From"))
                            ++ (header_text (codes "To") (request_header request (codes "To"))
                                ++ (header_text (codes "Call-ID")
                                      (request_header request (codes "Call-ID"))
                                    ++ (header_text (codes "CSeq")
                                          (request_header request (codes "CSeq"))
                                        ++ (extra_lines (lines extra)
                                            ++ codes "Content-Length: 0\r\n\r\n"))))))))))
