-- ===== src/Sip/Message.antt =====
-- common/include/common/sip_message.hpp, common/src/sip_message.cpp and the transport type of
-- common/include/common/types.hpp. A method that changes the message returns the new message.
pub mod Laws
use minimal_sip_proxy_sip_cl.Base.{
  ℕ, ◌+◌, Bool, true, false, not, ◌&&◌, Option, none, some, List, [], ◌∷◌, ◌++◌, ℤ, pos, negsuc,
  Bytes, codes, is_empty, length, str_eq, starts_with, find, take, if◌then◌else◌, Result, ok, err,
  stoi, to_string,
}
use minimal_sip_proxy_sip_cl.Base.Decimal.{is_space, skip_space}

pub data TransportType : Type 0 where
  udp tcp : TransportType

pub record SipHeader : Type 0 where
  pub name : Bytes
  pub value : Bytes

abbrev pub header : Bytes → Bytes → SipHeader
header n v = record { name = n; value = v }

pub record SipMessage : Type 0 where
  pub start_line : Bytes
  pub headers : List SipHeader
  pub body : Bytes

-- A message as its default constructor leaves it.
abbrev pub empty_message : SipMessage
empty_message = record { start_line = []; headers = []; body = [] }

-- The value of the first header of the name, and "" without one.
unfoldable pub get_in : List SipHeader → Bytes → Bytes
get_in [] n = []
get_in (h ∷ hs) n = if str_eq h.name n then h.value else get_in hs n

abbrev pub get_header : SipMessage → Bytes → Bytes
get_header m n = get_in m.headers n

abbrev pub add_header : SipMessage → Bytes → Bytes → SipMessage
add_header m n v = record m { headers = m.headers ++ header n v ∷ [] }

unfoldable pub has_in : List SipHeader → Bytes → Bool
has_in [] n = false
has_in (h ∷ hs) n = if str_eq h.name n then true else has_in hs n

abbrev pub has_header : SipMessage → Bytes → Bool
has_header m n = has_in m.headers n

unfoldable pub values_in : List SipHeader → Bytes → List Bytes
values_in [] n = []
values_in (h ∷ hs) n = (if str_eq h.name n then h.value ∷ [] else []) ++ values_in hs n

abbrev pub get_headers : SipMessage → Bytes → List Bytes
get_headers m n = values_in m.headers n

abbrev pub prepend_header : SipMessage → Bytes → Bytes → SipMessage
prepend_header m n v = record m { headers = header n v ∷ m.headers }

unfoldable pub remove_in : List SipHeader → Bytes → List SipHeader
remove_in [] n = []
remove_in (h ∷ hs) n = if str_eq h.name n then hs else h ∷ remove_in hs n

-- With whether a header was removed.
abbrev pub remove_first_header : SipMessage → Bytes → SipMessage × Bool
remove_first_header m n = (record m { headers = remove_in m.headers n }, has_in m.headers n)

abbrev pub sip_version : Bytes
sip_version = codes "SIP/2.0"

unfoldable pub is_response : SipMessage → Bool
is_response m = starts_with sip_version m.start_line

unfoldable pub is_request : SipMessage → Bool
unfolding is_response
is_request m = not (is_empty m.start_line) && not (is_response m)

unfoldable pub set_in : List SipHeader → Bytes → Bytes → List SipHeader
set_in [] n v = header n v ∷ []
set_in (h ∷ hs) n v = if str_eq h.name n then record h { value = v } ∷ hs else h ∷ set_in hs n v

abbrev pub set_header : SipMessage → Bytes → Bytes → SipMessage
set_header m n v = record m { headers = set_in m.headers n v }

up_to_space : Bytes → Option ℕ → Bytes
up_to_space s none = s
up_to_space s (some i) = take i s

unfoldable pub get_method : SipMessage → Bytes
unfolding is_request up_to_space
get_method m = if is_request m then up_to_space m.start_line (find (codes " ") m.start_line) else []

-- `ss >> version` leaves the stream at the first white space behind the first word.
skip_word : Bytes → Bytes
skip_word [] = []
skip_word (c ∷ s) = if is_space c then c ∷ s else skip_word s

-- The extraction of an int fails where `stoi` throws.
or_minus_one : Result ℤ → ℤ
or_minus_one (ok z) = z
or_minus_one (err e) = negsuc 0

unfoldable pub get_status_code : SipMessage → ℤ
unfolding is_response skip_word or_minus_one
get_status_code m =
    if is_response m then or_minus_one (stoi (skip_word (skip_space m.start_line))) else negsuc 0

abbrev pub content_length : Bytes
content_length = codes "Content-Length"

unfoldable pub update_content_length : SipMessage → SipMessage
update_content_length m = set_header m content_length (to_string (length m.body))

abbrev pub crlf : Bytes
crlf = 13 ∷ 10 ∷ []

unfoldable pub serialize_headers : List SipHeader → Bytes
serialize_headers [] = []
serialize_headers (h ∷ hs) = h.name ++ (codes ": " ++ (h.value ++ (crlf ++ serialize_headers hs)))

unfoldable pub serialize : SipMessage → Bytes
unfolding serialize_headers update_content_length
serialize m =
    let c = update_content_length m in
    c.start_line ++ (crlf ++ (serialize_headers c.headers ++ (crlf ++ c.body)))
