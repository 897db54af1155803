-- ===== src/Proxy/Registration.antt =====
-- The registration table and the handler of REGISTER: proxy/src/registration_table.cpp and
-- proxy/src/register_handler.cpp.
pub mod Laws
use minimal_sip_proxy_sip_cl.Base.{
  ℕ, ◌+◌, ◌-◌, Bool, ◌||◌, not, Option, none, some, [], Bytes, codes, is_empty, length, find,
  find_from, starts_with, substr, if◌then◌else◌, Dict, lookup, insert, has_key,
}
use mathlib.Core.Option
use minimal_sip_proxy_sip_cl.Sip.Message.{
  TransportType, SipMessage, get_header, add_header, empty_message,
}
use minimal_sip_proxy_sip_cl.Proxy.Metrics.{MetricsCollector, inc_registered_users}

pub record ContactEntry : Type 0 where
  pub contact : Bytes
  pub transport : TransportType

abbrev pub RegistrationTable : Type 0
RegistrationTable = Dict ContactEntry

unfoldable pub register_user : RegistrationTable → Bytes → Bytes → TransportType → RegistrationTable
register_user table user c t = insert table user (record { contact = c; transport = t })

unfoldable pub get_contact : RegistrationTable → Bytes → Option Bytes
get_contact table user = Option.map (λ e. e.contact) (lookup table user)

abbrev pub get_contact_entry : RegistrationTable → Bytes → Option ContactEntry
get_contact_entry table user = lookup table user

abbrev pub is_registered : RegistrationTable → Bytes → Bool
is_registered table user = has_key table user

end_or_size : Bytes → Option ℕ → ℕ
end_or_size s none = length s
end_or_size s (some i) = i

identity_at : Bytes → Option ℕ → Bytes
unfolding end_or_size
identity_at s none = []
identity_at s (some sip_pos) =
    let start = sip_pos + 4 in
    substr s start (end_or_size s (find_from (codes ">") s (some start)) - start)

-- The text between the first "sip:" and the next '>', or the end.
unfoldable pub extract_sip_identity : Bytes → Bytes
unfolding identity_at
extract_sip_identity s = identity_at s (find (codes "sip:") s)

-- A header that the request has with a value is copied.
abbrev pub copy_header : SipMessage → Bytes → SipMessage → SipMessage
copy_header request name response =
    if is_empty (get_header request name)
    then response
    else add_header response name (get_header request name)

unfoldable pub make_response : Bytes → SipMessage → SipMessage
make_response status request =
    let r0 = record empty_message { start_line = status } in
    let r1 = copy_header request (codes "Via") r0 in
    let r2 = copy_header request (codes "From") r1 in
    let r3 = copy_header request (codes "To") r2 in
    let r4 = copy_header request (codes "Call-ID") r3 in
    let r5 = copy_header request (codes "CSeq") r4 in
    add_header r5 (codes "Content-Length") (codes "0")

abbrev pub bad_request : Bytes
bad_request = codes "SIP/2.0 400 Bad Request"

abbrev pub ok_status : Bytes
ok_status = codes "SIP/2.0 200 OK"

-- The response, the table and the metrics after the call.
unfoldable pub handle :
    RegistrationTable
    → MetricsCollector
    → SipMessage
    → TransportType
    → SipMessage × RegistrationTable × MetricsCollector
handle table metrics m transport =
    let from = get_header m (codes "From") in
    let contact = get_header m (codes "Contact") in
    let user = extract_sip_identity from in
    if not (starts_with (codes "REGISTER") m.start_line)
    then (make_response bad_request m, table, metrics)
    else if is_empty from || is_empty contact
    then (make_response bad_request m, table, metrics)
    else if is_empty user
    then (make_response bad_request m, table, metrics)
    else (
      make_response ok_status m,
      register_user table user contact transport,
      inc_registered_users metrics,
    )
