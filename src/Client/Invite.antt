-- ===== src/Client/Invite.antt =====
-- client/src/sip_invite_handler.cpp. A new Call-ID is drawn from a random number, which is given.
pub mod Status
pub mod Reactions
pub mod Safety
pub mod Calls
pub mod Dispatch
pub mod Dialogs
pub mod Errors
pub mod Commands
use minimal_sip_proxy_sip_cl.Base.{
  ℕ, ◌+◌, ◌-◌, Bool, true, false, not, ◌&&◌, ◌||◌, ◌==◌, Option, none, some, List, [], ◌∷◌, ◌++◌,
  map, ℤ, pos, negsuc, is_int, leb, Bytes, codes, is_empty, length, take, drop, find, starts_with,
  str_eq, contains, after_pos, stoi, if◌then◌else◌, Result, ok, err, ◌>>=◌,
}
use minimal_sip_proxy_sip_cl.Base.Decimal.{is_digit, is_space}
use minimal_sip_proxy_sip_cl.Base.Regex.{
  Item, one, many, regex_search, literal, literal_icase, plus, group, group_one, group_two,
  is_visible, is_word, to_upper,
}
use minimal_sip_proxy_sip_cl.Client.State.{
  State, calling, ClientStateManager, is_registered, is_busy, is_in_call, transition_to, on_calling,
  on_incoming_call, on_ringing, on_call_established, on_call_terminated,
}
use minimal_sip_proxy_sip_cl.Client.Factory.{
  SipMessageFactory, new_call_id, build_invite, build_ack, build_bye, build_ack_for_error,
  build_response, colon, uri,
}
use minimal_sip_proxy_sip_cl.Client.Session.{
  SipClient, send_to_server, pending_headers, notify_call_state_changed,
}

-- (?:Call-ID|i)\s*:\s*(\S+)
abbrev pub call_id_pattern : List (List Item)
call_id_pattern =
    (literal_icase (codes "Call-ID") ++ (colon ++ group (plus is_visible)))
    ∷ (literal_icase (codes "i") ++ (colon ++ group (plus is_visible)))
    ∷ []

first_group : Option (List Bytes) → Bytes
first_group none = []
first_group (some groups) = group_one groups

unfoldable pub extract_call_id : Bytes → Bytes
unfolding first_group
extract_call_id raw = first_group (regex_search call_id_pattern raw)

-- SIP/2\.0\s+(\d{3})
abbrev pub status_pattern : List Item
status_pattern =
    literal (codes "SIP/2.0")
    ++ (plus is_space ++ group (one is_digit ∷ one is_digit ∷ one is_digit ∷ []))

status_of : Option (List Bytes) → Result ℤ
status_of none = ok (pos 0)
status_of (some groups) = stoi (group_one groups)

unfoldable pub extract_status_code : Bytes → Result ℤ
unfolding status_of
extract_status_code raw = status_of (regex_search (status_pattern ∷ []) raw)

-- CSeq\s*:\s*\d+\s+(\w+)
abbrev pub cseq_pattern : List Item
cseq_pattern =
    literal_icase (codes "CSeq")
    ++ (colon ++ (plus is_digit ++ (plus is_space ++ group (plus is_word))))

unfoldable pub extract_cseq_method : Bytes → Bytes
unfolding first_group
extract_cseq_method raw = map to_upper (first_group (regex_search (cseq_pattern ∷ []) raw))

-- sip:([^@>]+)@([^>;>\s]+)
abbrev pub uri_pattern : List Item
uri_pattern =
    literal_icase (codes "sip:")
    ++ (group (plus (λ c. not (c == 64 || c == 62)))
        ++ (one (λ c. c == 64) ∷ group (plus (λ c. not (c == 62 || c == 59 || is_space c)))))

both_groups : Option (List Bytes) → Bytes × Bytes
both_groups none = ([], [])
both_groups (some groups) = (group_one groups, group_two groups)

unfoldable pub split_sip_uri : Bytes → Bytes × Bytes
unfolding both_groups
split_sip_uri s = both_groups (regex_search (uri_pattern ∷ []) s)

-- From:\s*<sip:([^@]+)@([^>]+)>
abbrev pub from_pattern : List Item
from_pattern =
    literal_icase (codes "From:")
    ++ (many is_space
        ∷ (literal_icase (codes "<sip:")
            ++ (group (plus (λ c. not (c == 64)))
                ++ (one (λ c. c == 64)
                    ∷ (group (plus (λ c. not (c == 62))) ++ one (λ c. c == 62) ∷ [])))))

caller_in : Option (List Bytes) → Bytes
caller_in none = codes "unknown"
caller_in (some groups) = group_one groups ++ (codes "@" ++ group_two groups)

unfoldable pub extract_caller : Bytes → Bytes
unfolding caller_in
extract_caller raw = caller_in (regex_search (from_pattern ∷ []) raw)

-- local.substr(0, at) and local.substr(at + 1)
user_part : Bytes → Option ℕ → Bytes
user_part s none = s
user_part s (some at) = take at s

unfoldable pub split_local : Bytes → Bytes × Bytes
unfolding user_part
split_local s = (user_part s (find (codes "@") s), drop (after_pos (find (codes "@") s)) s)

-- A message that the factory has built goes out.
abbrev pub send_built : SipClient → Bytes × SipMessageFactory → SipClient
send_built c built = record (send_to_server built.0 c) { factory = built.1 }

abbrev pub with_state : SipClient → (ClientStateManager → ClientStateManager) → SipClient
with_state c f = record c { state = f c.state }

unfoldable pub handle_invite : Bytes → Bytes → Bytes → Bytes → ℕ → SipClient → Result SipClient
handle_invite from_user from_domain to_user to_domain random c =
    let call_id = new_call_id c.factory.local_ip random in
    let c1 = with_state c (on_calling call_id (uri to_user to_domain)) in
    if not (is_registered c.state) then ok c else if is_busy c.state then ok c else do
      built ←
          build_invite c1.factory from_user from_domain to_user to_domain call_id
            (pending_headers c1 (codes "INVITE"))
      ok (notify_call_state_changed (send_built c1 built))

unfoldable pub handle_bye : SipClient → Result SipClient
handle_bye c =
    let own = split_local c.state.registered_user in
    let peer = split_sip_uri c.state.active_remote_uri in
    if not (is_in_call c.state) then ok c else do
      built ←
          build_bye c.factory own.0 own.1 peer.0 peer.1 c.state.active_call_id
            (pending_headers c (codes "BYE"))
      ok (notify_call_state_changed (with_state (send_built c built) on_call_terminated))

unfoldable pub handle_incoming_invite : Bytes → SipClient → SipClient
handle_incoming_invite raw c =
    let call_id = extract_call_id raw in
    let c1 = with_state c (on_incoming_call call_id (codes "sip:" ++ extract_caller raw)) in
    let c2 = notify_call_state_changed c1 in
    let c3 =
      send_to_server (build_response 100 (codes "Trying") raw (pending_headers c2 (codes "100")))
        c2 in
    let c4 =
      send_to_server (build_response 180 (codes "Ringing") raw (pending_headers c3 (codes "180")))
        c3 in
    if is_empty call_id
    then c
    else if is_busy c.state
    then send_to_server (build_response 486 (codes "Busy Here") raw []) c
    else record c4 { pending_invite = raw }

unfoldable pub handle_incoming_bye : Bytes → SipClient → SipClient
handle_incoming_bye raw c =
    let call_id = extract_call_id raw in
    let c1 =
      send_to_server (build_response 200 (codes "OK") raw (pending_headers c (codes "200"))) c in
    if is_empty call_id
    then c
    else if not (str_eq call_id c.state.active_call_id)
    then c
    else notify_call_state_changed (with_state c1 on_call_terminated)

unfoldable pub handle_answer : SipClient → SipClient
handle_answer c =
    let response =
      build_response 200 (codes "OK") c.pending_invite (pending_headers c (codes "200")) in
    if is_empty c.pending_invite
    then c
    else record (with_state (send_to_server response c) on_call_established) { pending_invite = [] }

unfoldable pub handle_reject : SipClient → SipClient
handle_reject c =
    let response = build_response 603 (codes "Decline") c.pending_invite [] in
    if is_empty c.pending_invite
    then c
    else record (with_state (send_to_server response c) on_call_terminated) { pending_invite = [] }

unfoldable pub handle_100 : SipClient → SipClient
handle_100 c = notify_call_state_changed (with_state c (transition_to calling))

unfoldable pub handle_180 : SipClient → SipClient
handle_180 c = notify_call_state_changed (with_state c on_ringing)

unfoldable pub handle_200_ok_invite : SipClient → Result SipClient
handle_200_ok_invite c = do
  let own = split_local c.state.registered_user
  let peer = split_sip_uri c.state.active_remote_uri
  let c1 = with_state c on_call_established
  built ←
      build_ack c1.factory own.0 own.1 peer.0 peer.1 c.state.active_call_id
        (pending_headers c1 (codes "ACK"))
  ok (notify_call_state_changed (send_built c1 built))

unfoldable pub handle_200_ok_bye : SipClient → SipClient
handle_200_ok_bye c = with_state c on_call_terminated

unfoldable pub handle_error : Bytes → SipClient → Result SipClient
handle_error raw c = do
  let own = split_local c.state.registered_user
  let peer = split_sip_uri c.state.active_remote_uri
  ack ← build_ack_for_error c.factory own.0 own.1 peer.0 peer.1 c.state.active_call_id raw
  ok (notify_call_state_changed (with_state (send_to_server ack c) on_call_terminated))

-- code >= 400
abbrev is_error : ℤ → Bool
is_error (pos n) = leb 400 n
is_error (negsuc n) = false

-- The switch on the status code.
unfoldable pub handle_status : ℤ → Bytes → SipClient → Result SipClient
handle_status code raw c =
    if is_int code 100
    then ok (handle_100 c)
    else if is_int code 180
    then ok (handle_180 c)
    else if is_int code 200
    then if str_eq (extract_cseq_method raw) (codes "BYE")
      then ok (handle_200_ok_bye c)
      else handle_200_ok_invite c
    else if is_error code
    then handle_error raw c
    else ok c

unfoldable pub on_message : Bytes → SipClient → Result SipClient
on_message raw c =
    let upper = map to_upper raw in
    let is_response = starts_with (codes "SIP/2.0") upper in
    let call_id = extract_call_id raw in
    if not is_response && starts_with (codes "INVITE") upper
    then ok (handle_incoming_invite raw c)
    else if not is_response && starts_with (codes "BYE") upper
    then ok (handle_incoming_bye raw c)
    else if not (contains (codes "SIP/2.0") upper)
    then ok c
    else if is_empty call_id
    then ok c
    else if not (str_eq call_id c.state.active_call_id)
    then ok c
    else extract_status_code raw >>= λ code. handle_status code raw c
