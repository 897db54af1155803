-- ===== src/Tests/Messages.antt =====
-- Tests of messages, of the parser and of what is read out of headers.
use minimal_sip_proxy_sip_cl.Base.{
  ◌≡◌, refl, [], ◌∷◌, codes, arith, pos, starts_with, find, find_from, str_eq, stoi,
}
use minimal_sip_proxy_sip_cl.Sip.Message.{
  udp, header, SipMessage, get_in, get_method, get_status_code, serialize, update_content_length,
}
use minimal_sip_proxy_sip_cl.Proxy.Parser.{
  parse, lines, trim, trim_start, trim_end, chop_cr, parse_line, parse_lines, parse_start_line,
  parse_header_line, parse_body, get_content_length,
}
use minimal_sip_proxy_sip_cl.Proxy.Parser.Fields.{IsHeader}
use minimal_sip_proxy_sip_cl.Proxy.Parser.RoundTrip.{IsWellFormed, parse-serialize}
use minimal_sip_proxy_sip_cl.Proxy.Metrics.{no_metrics}
use minimal_sip_proxy_sip_cl.Proxy.Call.{init, invite, trying_100, ringing_180, ok_200, ack, bye}
use minimal_sip_proxy_sip_cl.Proxy.Call.Machine.{apply_events, rank, rank-apply_events}
use minimal_sip_proxy_sip_cl.Proxy.Registration
use minimal_sip_proxy_sip_cl.Proxy.Registration.{handle}
use minimal_sip_proxy_sip_cl.Proxy.Registration.Laws.{handle_lem}
use minimal_sip_proxy_sip_cl.Tests.Data.{bob, bob_contact, invite_message, answer, session_in}

parse_test :
    parse (codes "INVITE sip:b SIP/2.0\r\nX :  7 \r\nbad line\r\nContent-Length: 2\r\n\r\nabc")
    ≡ record {
      start_line = codes "INVITE sip:b SIP/2.0";
      headers = header (codes "X") (codes "7") ∷ header (codes "Content-Length") (codes "2") ∷ [];
      body = codes "ab";
    }
unfolding parse lines trim trim_start trim_end chop_cr parse_line parse_lines parse_start_line
    parse_header_line parse_body get_content_length find starts_with get_in str_eq stoi
parse_test = refl

status_test : get_status_code (answer (codes "SIP/2.0 180 Ringing") []) ≡ pos 180
unfolding get_status_code starts_with stoi
status_test = refl

method_test : get_method invite_message ≡ codes "INVITE"
unfolding get_method starts_with find
method_test = refl

abbrev carried : SipMessage
carried = record {
  start_line = codes "BYE sip:b SIP/2.0";
  headers = header (codes "To") (codes "<sip:b>") ∷ header (codes "Subject") [] ∷ [];
  body = codes "hi\r\n\r\n";
}

to-IsHeader : IsHeader (header (codes "To") (codes "<sip:b>"))
to-IsHeader = record {
  name_given = refl;
  name_plain = omega arith;
  name_line = omega arith;
  name_starts = refl;
  name_ends = refl;
  value_line = omega arith;
  value_starts = refl;
  value_ends = refl;
}

subject-IsHeader : IsHeader (header (codes "Subject") [])
subject-IsHeader = record {
  name_given = refl;
  name_plain = omega arith;
  name_line = omega arith;
  name_starts = refl;
  name_ends = refl;
  value_line = omega arith;
  value_starts = tt;
  value_ends = tt;
}

carried-IsWellFormed : IsWellFormed carried
carried-IsWellFormed = record {
  start_given = refl;
  start_line = omega arith;
  headers = (to-IsHeader, (subject-IsHeader, tt));
  body_fits = omega arith;
}

parse-serialize_example : parse (serialize carried) ≡ update_content_length carried
parse-serialize_example = parse-serialize carried carried-IsWellFormed

rank-apply_events_example :
    rank
      (apply_events
        (session_in init)
        (invite ∷ trying_100 ∷ ok_200 ∷ ringing_180 ∷ ok_200 ∷ ack ∷ bye ∷ [])).state
    ≡ 4
rank-apply_events_example =
    rank-apply_events (session_in init)
      (invite ∷ trying_100 ∷ ok_200 ∷ ringing_180 ∷ ok_200 ∷ ack ∷ bye ∷ [])

abbrev register_message : SipMessage
register_message = record {
  start_line = codes "REGISTER sip:bob@b.com SIP/2.0";
  headers =
      header (codes "From") (codes "<sip:bob@b.com>") ∷ header (codes "Contact") bob_contact ∷ [];
  body = [];
}

handle_example : ((handle [] no_metrics register_message udp).0.start_line ≡ codes "SIP/2.0 200 OK")
unfolding starts_with get_in str_eq find find_from Registration.extract_sip_identity
handle_example = (handle_lem [] no_metrics register_message udp bob).1
