-- ===== src/Proxy/Parser/Stream.antt =====
-- Serialized messages on a TCP connection: common/src/sip_message.cpp, networking/src/tcp_transport.cpp
-- and proxy/src/sip_parser.cpp together.
use minimal_sip_proxy_sip_cl.Base.{
  suc, ◌+◌, ◌≡◌, refl, sym, ap, ◌∙◌, none, List, [], ◌∷◌, ◌++◌, append_assoc, append-nil, map,
  arith, Bytes, length, length-append, take, find, to_string,
}
use minimal_sip_proxy_sip_cl.Base.Text.{take-length-append}
use minimal_sip_proxy_sip_cl.Base.Search.{drop-append}
use minimal_sip_proxy_sip_cl.Sip.Message.{
  SipMessage, set_in, content_length, update_content_length, serialize,
}
use minimal_sip_proxy_sip_cl.Networking.Tcp.{receive_loop}
use minimal_sip_proxy_sip_cl.Networking.Tcp.Framing.{
  cut_all, cut-some, cut-none, cut_fuel, concat, receive_loop-concat,
}
use minimal_sip_proxy_sip_cl.Proxy.Parser.{parse}
use minimal_sip_proxy_sip_cl.Proxy.Parser.Lines.{
  AllLines, joined, blank_line, header_line, serialize-joined, find-blank_line,
}
use minimal_sip_proxy_sip_cl.Proxy.Parser.Fields.{AllLines-map, set_in-AllHeaders}
use minimal_sip_proxy_sip_cl.Proxy.Parser.RoundTrip.{IsWellFormed, parse-serialize}

take_through : (a t : Bytes) → take (length a + 4) (a ++ (blank_line ++ t)) ≡ a ++ blank_line
take_through a t = rw (sym (append_assoc a blank_line t)) (
    ap (λ n. take n ((a ++ blank_line) ++ t)) (omega (arith, length-append a blank_line))
    ∙ take-length-append (a ++ blank_line) t)

cut_first :
    (l : Bytes) (ls : List Bytes) (t : Bytes)
    → AllLines (l ∷ ls)
    → cut_all (joined l ls ++ (blank_line ++ t))
      ≡ ((joined l ls ++ blank_line) ∷ (cut_all t).0, (cut_all t).1)
cut_first l ls t h =
    let s = joined l ls ++ (blank_line ++ t) in
    let n = length (joined l ls) in
    cut-some (length s) n s (find-blank_line l ls t h)
    ∙ rw (
      take_through (joined l ls) t,
      drop-append (joined l ls) (blank_line ++ t) 4 (n + 4) refl,
      cut_fuel (length s) (suc (length t)) t
          (omega (arith, length-append (joined l ls) (blank_line ++ t))) (omega arith),
    )

-- The lines of a message on the wire, its body left out.
abbrev head_of : SipMessage → Bytes
head_of m =
    joined m.start_line
      (map header_line (set_in m.headers content_length (to_string (length m.body))))
    ++ blank_line

serialize-head_of :
    (m : SipMessage)
    → serialize m
      ≡ joined m.start_line
          (map header_line (set_in m.headers content_length (to_string (length m.body))))
        ++ (blank_line ++ m.body)
unfolding serialize
serialize-head_of m = serialize-joined m.start_line _ m.body

cut_message :
    (m : SipMessage) (t : Bytes)
    → IsWellFormed m
    → cut_all (serialize m ++ t)
      ≡ (head_of m ∷ (cut_all (m.body ++ t)).0, (cut_all (m.body ++ t)).1)
cut_message m t w =
    let hs = set_in m.headers content_length (to_string (length m.body)) in
    let all = set_in-AllHeaders m.headers (length m.body) w.headers in
    let front = joined m.start_line (map header_line hs) in
    ap cut_all (rw (serialize-head_of m) (append_assoc front (blank_line ++ m.body) t))
    ∙ cut_first m.start_line (map header_line hs) (m.body ++ t)
        (w.start_line, w.start_given, AllLines-map hs all)

-- Messages that a TCP connection of this program can carry: without a body.
abbrev pub AllBare : List SipMessage → Type 0
AllBare [] = Unit {0}
AllBare (m ∷ ms) = IsWellFormed m × (m.body ≡ []) × AllBare ms

cut_messages :
    (ms : List SipMessage)
    → AllBare ms
    → cut_all (concat (map serialize ms)) ≡ (map serialize ms, [])
cut_messages [] h = cut-none 0 [] (unfold find in refl)
cut_messages (m ∷ ms) h =
    let bare : serialize m ≡ head_of m = rw (serialize-head_of m, h.1) refl in
    cut_message m (concat (map serialize ms)) h.0
    ∙ ap (λ (c : List Bytes × Bytes). (head_of m ∷ c.0, c.1))
        (ap (λ b. cut_all (b ++ concat (map serialize ms))) h.1 ∙ cut_messages ms h.2)
    ∙ ap (λ (x : Bytes). (x ∷ map serialize ms, [])) (sym bare)

parse_messages :
    (ms : List SipMessage)
    → AllBare ms
    → map parse (map serialize ms) ≡ map update_content_length ms
parse_messages [] h = refl
parse_messages (m ∷ ms) h = rw (parse-serialize m h.0, parse_messages ms h.2) refl

-- Well-formed messages without a body, sent one after the other over TCP, arrive as they were
-- sent, however the stream is cut into chunks: each is one callback, nothing stays behind, and the
-- parser reads each back with its Content-Length set.
pub receive_loop-serialize :
    (ms : List SipMessage) (chunks : List Bytes)
    → AllBare ms
    → concat chunks ≡ concat (map serialize ms)
    → (receive_loop [] chunks ≡ (map serialize ms, []))
      × (map parse (receive_loop [] chunks).0 ≡ map update_content_length ms)
receive_loop-serialize ms chunks h e =
    let received =
      receive_loop-concat chunks [] (unfold find in refl) ∙ ap cut_all e ∙ cut_messages ms h in
    (received, rw received (parse_messages ms h))

-- A well-formed message whose body has no blank line arrives without its body: the body stays in
-- the accumulator, in front of the next message.
pub receive_loop_body :
    (m : SipMessage) (chunks : List Bytes)
    → IsWellFormed m
    → find blank_line m.body ≡ none
    → concat chunks ≡ serialize m
    → (front : Bytes) × (serialize m ≡ front ++ m.body)
      × (receive_loop [] chunks ≡ (front ∷ [], m.body))
receive_loop_body m chunks w n e = (
  head_of m,
  serialize-head_of m ∙ sym (append_assoc _ blank_line m.body),
  receive_loop-concat chunks [] (unfold find in refl)
      ∙ ap cut_all (e ∙ sym (append-nil (serialize m)))
      ∙ cut_message m [] w
      ∙ ap (λ (c : List Bytes × Bytes). (head_of m ∷ c.0, c.1))
          (ap cut_all (append-nil m.body) ∙ cut-none (length m.body) m.body n),
)
