-- ===== src/Apps/ProxyMain.antt =====
-- apps/sip_proxy_main.cpp: the arguments, and the proxy and the metrics server, which run until the
-- user stops them. What is printed is left out.
use mathlib.Core.Option
use minimal_sip_proxy_sip_cl.Base.{
  ℕ, ◌%◌, ◌<◌, ◌^◌, ◌≡◌, refl, Option, none, some, List, [], ◌∷◌, Bytes, codes, append-nil, sym, ap,
  ◌∙◌, str_eq, stoi, to_string, to_u16, pos, if◌then◌else◌, Result, ok, ◌>>=◌,
}
use minimal_sip_proxy_sip_cl.Base.Decimal.{stoi-to_string}
use minimal_sip_proxy_sip_cl.Proxy.Server.{SipProxy, new_proxy, start, stop}
use minimal_sip_proxy_sip_cl.Proxy.Metrics.Server.{
  MetricsServer, new_metrics_server, start_server, stop_server,
}

-- The two ports from the arguments behind the name of the program, and `none` where the program ends
-- with its usage.
unfoldable pub read_ports : ℕ → ℕ → List Bytes → Result (Option (ℕ × ℕ))
read_ports udp_port tcp_port [] = ok (some (udp_port, tcp_port))
read_ports udp_port tcp_port (arg ∷ []) = ok none
read_ports udp_port tcp_port (arg ∷ value ∷ args) =
    if str_eq arg (codes "--udp-port")
    then (stoi value >>= λ port. read_ports (to_u16 port) tcp_port args)
    else if str_eq arg (codes "--tcp-port")
    then (stoi value >>= λ port. read_ports udp_port (to_u16 port) args)
    else ok none

-- The metrics server, and the proxy on these ports.
abbrev started : Option (ℕ × ℕ) → Option (MetricsServer × SipProxy)
started none = none
started (some ports) =
    Option.map (λ metrics. (metrics, start new_proxy ports.0 ports.1))
      (start_server new_metrics_server)

unfoldable pub proxy_main : List Bytes → Result (Option (MetricsServer × SipProxy))
proxy_main args = read_ports 5060 0 args >>= λ ports. ok (started ports)

-- ENTER, up to the join of the thread of the metrics server, whose destructor comes first.
unfoldable pub after_enter : MetricsServer × SipProxy → MetricsServer × SipProxy
after_enter both = (stop_server both.0, stop both.1)

stoi-whole : (n : ℕ) → n < 2 ^ 31 → stoi (to_string n) ≡ ok (pos n)
stoi-whole n h = ap stoi (sym (append-nil (to_string n))) ∙ stoi-to_string n [] h refl

-- Ports that are given as numbers, below 2 ^ 31 each, are cut to 16 bits without a word: a TCP port
-- of 65536 means no TCP.
pub read_ports_lem :
    (udp tcp udp_port tcp_port : ℕ)
    → udp < 2 ^ 31
    → tcp < 2 ^ 31
    → read_ports udp_port tcp_port
        (codes "--udp-port" ∷ to_string udp ∷ codes "--tcp-port" ∷ to_string tcp ∷ [])
      ≡ ok (some (udp % 2 ^ 16, tcp % 2 ^ 16))
unfolding read_ports to_u16 str_eq
read_ports_lem udp tcp udp_port tcp_port h k = rw (stoi-whole udp h, stoi-whole tcp k) refl
