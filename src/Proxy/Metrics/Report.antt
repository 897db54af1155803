-- ===== src/Proxy/Metrics/Report.antt =====
-- MetricsCollector::to_string of proxy/src/metrics_collector.cpp, and the answer that the loop of
-- proxy/src/metrics_server.cpp gives to every request. The sockets of the server are left out.
use minimal_sip_proxy_sip_cl.Base.{
  ℕ, ◌-◌, ◌^◌, ◌∷◌, ◌++◌, ltb, if◌then◌else◌, Bytes, codes, length, to_string,
}
use minimal_sip_proxy_sip_cl.Proxy.Metrics.{MetricsCollector}

-- std::to_string of a counter, by its bit pattern.
abbrev counter_text : ℕ → Bytes
counter_text n = if ltb n (2 ^ 63) then to_string n else b'-' ∷ to_string (2 ^ 64 - n)

abbrev rule : Bytes
rule = codes "--------------------------------------\n"

abbrev counter_line : Bytes → ℕ → Bytes
counter_line name n = rule ++ (name ++ (codes ": " ++ (counter_text n ++ codes "\n")))

unfoldable pub collector_text : MetricsCollector → Bytes
collector_text c =
    counter_line (codes "SIP_messages_received") c.messages_received
    ++ (counter_line (codes "SIP_messages_sent") c.messages_sent
        ++ (counter_line (codes "SIP_active_calls") c.active_calls
            ++ counter_line (codes "SIP_registered_users") c.registered_users))

unfoldable pub metrics_response : MetricsCollector → Bytes
metrics_response c =
    let body = collector_text c in
    codes "HTTP/1.1 200 OK\r\nContent-Type: text/plain\r\nContent-Length: "
    ++ (to_string (length body) ++ (codes "\r\n\r\n" ++ body))
