-- ===== src/Proxy/Metrics.antt =====
-- proxy/src/metrics_collector.cpp. Each `std::atomic<int64_t>` is its bit pattern, below 2^64;
-- `++` wraps. The one instance of the collector is a part of the state of the proxy.
pub mod Report
pub mod Server
pub mod Stopping
use minimal_sip_proxy_sip_cl.Base.{ℕ, ◌+◌, ◌-◌, ◌%◌, ◌^◌, ◌&&◌, ltb, if◌then◌else◌}

pub record MetricsCollector : Type 0 where
  pub messages_received : ℕ
  pub messages_sent : ℕ
  pub active_calls : ℕ
  pub registered_users : ℕ

abbrev pub no_metrics : MetricsCollector
no_metrics = record {
  messages_received = 0;
  messages_sent = 0;
  active_calls = 0;
  registered_users = 0;
}

-- ++counter
unfoldable pub increment : ℕ → ℕ
increment n = (n + 1) % 2 ^ 64

-- if (counter > 0) --counter;
unfoldable pub decrement : ℕ → ℕ
decrement n = if ltb 0 n && ltb n (2 ^ 63) then n - 1 else n

abbrev pub inc_messages_received : MetricsCollector → MetricsCollector
inc_messages_received c = record c { messages_received = increment c.messages_received }

abbrev pub inc_messages_sent : MetricsCollector → MetricsCollector
inc_messages_sent c = record c { messages_sent = increment c.messages_sent }

abbrev pub inc_active_calls : MetricsCollector → MetricsCollector
inc_active_calls c = record c { active_calls = increment c.active_calls }

abbrev pub dec_active_calls : MetricsCollector → MetricsCollector
dec_active_calls c = record c { active_calls = decrement c.active_calls }

abbrev pub inc_registered_users : MetricsCollector → MetricsCollector
inc_registered_users c = record c { registered_users = increment c.registered_users }

abbrev pub dec_registered_users : MetricsCollector → MetricsCollector
dec_registered_users c = record c { registered_users = decrement c.registered_users }
