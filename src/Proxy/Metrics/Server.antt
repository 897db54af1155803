-- ===== src/Proxy/Metrics/Server.antt =====
-- proxy/src/metrics_server.cpp: the thread of the server, as atomic steps. The results of bind, listen
-- and accept are given, and so are the counters at the time of an answer; the content of a request is
-- not looked at. `start` and `stop` are called by one thread.
use minimal_sip_proxy_sip_cl.Base.{
  ℕ, suc, Bool, true, false, ◌&&◌, Option, none, some, List, [], ◌∷◌, ◌++◌, if◌then◌else◌, Bytes,
}
use minimal_sip_proxy_sip_cl.Proxy.Metrics.{MetricsCollector}
use minimal_sip_proxy_sip_cl.Proxy.Metrics.Report.{metrics_response}

-- Where the thread is: before bind, at the head of the loop, inside accept, at its end.
pub data ServerThread : Type 0 where
  no_thread setting_up testing accepting over : ServerThread

pub record MetricsServer : Type 0 where
  pub running : Bool
  pub server_thread : ServerThread
  -- What was sent to each client, and which were closed.
  pub answered : List (ℕ × Bytes)
  pub closed_clients : List ℕ

abbrev pub new_metrics_server : MetricsServer
new_metrics_server = record {
  running = false;
  server_thread = no_thread;
  answered = [];
  closed_clients = [];
}

-- A thread that is not joined must not be replaced; `none` ends the process.
launch : MetricsServer → ServerThread → Option MetricsServer
launch s no_thread = some (record s { running = true; server_thread = setting_up })
launch s t = none

unfoldable pub start_server : MetricsServer → Option MetricsServer
unfolding launch
start_server s = if s.running then some s else launch s s.server_thread

-- `stop` up to the join.
abbrev pub stop_server : MetricsServer → MetricsServer
stop_server s = record s { running = false }

-- The join; `none` is that it waits.
unfoldable pub join : MetricsServer → ServerThread → Option MetricsServer
join s over = some (record s { server_thread = no_thread })
join s no_thread = some s
join s t = none

-- What comes back from the system in a step of the thread.
pub data Event : Type 0 where
  -- The results of bind and listen.
  set_up : Bool → Bool → Event
  test : Event
  -- What accept gives, and the counters when the answer is written.
  accepted : Option ℕ → MetricsCollector → Event

-- A client is answered and closed; without one the loop goes on.
serve_client : MetricsServer → Option ℕ → MetricsCollector → MetricsServer
serve_client s none c = record s { server_thread = testing }
serve_client s (some fd) c = record s {
  server_thread = testing;
  answered = s.answered ++ (fd, metrics_response c) ∷ [];
  closed_clients = s.closed_clients ++ fd ∷ [];
}

unfoldable pub server_loop : MetricsServer → ServerThread → Event → Option MetricsServer
unfolding serve_client
server_loop s setting_up (set_up bound listening) =
    some (record s { server_thread = if bound && listening then testing else over })
server_loop s testing test =
    some (record s { server_thread = if s.running then accepting else over })
server_loop s accepting (accepted client c) = some (serve_client s client c)
server_loop s t e = none

pub data Action : Type 0 where
  start stop join_thread : Action
  thread : Event → Action

unfoldable pub step : MetricsServer → Action → Option MetricsServer
unfolding start_server
step s start = start_server s
step s stop = some (stop_server s)
step s join_thread = join s s.server_thread
step s (thread e) = server_loop s s.server_thread e

unfoldable pub run : MetricsServer → List Action → Option MetricsServer
run s [] = some s
run s (a ∷ rest) = elim (step s a) [ none ↦ none | some s' ↦ run s' rest ]

-- How often accept has come back.
abbrev pub accepts : List Action → ℕ
accepts [] = 0
accepts (thread (accepted client c) ∷ rest) = suc (accepts rest)
accepts (start ∷ rest) = accepts rest
accepts (stop ∷ rest) = accepts rest
accepts (join_thread ∷ rest) = accepts rest
accepts (thread (set_up b l) ∷ rest) = accepts rest
accepts (thread test ∷ rest) = accepts rest

abbrev pub in_accept : ServerThread → ℕ
in_accept accepting = 1
in_accept no_thread = 0
in_accept setting_up = 0
in_accept testing = 0
in_accept over = 0

abbrev pub NoStart : List Action → Type 0
NoStart [] = Unit {0}
NoStart (start ∷ rest) = ⊥
NoStart (stop ∷ rest) = NoStart rest
NoStart (join_thread ∷ rest) = NoStart rest
NoStart (thread e ∷ rest) = NoStart rest
